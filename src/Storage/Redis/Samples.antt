-- ===== src/Storage/Redis/Samples.antt =====
-- A Redis server for tests: every command takes a nanosecond.
use throttle.Prelude.{
  ℕ, suc, String, ◌≡◌, refl, Option, none, some, arith, ◌==◌, eq_refl, if◌then◌else◌,
}
use throttle.Int.{ℤ, pos, ◌+ℤ◌, ◌≤ℤ◌, ◌<ℤ◌, ltb_ℤ, lt→ltb_ℤ, int_laws}
use throttle.Exec.{message, ok, err, returns}
use throttle.Time.{Clock}
use throttle.Storage.Expiring.{millisecond}
use throttle.Storage.Redis.{Client}
use throttle.Storage.Redis.Expiring.{IsExpiringServer, reply_of}
use throttle.Dict
use throttle.Dict.Laws.{lookup-insert, lookup-delete}

-- A text and the time until which it stays, where it has one.
pub record Entry : Type 0 where
  pub text : String
  pub until : Option ℤ

pub record Server : Type 0 where
  pub time : ℕ
  pub entries : Dict.Dict Entry

abbrev pub ticked : Server → Server
ticked w = record w { time = suc w.time }

abbrev stays_until : Option ℤ → String → ℤ → Option String
stays_until none v t = some v
stays_until (some u) v t = if ltb_ℤ t u then some v else none

abbrev text_at : Option Entry → ℤ → Option String
text_at none t = none
text_at (some e) t = stays_until e.until e.text t

abbrev text_shown : Server → String → ℤ → Option String
text_shown w k t = text_at (Dict.lookup k w.entries) t

-- Until when a text stays that is set now.
abbrev expiry : ℤ → ℤ → Option ℤ
expiry now d = if ltb_ℤ (pos 0) d then some (now +ℤ d) else none

abbrev set_text : String → String → ℤ → Server → Server
set_text k v d w = record {
  time = suc w.time;
  entries = Dict.insert k (record { text = v; until = expiry (pos w.time) d }) w.entries;
}

abbrev pub server_client : Client ℤ Server
server_client = record {
  pipeline = λ _ w. (returns (err (message "unused")), w);
  get = λ k w. (returns (reply_of (text_shown w k (pos w.time))), ticked w);
  set = λ k v d w. (returns (ok tt), set_text k v d w);
  del = λ k w. (returns (ok tt), record { time = suc w.time; entries = Dict.delete k w.entries });
  z_rem_range_by_score = λ _ _ _ w. (returns (ok tt), w);
  z_count = λ _ _ _ w. (returns (ok (pos 0)), w);
  expire = λ _ _ w. (returns (ok tt), w);
  ping = λ w. (returns (ok tt), w);
  close = λ w. (returns (ok tt), w);
  format = λ _. "";
}

abbrev pub server_clock : Clock Server
server_clock = record { read = λ w. (pos w.time, ticked w) }

pub shown-set_text :
    (w : Server) (k j v : String) (d t : ℤ)
    → text_shown (set_text k v d w) j t
      ≡ (if k == j then stays_until (expiry (pos w.time) d) v t else text_shown w j t)
shown-set_text w k j v d t =
    ground (arith, lookup-insert k j (record { text = v; until = expiry (pos w.time) d }) w.entries)

pub stays-expiry :
    (now d t : ℤ) (v : String)
    → pos 0 <ℤ d
    → t +ℤ millisecond ≤ℤ now +ℤ d
    → stays_until (expiry now d) v t ≡ some v
stays-expiry now d t v positive inside =
    rw (lt→ltb_ℤ (pos 0) d positive, lt→ltb_ℤ t (now +ℤ d) (omega int_laws)) refl

unfoldable pub server-IsExpiringServer : IsExpiringServer server_client server_clock
server-IsExpiringServer = record {
  now = λ w. pos w.time;
  held = text_shown;
  read_answer = λ w. refl;
  read_later = λ w. omega arith;
  read_held = λ w k t. refl;
  get_answer = λ w k. refl;
  get_later = λ w k. omega arith;
  get_held = λ w k j t. refl;
  set_answer = λ w k v d. refl;
  set_later = λ w k v d. omega arith;
  set_held = λ w k v d t positive later inside.
      rw (shown-set_text w k k v d t, eq_refl k) (stays-expiry (pos w.time) d t v positive inside);
  set_kept = λ w k v t. rw (shown-set_text w k k v (pos 0) t, eq_refl k) refl;
  set_others = λ w k j v d t other. rw (shown-set_text w k j v d t, other) refl;
  del_answer = λ w k. refl;
  del_later = λ w k. omega arith;
  del_others = λ w k j t other. rw (lookup-delete k j w.entries, other) refl;
}
