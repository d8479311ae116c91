-- ===== src/Storage/Redis/Tests.antt =====
-- A run of the service over the Redis store, whose server is a table of texts.
use throttle.Prelude.{
  ◌⊎◌, inl, inr, String, ◌≡◌, refl, [], Option, none, some, arith, ◌==◌, if◌then◌else◌,
}
use throttle.Int.{ℤ, pos}
use throttle.Exec.{ok, returns}
use throttle.Dict
use throttle.Dict.Laws.{lookup-insert, lookup-delete}
use throttle.Storage.Redis.{Client, Reply, found, nil, redis_store}
use throttle.Storage.Redis.Values.{IsServer}
use throttle.Storage.Redis.KeyValue.{IsUndisturbed}
use throttle.Time.{Clock, unix}
use throttle.Float64.Whole.{whole_numbers}
use throttle.Service.Config.Validity.{validate_config_iff}
use throttle.Service.Samples.{
  hundred, hundred-IsValid, codecs, hundred-IsCodecAt, created-IsCodecAt,
}
use throttle.Service.RateLimit.{set_config, get_config}
use throttle.Service.RateLimit.OnRedis.{get_config-set_config_redis}

abbrev Table : Type 0
Table = Dict.Dict String

abbrev reply : Option String → Reply
reply none = nil
reply (some v) = found v

abbrev table_client : Client ℤ Table
table_client = record {
  pipeline = λ _ w. (returns (ok (pos 1)), w);
  get = λ k w. (returns (reply (Dict.lookup k w)), w);
  set = λ k v _ w. (returns (ok tt), Dict.insert k v w);
  del = λ k w. (returns (ok tt), Dict.delete k w);
  z_rem_range_by_score = λ _ _ _ w. (returns (ok tt), w);
  z_count = λ _ _ _ w. (returns (ok (pos 0)), w);
  expire = λ _ _ w. (returns (ok tt), w);
  ping = λ w. (returns (ok tt), w);
  close = λ w. (returns (ok tt), w);
  format = λ _. "";
}

set_reply :
    (w : Table) (k j v : String)
    → reply (Dict.lookup j (Dict.insert k v w))
      ≡ (if k == j then found v else reply (Dict.lookup j w))
set_reply w k j v = ground (arith, lookup-insert k j v w)

del_reply :
    (w : Table) (k j : String)
    → reply (Dict.lookup j (Dict.delete k w)) ≡ (if k == j then nil else reply (Dict.lookup j w))
del_reply w k j = ground (arith, lookup-delete k j w)

unfoldable table_client-IsServer : IsServer table_client
table_client-IsServer = record {
  held = λ w k. reply (Dict.lookup k w);
  get_answer = λ w k. refl;
  set_answer = λ w k v. refl;
  set_held = set_reply;
  del_answer = λ w k. refl;
  del_held = del_reply;
}

abbrev stopped_clock : Clock Table
stopped_clock = record { read = λ w. (pos 0, w) }

reply-cases : (o : Option String) → ((s : String) × (reply o ≡ found s)) ⊎ (reply o ≡ nil)
reply-cases none = inr refl
reply-cases (some s) = inl (s, refl)

table_client-IsUndisturbed : IsUndisturbed table_client-IsServer stopped_clock
unfolding table_client-IsServer
table_client-IsUndisturbed = record {
  reached = λ w k. reply-cases (Dict.lookup k w);
  get_held = λ w k j. refl;
  read_held = λ w j. refl;
}

get_config-set_config_redis_example :
    let store = redis_store table_client in
    let after = (set_config whole_numbers store stopped_clock codecs "alice" hundred []).1 in
    ((set_config whole_numbers store stopped_clock codecs "alice" hundred []).0 ≡ returns (ok tt))
    × ((get_config whole_numbers store stopped_clock codecs "alice" after).0 ≡ returns (ok hundred))
    × ((get_config whole_numbers store stopped_clock codecs "bob" after).0
        ≡ (get_config whole_numbers store stopped_clock codecs "bob" []).0)
unfolding unix
get_config-set_config_redis_example =
    get_config-set_config_redis whole_numbers table_client stopped_clock codecs
      table_client-IsServer [] "alice" "bob" hundred table_client-IsUndisturbed
      ((validate_config_iff hundred).1 hundred-IsValid) hundred-IsCodecAt created-IsCodecAt refl
