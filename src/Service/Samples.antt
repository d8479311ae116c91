-- ===== src/Service/Samples.antt =====
-- Sample data for tests: a configuration, codecs that know one value each, and a key-value server.
use throttle.Prelude.{
  ◌≡◌, String, refl, [], Option, none, some, arith, ◌==◌, eq_iff, if◌then◌else◌, inl, inr,
}
use throttle.Int.{ℤ, pos}
use throttle.Exec.{message, ok, err, returns}
use throttle.Time.{Clock}
use throttle.Codec.{Codec, IsCodecAt}
use throttle.Storage.{Store}
use throttle.Storage.KeyValue.{IsKeyValue}
use throttle.Dict
use throttle.Dict.Laws.{lookup-insert, lookup-delete}
use throttle.Service.Config.{RateLimitConfig, token_bucket, fixed_window}
use throttle.Service.Config.Validity.{IsValid}
use throttle.Service.Limiters.{Codecs, RateLimitMetadata}

-- A hundred requests a minute.
abbrev pub hundred : RateLimitConfig
hundred = record {
  algorithm = fixed_window;
  limit = pos 100;
  window_seconds = pos 60;
  refill_rate = pos 0;
  refill_interval = pos 0;
}

abbrev pub thousand : RateLimitConfig
thousand = record hundred { limit = pos 1000 }

pub hundred-IsValid : IsValid hundred
hundred-IsValid = record {
  known = inr (inr (inl refl));
  limit_pos = omega arith;
  window_pos = omega arith;
  refill_pos = λ e. absurd (ground (arith, e, eq_iff fixed_window token_bucket));
}

-- A text for one value only.
abbrev pub only : {A : Type 0} → String → A → Codec A
only text a = record {
  marshal = λ _. ok text;
  unmarshal = λ s. if s == text then ok a else err (message "unexpected text");
}

abbrev pub created : RateLimitMetadata
created = record { created_at = pos 0; updated_at = pos 0 }

abbrev pub codecs : Codecs ℤ
codecs = record {
  configs = only "{hundred}" hundred;
  metadata = only "{created}" created;
  token_states = only "{}" (record { tokens = pos 0; last_fill_time = pos 0 });
  sliding_states = only "{}" (record { timestamps = [] });
  fixed_states = only "{}" (record { count = pos 0; window_end = pos 0 });
  leaky_states = only "{}" (record { count = pos 0; last_leak_time = pos 0 });
}

pub hundred-IsCodecAt : IsCodecAt codecs.configs hundred
hundred-IsCodecAt = record {
  text = "{hundred}";
  marshals = refl;
  nonempty = λ e. ground (arith, e, eq_iff "{hundred}" "");
  unmarshals = refl;
}

pub created-IsCodecAt : IsCodecAt codecs.metadata created
created-IsCodecAt = record {
  text = "{created}";
  marshals = refl;
  nonempty = λ e. ground (arith, e, eq_iff "{created}" "");
  unmarshals = refl;
}

-- A key-value server that keeps texts for ever.
abbrev pub Table : Type 0
Table = Dict.Dict String

abbrev pub or_empty : Option String → String
or_empty none = ""
or_empty (some v) = v

abbrev pub table : Store ℤ Table
table = record {
  increment = λ _ _ w. (returns (err (message "unused")), w);
  increment_by = λ _ _ _ w. (returns (err (message "unused")), w);
  get = λ k w. (returns (ok (or_empty (Dict.lookup k w))), w);
  set = λ k v _ w. (returns (ok tt), Dict.insert k v w);
  delete = λ k w. (returns (ok tt), Dict.delete k w);
  z_add = λ _ _ _ _ w. (returns (ok tt), w);
  z_rem_range_by_score = λ _ _ _ w. (returns (ok tt), w);
  z_count = λ _ _ _ w. (returns (ok (pos 0)), w);
  expire = λ _ _ w. (returns (ok tt), w);
  ping = λ w. (returns (ok tt), w);
  close = λ w. (returns (ok tt), w);
}

abbrev pub stopped_clock : Clock Table
stopped_clock = record { read = λ w. (pos 0, w) }

pub insert_value :
    (w : Table) (k j v : String)
    → or_empty (Dict.lookup j (Dict.insert k v w))
      ≡ (if k == j then v else or_empty (Dict.lookup j w))
insert_value w k j v = ground (arith, lookup-insert k j v w)

pub delete_value :
    (w : Table) (k j : String)
    → or_empty (Dict.lookup j (Dict.delete k w))
      ≡ (if k == j then "" else or_empty (Dict.lookup j w))
delete_value w k j = ground (arith, lookup-delete k j w)

unfoldable pub table-IsKeyValue : IsKeyValue table stopped_clock
table-IsKeyValue = record {
  value = λ w k. or_empty (Dict.lookup k w);
  get_answer = λ w k. refl;
  get_value = λ w k j. refl;
  set_answer = λ w k v. refl;
  set_value = insert_value;
  delete_answer = λ w k. refl;
  delete_value = delete_value;
  read_value = λ w j. refl;
}
