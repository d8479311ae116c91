-- ===== src/Service/Tests.antt =====
-- Runs of the service.
use throttle.Prelude.{String, ◌≡◌, refl, false, ◌↔◌, [], arith, ◌==◌}
use throttle.Int.{ℤ, pos}
use throttle.Int64.{div64}
use throttle.Exec.{not_found, ok, err, returns}
use throttle.Time.{unix}
use throttle.Float64.Whole.{whole_numbers}
use throttle.Dict
use throttle.Memory.{World, memory_store, world_clock, new_memory_store}
use throttle.Service.Config.{validate_config}
use throttle.Service.Config.Validity.{IsValid, validate_config_iff}
use throttle.Service.Limiters.{
  Limiter, Service, get_or_create_limiter, new_fixed_window, new_limiter,
}
use throttle.Service.Limiters.Creation.{get_or_create_limiter_stale, get_or_create_limiter_total}
use throttle.Service.RateLimit.{set_config, get_config}
use throttle.Service.RateLimit.Configs.{get_config-set_config}
use throttle.Service.RateLimit.OnMemory.{set_config_expires}
use throttle.Service.Samples.{
  hundred, thousand, hundred-IsValid, codecs, hundred-IsCodecAt, created-IsCodecAt, Table, table,
  stopped_clock, table-IsKeyValue,
}

validate_config_iff_example : (validate_config hundred ≡ ok tt) ↔ IsValid hundred
validate_config_iff_example = validate_config_iff hundred

abbrev idle : Service ℤ Table
idle = record { limiters = []; world = [] }

get_or_create_limiter_total_example :
    (lim : Limiter ℤ) × (s' : Service ℤ Table) × (get_or_create_limiter whole_numbers
        "alice:fixed_window" hundred idle
      ≡ (returns (ok lim), s'))
    × (s'.world ≡ idle.world)
get_or_create_limiter_total_example =
    get_or_create_limiter_total whole_numbers "alice:fixed_window" hundred idle hundred-IsValid

abbrev after_creation : Service ℤ Table
after_creation = record idle {
  limiters = Dict.insert "alice:fixed_window" (new_fixed_window hundred) [];
}

created_limiter :
    get_or_create_limiter whole_numbers "alice:fixed_window" hundred idle
    ≡ (returns (ok (new_fixed_window hundred)), after_creation)
unfolding get_or_create_limiter Dict.lookup div64 new_limiter
created_limiter = refl

-- The limit of a thousand is never used.
get_or_create_limiter_stale_example :
    get_or_create_limiter whole_numbers "alice:fixed_window" thousand after_creation
    ≡ (returns (ok (new_fixed_window hundred)), after_creation)
get_or_create_limiter_stale_example =
    get_or_create_limiter_stale whole_numbers "alice:fixed_window" hundred thousand
      (new_fixed_window hundred) idle after_creation created_limiter

get_config-set_config_example :
    let after = (set_config whole_numbers table stopped_clock codecs "alice" hundred []).1 in
    ((set_config whole_numbers table stopped_clock codecs "alice" hundred []).0 ≡ returns (ok tt))
    × ((get_config whole_numbers table stopped_clock codecs "alice" after).0 ≡ returns (ok hundred))
    × ((j : String)
        → ("alice" == j) ≡ false
        → (get_config whole_numbers table stopped_clock codecs j after).0
          ≡ (get_config whole_numbers table stopped_clock codecs j []).0)
unfolding validate_config unix
get_config-set_config_example =
    get_config-set_config whole_numbers table stopped_clock codecs table-IsKeyValue "alice" hundred
      [] refl hundred-IsCodecAt created-IsCodecAt

abbrev fresh_world : World ℤ
fresh_world = record { clock = λ n. pos n; readings = 0; memory = new_memory_store }

set_config_expires_example :
    let after =
      (set_config whole_numbers
        (memory_store whole_numbers)
        world_clock
        codecs
        "alice"
        hundred
        fresh_world).1 in
    ((set_config whole_numbers
        (memory_store whole_numbers)
        world_clock
        codecs
        "alice"
        hundred
        fresh_world).0
      ≡ returns (ok tt))
    × ((get_config whole_numbers (memory_store whole_numbers) world_clock codecs "alice" after).0
        ≡ returns (err not_found))
unfolding validate_config unix
set_config_expires_example =
    set_config_expires whole_numbers codecs "alice" hundred fresh_world refl hundred-IsCodecAt
      created-IsCodecAt (omega arith) (omega arith)
