-- ===== src/Service/RateLimit/Tests.antt =====
-- Runs of the operations of the service.
use throttle.Prelude.{ℕ, ◌≤◌, ◌<◌, ◌+◌, ◌*◌, ◌^◌, String, ◌≡◌, refl, false, ◌==◌, [], ◌∷◌, arith}
use throttle.Int.{ℤ, pos, ◌≤ℤ◌}
use throttle.Exec.{message, not_found, ok, err, returns, panics}
use throttle.Time.{Clock, unix}
use throttle.Float64.Whole.{whole_numbers}
use throttle.Storage.{Store}
use throttle.Dict
use throttle.Service.Config.{RateLimitConfig}
use throttle.Service.Limiters.{Limiter, new_leaky_bucket, new_fixed_window, Service, config_key}
use throttle.Service.Samples.{
  hundred, hundred-IsValid, codecs, Table, table, stopped_clock, table-IsKeyValue,
}
use throttle.Service.RateLimit.{
  as_rate_limiter, get_config, reset_limit, calculate_reset_at, calculate_retry_after,
}
use throttle.Service.RateLimit.FailOpen.{FailsOpen, allow_WritesFail}
use throttle.Service.RateLimit.Windows.{calculate_reset_at-bounds, calculate_retry_after-positive}
use throttle.Service.RateLimit.Resets.{reset_limit-get_config}
use throttle.Service.RateLimit.Overflow.{leaky_panics}

-- A store that is down, and one that has run out of room.
abbrev down : Store ℤ Table
down = record table { get = λ k w. (returns (err (message "down")), w) }

abbrev out_of_room : Store ℤ Table
out_of_room = record table { set = λ k v d w. (returns (err (message "out of room")), w) }

abbrev leaky_hundred : Limiter ℤ
leaky_hundred = new_leaky_bucket hundred (pos 1)

allow_WritesFail_example :
    FailsOpen whole_numbers out_of_room stopped_clock codecs (new_fixed_window hundred) "alice" []
allow_WritesFail_example =
    allow_WritesFail whole_numbers out_of_room stopped_clock codecs
      (record { reads = λ k w. (_, refl); writes = λ k v d w. (message "out of room", refl) })
      (new_fixed_window hundred) "alice" [] tt

-- 125 seconds after the epoch.
abbrev at_125 : Clock Table
at_125 = record { read = λ w. (pos 125000000007, w) }

calculate_reset_at-bounds_example :
    (reset_at : ℕ) × ((calculate_reset_at whole_numbers table at_125 codecs hundred []).0
      ≡ returns (pos reset_at))
    × (125 < reset_at)
    × (reset_at ≤ 125 + 60)
    × ((windows : ℕ) × (reset_at ≡ windows * 60))
unfolding unix
calculate_reset_at-bounds_example =
    calculate_reset_at-bounds whole_numbers table at_125 codecs hundred [] 125 59 refl refl
      (omega arith)

calculate_retry_after-positive_example :
    (retry_after : ℤ) × ((calculate_retry_after whole_numbers table at_125 codecs hundred []).0
      ≡ returns retry_after)
    × (pos 1 ≤ℤ retry_after)
calculate_retry_after-positive_example =
    calculate_retry_after-positive whole_numbers table at_125 codecs hundred [] (omega arith)

abbrev configured : Service ℤ Table
configured = record { limiters = []; world = (config_key "alice", "{hundred}") ∷ [] }

configured-found :
    (get_config whole_numbers table stopped_clock codecs "alice" configured.world).0
    ≡ returns (ok hundred)
unfolding get_config config_key Dict.lookup
configured-found = refl

reset_limit-get_config_example :
    let after = (reset_limit whole_numbers table stopped_clock codecs "alice" configured).1.world in
    ((reset_limit whole_numbers table stopped_clock codecs "alice" configured).0 ≡ returns (ok tt))
    × ((get_config whole_numbers table stopped_clock codecs "alice" after).0
        ≡ returns (err not_found))
    × ((j : String)
        → ("alice" == j) ≡ false
        → (get_config whole_numbers table stopped_clock codecs j after).0
          ≡ (get_config whole_numbers table stopped_clock codecs j configured.world).0)
reset_limit-get_config_example =
    reset_limit-get_config whole_numbers table stopped_clock codecs table-IsKeyValue "alice" hundred
      configured configured-found hundred-IsValid

abbrev for_ages : RateLimitConfig
for_ages = record hundred { algorithm = "leaky_bucket"; window_seconds = pos (2 ^ 55) }

leaky_panics_example :
    ((as_rate_limiter whole_numbers table stopped_clock codecs
        (new_leaky_bucket for_ages (pos 1))).allow
      "alice" []).0
    ≡ panics
unfolding Dict.lookup
leaky_panics_example =
    leaky_panics whole_numbers table stopped_clock codecs for_ages (pos 1) 1 "alice" "" [] refl refl
