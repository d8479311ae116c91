-- ===== src/Handler/RateLimit/Tests.antt =====
-- Runs of the handlers.
use throttle.Prelude.{◌≡◌, refl, []}
use throttle.Int.{ℤ, pos}
use throttle.Exec.{message, ok, returns}
use throttle.Float64.Whole.{whole_numbers}
use throttle.Dict
use throttle.Service.Config.{RateLimitConfig, validate_config}
use throttle.Service.Limiters.{Service}
use throttle.Service.Samples.{hundred, codecs, Table, table, stopped_clock, table-IsKeyValue}
use throttle.Handler.RateLimit.{write_error, fixed_error, set, check, status, reset_handler}
use throttle.Handler.RateLimit.Statuses.{not_configured, set_invalid, handlers_unknown}

abbrev idle : Service ℤ Table
idle = record { limiters = []; world = [] }

abbrev no_limit : RateLimitConfig
no_limit = record hundred { limit = pos 0 }

set_invalid_example :
    set whole_numbers table stopped_clock codecs
      (ok (record { key = "alice"; config = no_limit }))
      idle
    ≡ (returns (write_error 500 (fixed_error "failed to save configuration")), idle)
unfolding validate_config
set_invalid_example =
    set_invalid whole_numbers table stopped_clock codecs idle "alice" no_limit
      (message "limit must be greater than 0") refl

handlers_unknown_example :
    ((check whole_numbers table stopped_clock codecs
        (ok (record { key = "bob"; algorithm = "" }))
        idle).0
      ≡ returns not_configured)
    × ((status whole_numbers table stopped_clock codecs "bob" idle).0 ≡ returns not_configured)
    × ((reset_handler whole_numbers table stopped_clock codecs "bob" idle).0
        ≡ returns not_configured)
unfolding Dict.lookup table-IsKeyValue
handlers_unknown_example =
    handlers_unknown whole_numbers table stopped_clock codecs table-IsKeyValue idle "bob" "" refl
      refl
