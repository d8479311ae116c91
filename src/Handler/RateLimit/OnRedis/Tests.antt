-- ===== src/Handler/RateLimit/OnRedis/Tests.antt =====
-- A run of requests over a server with expirations.
use throttle.Prelude.{ℕ, ◌≡◌, refl, List, [], ◌∷◌, Option, none, some, arith, eq_iff}
use throttle.Codec.{IsCodecAt}
use throttle.Codec.Marks.{marks_codec, marks-IsCodecAt}
use throttle.Storage.Redis.{redis_store}
use throttle.Storage.Redis.Expiring.{redis-IsExpiring}
use throttle.Storage.Redis.Samples.{Server, server_client, server_clock, server-IsExpiringServer}
use throttle.Limiter.FixedWindow
use throttle.Limiter.FixedWindow.{FixedWindowState}
use throttle.Service.RateLimit.Checks.{IsFixedWindow}
use throttle.Handler.RateLimit.Requests.{
  Call, own, other, own_checks, setting, checking, asking, resetting, serve, AreOthers,
}
use throttle.Handler.RateLimit.Answers.{
  status_code, set_request, statuses, promised, AnsweredBefore,
}
use throttle.Handler.RateLimit.OnRedis.{statuses-set_redis}
use throttle.Int.{ℤ, pos, ◌+ℤ◌, ◌-ℤ◌, ◌*ℤ◌}
use throttle.Int64.{IsInt64, add64, mul64, div64, wrap64}
use throttle.Time.{second, unix, unix_nano, time_sub, saturate}
use throttle.Limiter.FixedWindow.{allow, load, roll, admit, expiration_after, state_key}
use throttle.Service.Limiters.{
  get_or_create_limiter, new_limiter, calculate_remaining, config_key, metadata_key, limiter_key,
}
use throttle.Service.RateLimit.{
  get_status, reset_limit, parse_metadata, set_config, get_config, check_limit, as_rate_limiter,
  respond, calculate_reset_at, calculate_retry_after, next_window_start,
}
use throttle.Handler.RateLimit.{check_response}
use throttle.Exec.{ok}
use throttle.Float64.Whole.{whole_numbers}
use throttle.Dict
use throttle.Service.Config.{RateLimitConfig, validate_config}
use throttle.Service.Limiters.{new_rate_limit_service, Service, Codecs, window_duration}
use throttle.Service.Samples.{only, created-IsCodecAt, hundred, codecs}
use throttle.Handler.RateLimit.{set, check, status, reset_handler}

abbrev twice : RateLimitConfig
twice = record hundred { limit = pos 2 }

abbrev state_numbers : FixedWindowState → List ℤ
state_numbers s = s.count ∷ s.window_end ∷ []

abbrev from_numbers : List ℤ → FixedWindowState
from_numbers (count ∷ window_end ∷ _) = record { count = count; window_end = window_end }
from_numbers _ = record { count = pos 0; window_end = pos 0 }

abbrev twice_codecs : Codecs ℤ
twice_codecs = record codecs {
  configs = only "{twice}" twice;
  fixed_states = marks_codec state_numbers from_numbers;
}

twice-IsCodecAt : IsCodecAt twice_codecs.configs twice
twice-IsCodecAt = record {
  text = "{twice}";
  marshals = refl;
  nonempty = λ e. ground (arith, e, eq_iff "{twice}" "");
  unmarshals = refl;
}

states-IsCodecAt : (s : FixedWindowState) → IsCodecAt twice_codecs.fixed_states s
states-IsCodecAt = marks-IsCodecAt state_numbers from_numbers (λ s. refl)

twice-IsFixedWindow : IsFixedWindow 2 twice
twice-IsFixedWindow = record {
  algorithm = refl;
  positive = omega arith;
  limit = refl;
  small = omega arith;
}

abbrev quiet : Service ℤ Server
quiet = new_rate_limit_service (record { time = 5; entries = [] })

abbrev twice_set : Service ℤ Server
twice_set =
    (set whole_numbers (redis_store server_client) server_clock twice_codecs
      (ok (record { key = "alice"; config = twice })) quiet).1

-- Three checks for alice, and between them requests for bob and for her status.
abbrev calls : List Call
calls =
    own
    ∷ other (setting (record { key = "bob"; config = twice }))
    ∷ other (checking (record { key = "bob"; algorithm = "" }))
    ∷ own
    ∷ other (asking "alice")
    ∷ other (asking "bob")
    ∷ other (resetting "bob")
    ∷ own
    ∷ []

abbrev alice_statuses : List Call → Service ℤ Server → List (Option ℕ)
alice_statuses =
    statuses whole_numbers (redis_store server_client) server_clock twice_codecs "alice"

statuses_test : alice_statuses calls twice_set ≡ some 200 ∷ some 200 ∷ some 429 ∷ []
unfolding statuses serve status reset_handler get_status reset_limit parse_metadata Dict.delete
    FixedWindow.reset set set_config validate_config check check_limit check_response unix unix_nano
    add64 mul64 div64 wrap64 ◌+ℤ◌ ◌*ℤ◌ ◌-ℤ◌ get_config get_or_create_limiter as_rate_limiter
    new_limiter allow load roll admit expiration_after time_sub saturate respond calculate_reset_at
    calculate_retry_after next_window_start calculate_remaining state_key config_key metadata_key
    limiter_key Dict.lookup Dict.insert
statuses_test = refl

answered_soon :
    AnsweredBefore whole_numbers
      (redis_store server_client)
      server_clock
      twice_codecs
      "alice"
      (redis-IsExpiring server-IsExpiringServer)
      (server-IsExpiringServer.now twice_set.world +ℤ window_duration twice)
      calls
      twice_set
unfolding redis-IsExpiring server-IsExpiringServer serve status reset_handler get_status reset_limit
    parse_metadata Dict.delete FixedWindow.reset set set_config validate_config check check_limit
    check_response unix unix_nano add64 mul64 div64 wrap64 ◌+ℤ◌ ◌*ℤ◌ ◌-ℤ◌ get_config
    get_or_create_limiter as_rate_limiter new_limiter allow load roll admit expiration_after
    time_sub saturate respond calculate_reset_at calculate_retry_after next_window_start
    calculate_remaining state_key config_key metadata_key limiter_key Dict.lookup Dict.insert
answered_soon = (omega arith, (omega arith, (omega arith, tt)))

twice-valid : validate_config twice ≡ ok tt
unfolding validate_config
twice-valid = refl

created_now : IsCodecAt twice_codecs.metadata (record {
  created_at = unix (server_clock.read quiet.world).0;
  updated_at = unix (server_clock.read quiet.world).0;
})
unfolding unix
created_now = created-IsCodecAt

others_only : AreOthers "alice" calls
others_only = (refl, (refl, (tt, (tt, (refl, tt)))))

twice_fits : IsInt64 (
    server-IsExpiringServer.now twice_set.world
    +ℤ window_duration twice
    +ℤ window_duration twice
    +ℤ second)
unfolding redis-IsExpiring server-IsExpiringServer set set_config validate_config unix mul64 wrap64
    ◌+ℤ◌ ◌*ℤ◌
twice_fits = ground arith

nothing_shown : (t : ℤ) → server-IsExpiringServer.held quiet.world (state_key "alice") t ≡ none
unfolding redis-IsExpiring server-IsExpiringServer Dict.lookup
nothing_shown t = refl

statuses-set_redis_example :
    (status_code
        (set_request whole_numbers
          (redis_store server_client)
          server_clock
          twice_codecs
          "alice"
          twice
          quiet).0
      ≡ some 201)
    × (alice_statuses calls twice_set ≡ promised 2 (own_checks calls))
unfolding Dict.lookup server-IsExpiringServer
statuses-set_redis_example =
    statuses-set_redis whole_numbers server_client server_clock twice_codecs server-IsExpiringServer
      "alice" twice 2 quiet calls states-IsCodecAt twice-IsCodecAt created_now twice-IsFixedWindow
      twice-valid refl (omega arith) nothing_shown refl twice_fits others_only answered_soon
