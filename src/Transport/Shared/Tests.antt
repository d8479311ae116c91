-- ===== src/Transport/Shared/Tests.antt =====
-- A configuration that goes over both transports.
use throttle.Prelude.{◌≡◌, refl, [], some}
use throttle.Int.{ℤ, pos}
use throttle.Exec.{ok, returns}
use throttle.Time.{unix}
use throttle.Float64.Whole.{whole_numbers}
use throttle.Service.Config.Validity.{validate_config_iff}
use throttle.Service.Samples.{
  hundred, hundred-IsValid, codecs, Table, table, stopped_clock, table-IsKeyValue,
  hundred-IsCodecAt, created-IsCodecAt,
}
use throttle.Handler.RateLimit as Http
use throttle.Transport.Grpc.{ProtoConfig, service_config_to_proto, proto_config_to_service}
use throttle.Transport.Grpc
use throttle.Transport.Shared.{Servers, on_http, on_grpc}
use throttle.Transport.Shared.Reports.{
  reported, answered, http_status-grpc_set, grpc_status-http_set,
}

abbrev idle : Servers ℤ Table
idle = record { http_limiters = []; grpc_limiters = []; world = [] }

abbrev message : ProtoConfig
message = record {
  algorithm = hundred.algorithm;
  limit = hundred.limit;
  window_seconds = hundred.window_seconds;
  refill_rate = hundred.refill_rate;
  refill_interval = hundred.refill_interval;
}

http_status-grpc_set_example :
    let after =
      (on_grpc
        (Grpc.set whole_numbers table stopped_clock codecs
          (record { key = "alice"; config = some message }))
        idle).1 in
    (next_reset : ℤ) × ((on_http
        (Http.status whole_numbers table stopped_clock codecs "alice")
        after).0
      ≡ returns (
          reported "alice" (record {
            config = proto_config_to_service message;
            created_at = pos 0;
            updated_at = pos 0;
            next_reset = next_reset;
          })))
unfolding unix proto_config_to_service
http_status-grpc_set_example =
    http_status-grpc_set whole_numbers table stopped_clock codecs table-IsKeyValue "alice" idle
      created-IsCodecAt message refl ((validate_config_iff hundred).1 hundred-IsValid)
      hundred-IsCodecAt

grpc_status-http_set_example :
    let after =
      (on_http
        (Http.set whole_numbers table stopped_clock codecs
          (ok (record { key = "alice"; config = hundred })))
        idle).1 in
    (next_reset : ℤ) × ((on_grpc
        (Grpc.status whole_numbers table stopped_clock codecs "alice")
        after).0
      ≡ returns (
          ok (
            answered "alice" (record {
              config = hundred;
              created_at = pos 0;
              updated_at = pos 0;
              next_reset = next_reset;
            }))))
unfolding unix
grpc_status-http_set_example =
    grpc_status-http_set whole_numbers table stopped_clock codecs table-IsKeyValue "alice" idle
      created-IsCodecAt hundred ((validate_config_iff hundred).1 hundred-IsValid) hundred-IsCodecAt
