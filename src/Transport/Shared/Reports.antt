-- ===== src/Transport/Shared/Reports.antt =====
-- A configuration that is set over one transport and asked for over the other.
use throttle.Prelude.{String, ◌≡◌, refl, false, some, [], ◌∷◌, ◌==◌}
use throttle.Int.{ℤ}
use throttle.Exec.{ok, returns}
use throttle.Time.{Clock, unix}
use throttle.Float64.{Float64}
use throttle.Codec.{IsCodecAt}
use throttle.Storage.{Store}
use throttle.Storage.KeyValue.{IsKeyValue}
use throttle.Service.Config.{RateLimitConfig, validate_config}
use throttle.Service.Limiters.{Codecs, GetStatusResponse}
use throttle.Service.RateLimit.Configs.{set_config_lem}
use throttle.Service.RateLimit.Reports.{get_status_run}
use throttle.Handler.{Response, json_content}
use throttle.Handler.RateLimit.{Body, done, status_of, status_response}
use throttle.Handler.RateLimit as Http
use throttle.Transport.Grpc.{
  ProtoConfig, StatusResponse, proto_config_to_service, service_config_to_proto,
}
use throttle.Transport.Grpc
use throttle.Transport.Shared.{Servers, on_http, on_grpc}

-- The response of the status handler.
abbrev pub reported : String → GetStatusResponse → Response Body
reported key resp = record {
  status = 200;
  headers = json_content ∷ [];
  body = status_of (status_response key resp);
}

-- The answer of the method `Status`.
abbrev pub answered : String → GetStatusResponse → StatusResponse
answered key resp = record {
  key = key;
  algorithm = resp.config.algorithm;
  config = service_config_to_proto resp.config;
  created_at = resp.created_at;
  updated_at = resp.updated_at;
  next_reset = resp.next_reset;
}

module _ {F W : Type 0} (float : Float64 F) (store : Store F W) (clock : Clock W) (json : Codecs F)
    (kv : IsKeyValue store clock) (key : String) (s : Servers F W)
    (metadata_law : IsCodecAt json.metadata (record {
      created_at = unix (clock.read s.world).0;
      updated_at = unix (clock.read s.world).0;
    })) where
  -- Over a key-value store, for codecs that round-trip the configuration and its metadata: a valid
  -- configuration that is set for a key that is not empty over gRPC is reported for it over HTTP, with
  -- the status 200 and the time at which it was set.
  pub http_status-grpc_set :
      (pb_config : ProtoConfig)
      → (key == "") ≡ false
      → validate_config (proto_config_to_service pb_config) ≡ ok tt
      → IsCodecAt json.configs (proto_config_to_service pb_config)
      → let after =
          (on_grpc
            (Grpc.set float store clock json (record { key = key; config = some pb_config }))
            s).1 in
        (next_reset : ℤ) × ((on_http (Http.status float store clock json key) after).0
          ≡ returns (
              reported key (record {
                config = proto_config_to_service pb_config;
                created_at = unix (clock.read s.world).0;
                updated_at = unix (clock.read s.world).0;
                next_reset = next_reset;
              })))
  unfolding Grpc.set Http.status on_http on_grpc
  http_status-grpc_set pb_config named valid config_law =
      let cfg = proto_config_to_service pb_config in
      let (next_reset, e) =
        get_status_run float store clock json kv key cfg s.world valid config_law metadata_law in
      (
        next_reset,
        rw
            (
              set_config_lem float store clock json kv key cfg s.world valid config_law
                  metadata_law,
              named,
              e,
            )
            refl,
      )

  -- So is one that is set over HTTP, over gRPC, up to the narrowing of its fields to int32.
  pub grpc_status-http_set :
      (cfg : RateLimitConfig)
      → validate_config cfg ≡ ok tt
      → IsCodecAt json.configs cfg
      → let after =
          (on_http
            (Http.set float store clock json (ok (record { key = key; config = cfg })))
            s).1 in
        (next_reset : ℤ) × ((on_grpc (Grpc.status float store clock json key) after).0
          ≡ returns (
              ok (
                answered key (record {
                  config = cfg;
                  created_at = unix (clock.read s.world).0;
                  updated_at = unix (clock.read s.world).0;
                  next_reset = next_reset;
                }))))
  unfolding Http.set Grpc.status on_http on_grpc
  grpc_status-http_set cfg valid config_law =
      let (next_reset, e) =
        get_status_run float store clock json kv key cfg s.world valid config_law metadata_law in
      (
        next_reset,
        rw
            (
              set_config_lem float store clock json kv key cfg s.world valid config_law
                  metadata_law,
              e,
            )
            refl,
      )
