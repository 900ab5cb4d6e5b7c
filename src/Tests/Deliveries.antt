-- ===== src/Tests/Deliveries.antt =====
-- A heartbeat from its request to the batch that is delivered.
use mikrotik_cpe_cloud.Base.{
  ℕ, ◌≡◌, ◌≢◌, refl, ap, ◌∙◌, Bool, arith, List, [], ◌∷◌, ◌++◌, Option, none, some,
}
use mikrotik_cpe_cloud.Base.Text.{Text, codes, text_eq}
use mikrotik_cpe_cloud.Base.Result.{ok}
use mikrotik_cpe_cloud.Server.{Server, Response}
use mikrotik_cpe_cloud.Telemetry.Payload.{TelemetryHeartbeat}
use mikrotik_cpe_cloud.Telemetry.Validate.{validate_heartbeat}
use mikrotik_cpe_cloud.Telemetry.Push.{pushed, Passed, push_telemetry_writer}
use mikrotik_cpe_cloud.Telemetry.{push_telemetry, extract_bearer}
use mikrotik_cpe_cloud.Models.{Router}
use mikrotik_cpe_cloud.Influx.Write.{Written}
use mikrotik_cpe_cloud.Telemetry.Deliver.{
  write_heartbeat, telemetry_endpoint, heartbeat_points, heartbeat_delivered,
}
use mikrotik_cpe_cloud.Tests.Data.{hash, test_settings, at_time, peer, with_router}
use mikrotik_cpe_cloud.Tests.Heartbeats.{
  co, body, heartbeat, validated, truncate, read, show_value, fails,
}

abbrev pub bearer : Option Text
bearer = some (codes "bearer  telemetry-token-1 ")

has_token : test_settings.influx_token ≢ []
has_token h = ground (arith, h)

abbrev delivers : Response × Server
delivers =
    telemetry_endpoint hash co truncate read show_value (ok tt) fails test_settings 5 (at_time 1)
      (at_time 2) 300 peer bearer body with_router

abbrev keeps : Router → TelemetryHeartbeat → Bool → Written
keeps row hb client = record { result = ok tt; client = client; batches = [] }

passes :
    (pushed hash keeps (at_time 1) (at_time 2) 300 peer bearer heartbeat with_router).0.status_code
    ≡ 204
unfolding push_telemetry extract_bearer mikrotik_cpe_cloud.Base.Text.is_space text_eq
    mikrotik_cpe_cloud.RateLimit.check_rate_limit mikrotik_cpe_cloud.Tokens.find_valid_router_token
    mikrotik_cpe_cloud.Server.get_router
passes = refl

-- The answer does not depend on the writer.
delivers_once : delivers.0.status_code ≡ 204
unfolding telemetry_endpoint
delivers_once =
    let sends = write_heartbeat hash co truncate read show_value (ok tt) fails test_settings 5 in
    rw validated (
      ap (λ (r : Response). r.status_code)
        (push_telemetry_writer hash sends keeps (at_time 1) (at_time 2) 300 peer bearer heartbeat
          with_router).0
      ∙ passes)

heartbeat_delivered_example :
    (hb : TelemetryHeartbeat) × (validate_heartbeat co body ≡ ok hb)
    × (passed : Passed hash
        (write_heartbeat hash co truncate read show_value (ok tt) fails test_settings 5)
        (at_time 1)
        (at_time 2)
        300
        peer
        bearer
        hb
        with_router)
    × (delivers.1.delivered
        ≡ with_router.delivered
          ++ heartbeat_points hash co truncate read show_value
              (ok tt)
              fails
              test_settings
              5
              (record passed.row { last_seen_at = some 300 })
              hb
            ∷ [])
heartbeat_delivered_example =
    heartbeat_delivered hash co truncate read show_value (ok tt) fails test_settings 5 (at_time 1)
      (at_time 2) 300 peer bearer body with_router has_token refl delivers_once
