-- ===== src/Telemetry/Deliver.antt =====
-- The heartbeat endpoint of app/routers/telemetry.py with the models of its payload and the writer of
-- app/services/influx.py.
use mikrotik_cpe_cloud.Base.{
  ℕ, ◌≡◌, ◌≢◌, refl, ap, ◌∙◌, Bool, List, [], ◌∷◌, ◌++◌, Option, some, arith,
}
use mikrotik_cpe_cloud.Base.Text.{Text, codes}
use mikrotik_cpe_cloud.Base.Int.{ℤ, pos}
use mikrotik_cpe_cloud.Base.Decimal.{str}
use mikrotik_cpe_cloud.Base.Result.{Result, ok, err, ◌>>=◌}
use mikrotik_cpe_cloud.Models.{Router}
use mikrotik_cpe_cloud.Config.{Settings}
use mikrotik_cpe_cloud.Influx.Value.{Real, Value, Entries}
use mikrotik_cpe_cloud.Influx.Uptime.{parse_uptime}
use mikrotik_cpe_cloud.Influx.Point.{Point, int_field, or_unknown, build_interface_points}
use mikrotik_cpe_cloud.Influx.Write.{
  Written, get_client, extract_uptime_string, records, write_telemetry,
}
use mikrotik_cpe_cloud.Server.{Server, Response, Readings}
use mikrotik_cpe_cloud.Telemetry.{push_telemetry}
use mikrotik_cpe_cloud.Telemetry.Payload.{Coercions, TelemetryHeartbeat}
use mikrotik_cpe_cloud.Telemetry.Validate.{validate_heartbeat}
use mikrotik_cpe_cloud.Telemetry.Dump.{model_dump}
use mikrotik_cpe_cloud.Telemetry.Sent.{sent_system, sent_points}
use mikrotik_cpe_cloud.Telemetry.Series.{
  build_system_point-model_dump, build_interface_points-model_dump,
}
use mikrotik_cpe_cloud.Telemetry.Push.{Passed, push_telemetry_passed}

module _ (sha256 : Text → Text) (co : Coercions) (truncate : Real → ℤ) (read : Text → Option Real)
    (show_value : Value → Text) (connect : Result (Unit {0}))
    (write : List Point → Result (Unit {0})) (settings : Settings) (ts : ℕ) where
  -- `await write_telemetry(router_row, payload.model_dump())`, with the clock of the writer.
  abbrev pub write_heartbeat : Router → TelemetryHeartbeat → Bool → Written
  write_heartbeat row hb client =
      write_telemetry truncate read show_value connect write settings row (model_dump hb) ts client

  -- After the validation; the framework answers 422 where the body does not validate.
  abbrev pub answer :
      Readings
      → Readings
      → ℕ
      → Option Text
      → Option Text
      → Server
      → Result TelemetryHeartbeat
      → Response × Server
  answer ip_readings router_readings now client authorization s (err e) =
      (record { status_code = 422; body = [] }, s)
  answer ip_readings router_readings now client authorization s (ok hb) =
      push_telemetry sha256 write_heartbeat ip_readings router_readings now client authorization hb
        s

  -- `POST /api/v1/telemetry`
  unfoldable pub telemetry_endpoint :
      Readings → Readings → ℕ → Option Text → Option Text → Entries → Server → Response × Server
  telemetry_endpoint ip_readings router_readings now client authorization body s =
      answer ip_readings router_readings now client authorization s (validate_heartbeat co body)

  abbrev pub system_point : Router → TelemetryHeartbeat → Point
  system_point row hb = record {
    measurement = codes "system";
    tags =
        (codes "router_id", str row.id)
        ∷ (codes "model", or_unknown row.model)
        ∷ (codes "wifi_stack", or_unknown row.wifi_stack)
        ∷ [];
    fields =
        (
          codes "uptime_sec",
          int_field (
              pos (
                parse_uptime (
                  extract_uptime_string truncate read show_value connect write settings
                    (model_dump hb)))),
        )
        ∷ sent_system hb.system;
    time = ts;
  }

  -- The points of a heartbeat: the system point, and the interface points.
  abbrev pub heartbeat_points : Router → TelemetryHeartbeat → List Point
  heartbeat_points row hb = system_point row hb ∷ sent_points row ts hb

  records-heartbeat :
      (row : Router) (hb : TelemetryHeartbeat)
      → records truncate read show_value connect write settings row (model_dump hb) ts
        ≡ ok (heartbeat_points row hb)
  unfolding records
  records-heartbeat row hb =
      ap (λ r. r >>= (λ p. ok (p ∷ build_interface_points truncate read row (model_dump hb) ts)))
        (build_system_point-model_dump row ts truncate read
          (parse_uptime
            (extract_uptime_string truncate read show_value connect write settings (model_dump hb)))
          hb)
      ∙ ap (λ ps. ok (system_point row hb ∷ ps))
          (build_interface_points-model_dump row ts truncate read hb)

  -- With a client, or a token and a connection for one, the records are delivered as one batch.
  write_telemetry-batches :
      (row : Router) (payload : Entries) (client : Bool) (batch : List Point)
      → settings.influx_token ≢ []
      → connect ≡ ok tt
      → records truncate read show_value connect write settings row payload ts ≡ ok batch
      → (write_telemetry truncate read show_value connect write settings row payload ts
          client).batches
        ≡ batch ∷ []
  unfolding write_telemetry get_client
  write_telemetry-batches row payload client batch configured connected e = ground arith

  -- A heartbeat that is answered with 204, where the settings have a token for the time series and its
  -- client can be made: its body has validated, it carries a valid telemetry token, and exactly one
  -- batch is delivered, with the system point of that router and the metrics that the heartbeat
  -- sends, and a point for each interface with metrics.
  pub heartbeat_delivered :
      (ip_readings router_readings : Readings) (now : ℕ) (client authorization : Option Text)
      (body : Entries) (s : Server)
      → settings.influx_token ≢ []
      → connect ≡ ok tt
      → (telemetry_endpoint ip_readings router_readings now client authorization body
          s).0.status_code
        ≡ 204
      → (hb : TelemetryHeartbeat) × (validate_heartbeat co body ≡ ok hb)
        × (passed : Passed sha256 write_heartbeat ip_readings router_readings now client
            authorization hb s)
        × ((telemetry_endpoint ip_readings router_readings now client authorization body
              s).1.delivered
            ≡ s.delivered
              ++ heartbeat_points (record passed.row { last_seen_at = some now }) hb ∷ [])
  unfolding telemetry_endpoint
  heartbeat_delivered i r now client authorization body s configured connected h =
      go (validate_heartbeat co body) refl h
    where
      go :
          (v : Result TelemetryHeartbeat)
          → validate_heartbeat co body ≡ v
          → (answer i r now client authorization s v).0.status_code ≡ 204
          → (hb : TelemetryHeartbeat) × (validate_heartbeat co body ≡ ok hb)
            × (passed : Passed sha256 write_heartbeat i r now client authorization hb s)
            × ((telemetry_endpoint i r now client authorization body s).1.delivered
                ≡ s.delivered
                  ++ heartbeat_points (record passed.row { last_seen_at = some now }) hb ∷ [])
      go (err e) v h = absurd (omega arith)
      go (ok hb) v h =
          let P =
            push_telemetry_passed sha256 write_heartbeat i r now client authorization hb s h in
          let row = record P.row { last_seen_at = some now } in
          (
            hb,
            v,
            P,
            ap (λ w. (answer i r now client authorization s w).1.delivered) v
                ∙ P.delivered_after
                ∙ ap (λ bs. s.delivered ++ bs)
                    (write_telemetry-batches row (model_dump hb) s.client (heartbeat_points row hb)
                      configured connected (records-heartbeat row hb)),
          )
