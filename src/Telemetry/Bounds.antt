-- ===== src/Telemetry/Bounds.antt =====
-- The bounds that the models of app/routers/telemetry.py put on a heartbeat, in every point that
-- app/services/influx.py makes of it.
use mikrotik_cpe_cloud.Base.{
  ℕ, ◌≡◌, refl, ap, sym, subst, List, [], ◌∷◌, Option, none, some, All, All-append,
}
use mikrotik_cpe_cloud.Base.Text.{Text, text_eq}
use mikrotik_cpe_cloud.Base.Int.{ℤ}
use mikrotik_cpe_cloud.Base.Result.{Result, ok, ◌>>=◌}
use mikrotik_cpe_cloud.Models.{Router}
use mikrotik_cpe_cloud.Config.{Settings}
use mikrotik_cpe_cloud.Influx.Value.{Real, Value, Entries}
use mikrotik_cpe_cloud.Influx.Point.{
  PointFields, Point, build_interface_points, Kind, ethernet, wireless, wifi,
}
use mikrotik_cpe_cloud.Influx.Write.{extract_uptime_string, records}
use mikrotik_cpe_cloud.Influx.Uptime.{parse_uptime}
use mikrotik_cpe_cloud.Telemetry.Payload.{Coercions, TelemetrySystem, TelemetryHeartbeat}
use mikrotik_cpe_cloud.Telemetry.Validate.{validate_heartbeat}
use mikrotik_cpe_cloud.Telemetry.Dump.{model_dump}
use mikrotik_cpe_cloud.Telemetry.Sent.{
  sent_system, sent_ethernet, sent_wireless, sent_wifi, typed_point, kept, kept_points, kept_array,
  ethernet_point, wireless_point, wifi_point, sent_points,
}
use mikrotik_cpe_cloud.Telemetry.Series.{
  build_system_point-model_dump, build_interface_points-model_dump,
}
use mikrotik_cpe_cloud.Telemetry.Ranges.{returned, AllInBounds}
use mikrotik_cpe_cloud.Telemetry.Checked.{
  AllOf, OfSome, MetricsInBounds, validate_heartbeat-Returns,
}

module _ (co : Coercions) where
  -- Every field of a point is in its range.
  abbrev pub PointsInBounds : List Point → Type 0
  PointsInBounds = All (λ p. AllInBounds co p.fields)

  module _ (router : Router) (ts : ℕ) where
    typed_point-OfSome :
        (kind : Kind) (name : Text) (fs : PointFields)
        → AllInBounds co fs
        → OfSome (λ p. AllInBounds co p.fields) (typed_point router ts kind name fs)
    typed_point-OfSome kind [] fs h = tt
    typed_point-OfSome kind (c ∷ name) [] h = tt
    typed_point-OfSome kind (c ∷ name) (f ∷ fs) h = h

    kept-InBounds :
        (o : Option Point) (points : List Point)
        → OfSome (λ p. AllInBounds co p.fields) o
        → PointsInBounds points
        → PointsInBounds (kept router ts o points)
    kept-InBounds none points h hs = hs
    kept-InBounds (some p) points h hs = (h, hs)

    kept_points-InBounds :
        {A : Type 0} (P : A → Type 0) (point : A → Option Point)
        → ((a : A) → P a → OfSome (λ p. AllInBounds co p.fields) (point a))
        → (xs : List A) → All P xs
        → PointsInBounds (kept_points router ts point xs)
    kept_points-InBounds P point f [] h = tt
    kept_points-InBounds P point f (x ∷ xs) (h, hs) =
        kept-InBounds (point x) _ (f x h) (kept_points-InBounds P point f xs hs)

    kept_array-InBounds :
        {A : Type 0} (P : A → Type 0) (point : A → Option Point)
        → ((a : A) → P a → OfSome (λ p. AllInBounds co p.fields) (point a))
        → (o : Option (List A)) → AllOf P o
        → PointsInBounds (kept_array router ts point o)
    kept_array-InBounds P point f none h = tt
    kept_array-InBounds P point f (some xs) h = kept_points-InBounds P point f xs h

    sent_points-InBounds :
        (hb : TelemetryHeartbeat)
        → MetricsInBounds co hb
        → PointsInBounds (sent_points router ts hb)
    sent_points-InBounds hb (p, q, r, s) =
        All-append (λ p. AllInBounds co p.fields)
          (kept_array router ts (ethernet_point router ts) hb.ethernet) _
          (kept_array-InBounds _ (ethernet_point router ts)
            (λ i. typed_point-OfSome ethernet i.name (sent_ethernet i)) hb.ethernet q)
          (All-append (λ p. AllInBounds co p.fields)
            (kept_array router ts (wireless_point router ts) hb.wireless_interfaces) _
            (kept_array-InBounds _ (wireless_point router ts)
              (λ i. typed_point-OfSome wireless i.name (sent_wireless i)) hb.wireless_interfaces r)
            (kept_array-InBounds _ (wifi_point router ts)
              (λ i. typed_point-OfSome wifi i.name (sent_wifi i)) hb.wifi_interfaces s))

    system_fields-InBounds :
        (o : Option TelemetrySystem)
        → OfSome (λ s. AllInBounds co (sent_system (some s))) o
        → AllInBounds co (sent_system o)
    system_fields-InBounds none h = tt
    system_fields-InBounds (some s) h = h

    module _ (truncate : Real → ℤ) (read : Text → Option Real) (show_value : Value → Text)
        (connect : Result (Unit {0})) (write : List Point → Result (Unit {0}))
        (settings : Settings) where
      -- For a heartbeat that the validation returns, the points for the time series are made without
      -- an error, and in each of them the load is at most 100, the frequency at most 8000, no
      -- counter is negative, the temperature and the voltage are in their ranges, and the texts have
      -- at most the lengths that the models state.
      pub records-InBounds :
          (es : Entries) (hb : TelemetryHeartbeat)
          → validate_heartbeat co es ≡ ok hb
          → (points : List Point) × (records truncate read show_value connect write settings router
                (model_dump hb)
                ts
              ≡ ok points)
            × PointsInBounds points
      unfolding records text_eq
      records-InBounds es hb e =
          let inside : MetricsInBounds co hb =
            returned (MetricsInBounds co) (validate_heartbeat co es) hb e
              (validate_heartbeat-Returns co es) in
          (
            _,
            ap
                (λ r. r >>= (λ p.
                  ok (p ∷ build_interface_points truncate read router (model_dump hb) ts)))
                (build_system_point-model_dump router ts truncate read
                  (parse_uptime (
                    extract_uptime_string truncate read show_value connect write settings
                      (model_dump hb)))
                  hb),
            (
              (refl, system_fields-InBounds hb.system inside.0),
              subst PointsInBounds
                  (sym (build_interface_points-model_dump router ts truncate read hb))
                  (sent_points-InBounds hb inside),
            ),
          )
