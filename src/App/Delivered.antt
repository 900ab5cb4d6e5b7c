-- ===== src/App/Delivered.antt =====
-- What the requests of app/main.py have delivered to the time series.
use mikrotik_cpe_cloud.Base.{
  ℕ, ◌≡◌, refl, subst, sym, ◌⊎◌, inl, inr, Bool, false, List, [], ◌∷◌, Option, arith, All,
  All-append,
}
use mikrotik_cpe_cloud.Base.Text.{Text}
use mikrotik_cpe_cloud.Base.Int.{ℤ}
use mikrotik_cpe_cloud.Base.Result.{Exn, Result, ok, err}
use mikrotik_cpe_cloud.Models.{Router}
use mikrotik_cpe_cloud.Config.{Settings}
use mikrotik_cpe_cloud.Influx.Value.{Real, Value, Entries}
use mikrotik_cpe_cloud.Influx.Point.{Point}
use mikrotik_cpe_cloud.Influx.Write.{get_client, close_client, records, write_telemetry}
use mikrotik_cpe_cloud.Server.{Server, Response, Readings}
use mikrotik_cpe_cloud.AutoEnroll.Request.{AutoEnrollRequest}
use mikrotik_cpe_cloud.AutoEnroll.Flush.{Surroundings, Provision}
use mikrotik_cpe_cloud.AutoEnroll.{auto_enroll}
use mikrotik_cpe_cloud.Factory.{Installer, Times, factory_installer}
use mikrotik_cpe_cloud.Telemetry.Payload.{Coercions, TelemetryHeartbeat}
use mikrotik_cpe_cloud.Telemetry.Validate.{validate_heartbeat}
use mikrotik_cpe_cloud.Telemetry.Dump.{model_dump}
use mikrotik_cpe_cloud.Telemetry.Bounds.{PointsInBounds, records-InBounds}
use mikrotik_cpe_cloud.Telemetry.Push.{pushed_delivered}
use mikrotik_cpe_cloud.Telemetry.Deliver.{write_heartbeat, answer, telemetry_endpoint}
use mikrotik_cpe_cloud.App.{
  Call, healthz_call, readyz_call, enroll_call, factory_call, auto_enroll_call, telemetry_call,
  handle, serve, lifespan,
}

module _ (sha256 : Text → Text) (storable : Router → Bool) (describe : Exn → Text)
    (render : Provision → Text) (render_installer : Installer → Text) (settings : Settings) where
  factory_delivered :
      (readings : Readings) (times : Times) (client : Option Text) (t : Text) (s : Server)
      → (factory_installer sha256 render_installer settings readings times client t s).1.delivered
        ≡ s.delivered
  unfolding factory_installer
  factory_delivered readings times client t s = ground arith

  enroll_delivered :
      (around : Surroundings) (client : Option Text) (payload : AutoEnrollRequest)
      (header : Option Text) (s : Server)
      → (auto_enroll sha256 storable describe render settings around client payload header
          s).1.delivered
        ≡ s.delivered
  unfolding auto_enroll
  enroll_delivered around client payload header s = ground arith

module _ (co : Coercions) where
  abbrev pub BatchesInBounds : List (List Point) → Type 0
  BatchesInBounds = All (PointsInBounds co)

  module _ (truncate : Real → ℤ) (read : Text → Option Real) (show_value : Value → Text)
      (connect : Result (Unit {0})) (write : List Point → Result (Unit {0})) (settings : Settings)
      (row : Router) (ts : ℕ) (client : Bool) where
    one_batch :
        (payload : Entries) (points : List Point)
        → records truncate read show_value connect write settings row payload ts ≡ ok points
        → let batches =
            (write_telemetry truncate read show_value connect write settings row payload ts
              client).batches in
          (batches ≡ []) ⊎ (batches ≡ points ∷ [])
    unfolding write_telemetry get_client
    one_batch payload points e = ground arith

    -- The batches of one call of the writer, for a heartbeat that the validation returns.
    batches-InBounds :
        (es : Entries) (hb : TelemetryHeartbeat)
        → validate_heartbeat co es ≡ ok hb
        → BatchesInBounds
            (write_telemetry truncate read show_value connect write settings row
              (model_dump hb)
              ts
              client).batches
    batches-InBounds es hb e =
        let (points, made, inside) =
          records-InBounds co row ts truncate read show_value connect write settings es hb e in
        elim (one_batch (model_dump hb) points made) [
          | inl none_sent ↦ subst BatchesInBounds (sym none_sent) tt
          | inr one_sent ↦ subst BatchesInBounds (sym one_sent) (inside, tt)
        ]

module _ (sha256 : Text → Text) (co : Coercions) (truncate : Real → ℤ) (read : Text → Option Real)
    (show_value : Value → Text) (storable : Router → Bool) (describe : Exn → Text)
    (render : Provision → Text) (render_installer : Installer → Text) (settings : Settings) where
  abbrev handled : Call → Server → Response × Server
  handled =
      handle sha256 co truncate read show_value storable describe render render_installer settings

  answer-InBounds :
      (i r : Readings) (now : ℕ) (client authorization : Option Text) (body : Entries)
      (connect : Result (Unit {0})) (write : List Point → Result (Unit {0})) (ts : ℕ) (s : Server)
      → BatchesInBounds co s.delivered
      → (v : Result TelemetryHeartbeat) → validate_heartbeat co body ≡ v
      → BatchesInBounds co
          (answer sha256 co truncate read show_value connect write settings ts i r now client
            authorization s v).1.delivered
  answer-InBounds i r now client authorization body connect write ts s inside (err e) v = inside
  answer-InBounds i r now client authorization body connect write ts s inside (ok hb) v =
      elim (pushed_delivered sha256
        (write_heartbeat sha256 co truncate read show_value connect write settings ts) i r now
        client authorization hb s) [
          | inl same ↦ subst (BatchesInBounds co) (sym same) inside
          | inr (row, more) ↦ subst (BatchesInBounds co) (sym more) (
              All-append (PointsInBounds co) s.delivered _ inside (
                batches-InBounds co truncate read show_value connect write settings row ts s.client
                  body hb v))
        ]

  handle-InBounds :
      (call : Call) (s : Server)
      → BatchesInBounds co s.delivered
      → BatchesInBounds co (handled call s).1.delivered
  unfolding handle telemetry_endpoint
  handle-InBounds healthz_call s inside = inside
  handle-InBounds readyz_call s inside = inside
  handle-InBounds enroll_call s inside = inside
  handle-InBounds (factory_call readings times client t) s inside =
      subst (BatchesInBounds co)
        (sym (
          factory_delivered sha256 storable describe render render_installer settings readings times
            client t s))
        inside
  handle-InBounds (auto_enroll_call around client payload header) s inside =
      subst (BatchesInBounds co)
        (sym (
          enroll_delivered sha256 storable describe render render_installer settings around client
            payload header s))
        inside
  handle-InBounds (telemetry_call i r now client authorization body connect write ts) s inside =
      answer-InBounds i r now client authorization body connect write ts s inside
        (validate_heartbeat co body) refl

  serve-InBounds :
      (calls : List Call) (s : Server)
      → BatchesInBounds co s.delivered
      → BatchesInBounds co
          (serve sha256 co truncate read show_value storable describe render render_installer
            settings calls s).1.delivered
  unfolding serve
  serve-InBounds [] s inside = inside
  serve-InBounds (call ∷ calls) s inside =
      serve-InBounds calls (handled call s).1 (handle-InBounds call s inside)

  closes : (closed : Result (Unit {0})) (client : Bool) → (close_client closed client).1 ≡ false
  unfolding close_client
  closes closed client = ground arith

  -- Whatever requests an application answers between its start and its end, and whether or not closing
  -- the client raises: at the end it has no client, and each batch that it has delivered has its
  -- metrics within the bounds of the heartbeat's models.
  pub lifespan-InBounds :
      (closed : Result (Unit {0})) (calls : List Call) (s : Server)
      → let ended =
          (lifespan sha256 co truncate read show_value storable describe render render_installer
            settings closed calls s).1 in
        (ended.client ≡ false) × BatchesInBounds co ended.delivered
  unfolding lifespan
  lifespan-InBounds closed calls s =
      let started = record s { client = false; delivered = [] } in
      (
        closes closed
            (serve sha256 co truncate read show_value storable describe render render_installer
              settings calls started).1.client,
        serve-InBounds calls started tt,
      )
