-- ===== src/App.antt =====
-- app/main.py with app/routers/health.py and app/routers/enrollment.py: the requests that the
-- application answers, one after another, from its start to its end.
pub mod Lifetime
pub mod Delivered
pub mod Authority
use mikrotik_cpe_cloud.Base.{ℕ, Bool, false, List, [], ◌∷◌, Option}
use mikrotik_cpe_cloud.Base.Text.{Text, codes}
use mikrotik_cpe_cloud.Base.Int.{ℤ}
use mikrotik_cpe_cloud.Base.Result.{Exn, Result}
use mikrotik_cpe_cloud.Models.{Router}
use mikrotik_cpe_cloud.Config.{Settings}
use mikrotik_cpe_cloud.Influx.Value.{Real, Value, Entries}
use mikrotik_cpe_cloud.Influx.Point.{Point}
use mikrotik_cpe_cloud.Influx.Write.{close_client}
use mikrotik_cpe_cloud.Server.{Server, Response, Readings}
use mikrotik_cpe_cloud.AutoEnroll.Request.{AutoEnrollRequest}
use mikrotik_cpe_cloud.AutoEnroll.Flush.{Surroundings, Provision}
use mikrotik_cpe_cloud.AutoEnroll.{auto_enroll}
use mikrotik_cpe_cloud.Factory.{Installer, Times, factory_installer}
use mikrotik_cpe_cloud.Telemetry.{reject}
use mikrotik_cpe_cloud.Telemetry.Payload.{Coercions}
use mikrotik_cpe_cloud.Telemetry.Deliver.{telemetry_endpoint}

-- A request to a route of the application, with what its handler reads from outside.
pub data Call : Type 0 where
  healthz_call readyz_call enroll_call : Call
  factory_call : (readings : Readings) (times : Times) (client : Option Text) (t : Text) → Call
  auto_enroll_call :
      (around : Surroundings) (client : Option Text) (payload : AutoEnrollRequest)
      (header : Option Text)
      → Call
  telemetry_call :
      (ip_readings router_readings : Readings) (now : ℕ) (client authorization : Option Text)
      (body : Entries) (connect : Result (Unit {0})) (write : List Point → Result (Unit {0}))
      (ts : ℕ)
      → Call

-- `healthz`: the body is the text under `status`.
unfoldable pub healthz : Response
healthz = record { status_code = 200; body = codes "ok" }

-- `readyz`
unfoldable pub readyz : Response
readyz = record { status_code = 200; body = codes "ok" }

-- `enroll`
unfoldable pub enroll : Response
enroll = reject 501 "Manual enrollment not yet implemented — see deliverable #6"

module _ (sha256 : Text → Text) (co : Coercions) (truncate : Real → ℤ) (read : Text → Option Real)
    (show_value : Value → Text) (storable : Router → Bool) (describe : Exn → Text)
    (render : Provision → Text) (render_installer : Installer → Text) (settings : Settings) where
  -- The handlers of the routers that `create_app` includes.
  unfoldable pub handle : Call → Server → Response × Server
  handle healthz_call s = (healthz, s)
  handle readyz_call s = (readyz, s)
  handle (factory_call readings times client t) s =
      factory_installer sha256 render_installer settings readings times client t s
  handle enroll_call s = (enroll, s)
  handle (auto_enroll_call around client payload header) s =
      auto_enroll sha256 storable describe render settings around client payload header s
  handle (telemetry_call ip_readings router_readings now client authorization body connect write ts)
        s =
      telemetry_endpoint sha256 co truncate read show_value connect write settings ts ip_readings
        router_readings now client authorization body s

  -- The application between its start and its end.
  unfoldable pub serve : List Call → Server → List Response × Server
  unfolding handle
  serve [] s = ([], s)
  serve (call ∷ calls) s =
      let (response, s') = handle call s in
      let (responses, s'') = serve calls s' in (response ∷ responses, s'')

  -- `lifespan`: the client is there on demand, and closed at the end; `closed` is what closing it
  -- does.
  unfoldable pub lifespan : Result (Unit {0}) → List Call → Server → List Response × Server
  unfolding serve close_client
  lifespan closed calls s =
      let (responses, s') = serve calls (record s { client = false; delivered = [] }) in
      (responses, record s' { client = (close_client closed s'.client).1 })
