-- ===== src/App/Lifetime.antt =====
-- The life of the application of app/main.py: the states that its requests lead to, and what it has
-- delivered at the end.
use mikrotik_cpe_cloud.Base.{Bool, List, Option}
use mikrotik_cpe_cloud.Base.Text.{Text}
use mikrotik_cpe_cloud.Base.Int.{ℤ}
use mikrotik_cpe_cloud.Base.Result.{Exn, Result}
use mikrotik_cpe_cloud.Models.{Router}
use mikrotik_cpe_cloud.Config.{Settings}
use mikrotik_cpe_cloud.Influx.Value.{Real, Value}
use mikrotik_cpe_cloud.Influx.Point.{Point}
use mikrotik_cpe_cloud.Server.{Server, Response}
use mikrotik_cpe_cloud.AutoEnroll.Flush.{Provision}
use mikrotik_cpe_cloud.Factory.{Installer}
use mikrotik_cpe_cloud.Telemetry.Payload.{Coercions, TelemetryHeartbeat}
use mikrotik_cpe_cloud.Fleet.Reach.{Reach}
use mikrotik_cpe_cloud.App.{Call, handle, serve}

module _ (sha256 : Text → Text) (co : Coercions) (truncate : Real → ℤ) (read : Text → Option Real)
    (show_value : Value → Text) (storable : Router → Bool) (describe : Exn → Text)
    (render : Provision → Text) (render_installer : Installer → Text) (settings : Settings) where
  abbrev pub Reaches : Server → Server → Type 0
  Reaches = Reach TelemetryHeartbeat sha256 storable describe render render_installer settings

  abbrev handled : Call → Server → Response × Server
  handled =
      handle sha256 co truncate read show_value storable describe render render_installer settings

  abbrev pub served : List Call → Server → List Response × Server
  served =
      serve sha256 co truncate read show_value storable describe render render_installer settings
