-- ===== src/Tests/Lifetimes.antt =====
-- An application that answers a probe, an enrollment, a heartbeat, a fetch and a manual enrollment.
use mikrotik_cpe_cloud.Base.{◌≡◌, ◌⊎◌, false, List, [], ◌∷◌}
use mikrotik_cpe_cloud.Base.Result.{ok, err, os_error}
use mikrotik_cpe_cloud.Server.{Server, Response}
use mikrotik_cpe_cloud.App.{
  Call, healthz_call, readyz_call, enroll_call, factory_call, auto_enroll_call, telemetry_call,
  handle, lifespan,
}
use mikrotik_cpe_cloud.App.Authority.{Unchanged, Authorised, handle-Authorised}
use mikrotik_cpe_cloud.App.Delivered.{BatchesInBounds, lifespan-InBounds}
use mikrotik_cpe_cloud.Tests.Data.{
  hash, test_settings, at_time, around, request, storable, describe, render, render_installer,
  times, peer, header, with_router, raw_fetch,
}
use mikrotik_cpe_cloud.Tests.Heartbeats.{co, body, truncate, read, show_value, fails}
use mikrotik_cpe_cloud.Tests.Deliveries.{bearer}

abbrev calls : List Call
calls =
    healthz_call
    ∷ auto_enroll_call around peer request header
    ∷ telemetry_call (at_time 5) (at_time 6) 300 peer bearer body (ok tt) fails 5
    ∷ readyz_call
    ∷ factory_call (at_time 7) times peer raw_fetch
    ∷ enroll_call
    ∷ []

abbrev ended : List Response × Server
ended =
    lifespan hash co truncate read show_value storable describe render render_installer
      test_settings (err os_error) calls with_router

lifespan-InBounds_example : (ended.1.client ≡ false) × BatchesInBounds co ended.1.delivered
lifespan-InBounds_example =
    lifespan-InBounds hash co truncate read show_value storable describe render render_installer
      test_settings (err os_error) calls with_router

abbrev beat : Call
beat = telemetry_call (at_time 5) (at_time 6) 300 peer bearer body (ok tt) fails 5

handle-Authorised_example :
    Unchanged with_router
      (handle hash co truncate read show_value storable describe render render_installer
        test_settings beat with_router).1
    ⊎ Authorised hash test_settings with_router beat
handle-Authorised_example =
    handle-Authorised hash co truncate read show_value storable describe render render_installer
      test_settings beat with_router
