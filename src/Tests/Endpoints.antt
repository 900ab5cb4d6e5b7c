-- ===== src/Tests/Endpoints.antt =====
-- Heartbeats and fetches.
use mikrotik_cpe_cloud.Base.{
  ℕ, zero, suc, ◌+◌, ◌*◌, ◌^◌, ◌%◌, ◌≤◌, ◌<◌, ◌-◌, ◌≡◌, ◌≢◌, ◌↔◌, ◌⊎◌, inl, inr, refl, sym, Bool,
  true, false, not, ◌&&◌, ◌||◌, List, [], ◌∷◌, ◌++◌, Option, none, some, arith, In, All, first,
  select, length, take, ltb, leb, is_none, if◌then◌else◌,
}
use mikrotik_cpe_cloud.Base.Text.{Text, codes, text_eq, find, starts_with, rstrip}
use mikrotik_cpe_cloud.Base.Result.{Result, ok}
use mikrotik_cpe_cloud.Models.{Router}
use mikrotik_cpe_cloud.Server.{Server, Response}
use mikrotik_cpe_cloud.Base.Strip.{HasNoSpace}
use mikrotik_cpe_cloud.Telemetry.{extract_bearer, push_telemetry}
use mikrotik_cpe_cloud.Telemetry.Push.{pushed, Passed, push_telemetry_passed}
use mikrotik_cpe_cloud.Factory.{factory_installer}
use mikrotik_cpe_cloud.Factory.Serve.{served, Served, factory_installer_served}
use mikrotik_cpe_cloud.Tests.Data.{
  hash, test_settings, at_time, Beat, beat, writes, render_installer, times, peer, with_router,
  raw_beat, raw_fetch,
}

raw_beat-HasNoSpace : HasNoSpace raw_beat
unfolding mikrotik_cpe_cloud.Base.Text.is_space
raw_beat-HasNoSpace = ground arith

raw_beat-ne-nil : raw_beat ≢ []
raw_beat-ne-nil h = ground (arith, h)

abbrev bearer : Option Text
bearer = some (codes "bearer  telemetry-token-1 ")

beats_once :
    (pushed hash writes (at_time 1) (at_time 2) 300 peer bearer beat with_router).0.status_code
    ≡ 204
unfolding push_telemetry extract_bearer mikrotik_cpe_cloud.Base.Text.is_space text_eq
    mikrotik_cpe_cloud.RateLimit.check_rate_limit mikrotik_cpe_cloud.Tokens.find_valid_router_token
    mikrotik_cpe_cloud.Server.get_router
beats_once = refl

push_telemetry_passed_example :
    Passed hash writes (at_time 1) (at_time 2) 300 peer bearer beat with_router
push_telemetry_passed_example =
    push_telemetry_passed hash writes (at_time 1) (at_time 2) 300 peer bearer beat with_router
      beats_once

abbrev unsigned : Response × Server
unsigned =
    pushed hash writes (at_time 1) (at_time 2) 300 peer (some (codes "Bearer telemetry-token-2"))
      beat with_router

rejects_unsigned : unsigned.0.status_code ≡ 401
unfolding push_telemetry extract_bearer mikrotik_cpe_cloud.Base.Text.is_space text_eq
    mikrotik_cpe_cloud.RateLimit.check_rate_limit mikrotik_cpe_cloud.Tokens.find_valid_router_token
rejects_unsigned = refl

unsigned-ne-204 : unsigned.0.status_code ≢ 204
unsigned-ne-204 h = ground (arith, h, rejects_unsigned)

abbrev succeeds : Router → Beat → Result (Unit {0})
succeeds r b = ok tt

serves_once :
    (served hash render_installer test_settings
      (at_time 1)
      times
      peer
      raw_fetch
      with_router).0.status_code
    ≡ 200
unfolding factory_installer mikrotik_cpe_cloud.RateLimit.check_fetch_rate_limit
    mikrotik_cpe_cloud.Tokens.find_valid_admin_token text_eq
serves_once = refl

factory_installer_served_example :
    Served hash render_installer test_settings (at_time 1) times peer raw_fetch with_router
factory_installer_served_example =
    factory_installer_served hash render_installer test_settings (at_time 1) times peer raw_fetch
      with_router serves_once

abbrev unknown : Response × Server
unknown =
    served hash render_installer test_settings (at_time 1) times peer (codes "fetch-token-unknown")
      with_router

rejects_unknown : unknown.0.status_code ≡ 401
unfolding factory_installer mikrotik_cpe_cloud.RateLimit.check_fetch_rate_limit
    mikrotik_cpe_cloud.Tokens.find_valid_admin_token text_eq
rejects_unknown = refl

unknown-ne-200 : unknown.0.status_code ≢ 200
unknown-ne-200 h = ground (arith, h, rejects_unknown)
