-- ===== src/Tests/Runs.antt =====
-- Runs of several operations.
use mikrotik_cpe_cloud.Base.{
  ℕ, zero, suc, ◌+◌, ◌*◌, ◌^◌, ◌%◌, ◌≤◌, ◌<◌, ◌-◌, ◌≡◌, ◌≢◌, ◌↔◌, ◌⊎◌, inl, inr, refl, sym, Bool,
  true, false, not, ◌&&◌, ◌||◌, List, [], ◌∷◌, ◌++◌, Option, none, some, arith, In, All, first,
  select, length, take, ltb, leb, is_none, if◌then◌else◌,
}
use mikrotik_cpe_cloud.Base.Text.{Text, codes, text_eq, find, starts_with, rstrip}
use mikrotik_cpe_cloud.Base.Int.{pos}
use mikrotik_cpe_cloud.Models.{Router, AuditLog}
use mikrotik_cpe_cloud.Tokens.{issue_admin_fetch_token, MintedFetchToken, ok, hour, Issued}
use mikrotik_cpe_cloud.Server.{Server, Response, put_router}
use mikrotik_cpe_cloud.Telemetry.{push_telemetry}
use mikrotik_cpe_cloud.Factory.{factory_installer}
use mikrotik_cpe_cloud.AutoEnroll.{auto_enroll}
use mikrotik_cpe_cloud.AutoEnroll.Outcome.{answered, raw_token}
use mikrotik_cpe_cloud.Fleet.Kept.{WellFormed}
use mikrotik_cpe_cloud.Fleet.Reach.{enrolls, beats, here, on, Reach-WellFormed, with_fetch_tokens}
use mikrotik_cpe_cloud.Fleet.History.{Run, reach_revoked, reach_log}
use mikrotik_cpe_cloud.Fleet.Session.{heartbeat_after_enrollment}
use mikrotik_cpe_cloud.Fleet.Fetch.{fetch_after_issue}
use mikrotik_cpe_cloud.Tests.Data.{
  hash, fill, test_settings, empty_db, start, at_time, around, request, storable, describe, render,
  Beat, beat, writes, render_installer, times, peer, header, with_router, old_token,
}

-- An enrollment, and a heartbeat after it.
abbrev enrolled : Server → Server
enrolled s =
    (auto_enroll hash storable describe render test_settings around peer request header s).1

abbrev authorization : Option Text
authorization = some (codes "Bearer " ++ raw_token around)

abbrev beaten : Server → Server
beaten s = (push_telemetry hash writes (at_time 5) (at_time 6) 300 peer authorization beat s).1

two_steps :
    (s : Server)
    → Run Beat hash storable describe render render_installer test_settings s (beaten (enrolled s))
two_steps s =
    on s (enrolled s) (beaten (enrolled s))
      (on s s (enrolled s) (here s) (enrolls around peer request header s))
      (beats writes (at_time 5) (at_time 6) 300 peer authorization beat (enrolled s))

empty-WellFormed : WellFormed empty_db
empty-WellFormed = record { distinct = tt; below = tt; owned = tt }

Reach-WellFormed_example : WellFormed (beaten (enrolled start)).db
Reach-WellFormed_example =
    Reach-WellFormed Beat hash storable describe render render_installer test_settings
      (two_steps start) empty-WellFormed

old_token-revoked : old_token.revoked_at ≢ none
old_token-revoked h = ground (arith, h)

reach_revoked_example : In old_token (beaten (enrolled with_router)).db.router_tokens
reach_revoked_example =
    reach_revoked Beat hash storable describe render render_installer test_settings
      (two_steps with_router) old_token old_token-revoked (inr (inl refl))

reach_log_example :
    (more : List AuditLog) × ((beaten (enrolled with_router)).db.audit_log
      ≡ with_router.db.audit_log ++ more)
reach_log_example =
    reach_log Beat hash storable describe render render_installer test_settings
      (two_steps with_router)

is_long : 48 ≤ length (fill 48 7)
is_long = omega arith

enrolls_first :
    (answered hash storable describe render test_settings around peer request header
      start).0.status_code
    ≡ 200
unfolding mikrotik_cpe_cloud.AutoEnroll.auto_enroll
    mikrotik_cpe_cloud.AutoEnroll.Request.is_valid_request
    mikrotik_cpe_cloud.AutoEnroll.Request.validate_wg_pubkey mikrotik_cpe_cloud.Base64.b64decode
    mikrotik_cpe_cloud.Base64.b64encode mikrotik_cpe_cloud.RateLimit.check_rate_limit
    mikrotik_cpe_cloud.AutoEnroll.Secret.verify_provisioning_secret
    mikrotik_cpe_cloud.Wireguard.get_server_public_key
    mikrotik_cpe_cloud.AutoEnroll.Flush.flush_router mikrotik_cpe_cloud.Wireguard.sync_from_db
    mikrotik_cpe_cloud.Wireguard.fetch_active_peers mikrotik_cpe_cloud.Base.Text.text_eq
    mikrotik_cpe_cloud.Base.first mikrotik_cpe_cloud.Wireguard.allocate_overlay_ip
    mikrotik_cpe_cloud.Ipv4.parse_ipv4 mikrotik_cpe_cloud.Ipv4.host_count
    mikrotik_cpe_cloud.Ipv4.first_host mikrotik_cpe_cloud.AutoEnroll.Rows.violates_unique
    mikrotik_cpe_cloud.Base.select mikrotik_cpe_cloud.AutoEnroll.Flush.add_token
    mikrotik_cpe_cloud.AutoEnroll.Rows.new_router
    mikrotik_cpe_cloud.AutoEnroll.Identity.initial_status_for mikrotik_cpe_cloud.Wireguard.coerce_ip
    mikrotik_cpe_cloud.Ipv4.ipv4_str mikrotik_cpe_cloud.Wireguard.read_interface_block
    mikrotik_cpe_cloud.Wireguard.File.write_atomic
enrolls_first = refl

abbrev first_beat : Response × Server
first_beat =
    push_telemetry hash writes (at_time 5) (at_time 6) 300 peer
      (some (codes "Bearer " ++ raw_token around)) beat
      (answered hash storable describe render test_settings around peer request header start).1

-- The buckets of the heartbeat are new.
first_beat-granted : first_beat.0.status_code ≢ 429
unfolding mikrotik_cpe_cloud.AutoEnroll.auto_enroll
    mikrotik_cpe_cloud.AutoEnroll.Request.is_valid_request
    mikrotik_cpe_cloud.AutoEnroll.Request.validate_wg_pubkey mikrotik_cpe_cloud.Base64.b64decode
    mikrotik_cpe_cloud.Base64.b64encode mikrotik_cpe_cloud.RateLimit.check_rate_limit
    mikrotik_cpe_cloud.AutoEnroll.Secret.verify_provisioning_secret
    mikrotik_cpe_cloud.Wireguard.get_server_public_key
    mikrotik_cpe_cloud.AutoEnroll.Flush.flush_router mikrotik_cpe_cloud.Wireguard.sync_from_db
    mikrotik_cpe_cloud.Wireguard.fetch_active_peers mikrotik_cpe_cloud.Base.Text.text_eq
    mikrotik_cpe_cloud.Base.first mikrotik_cpe_cloud.Wireguard.allocate_overlay_ip
    mikrotik_cpe_cloud.Ipv4.parse_ipv4 mikrotik_cpe_cloud.Ipv4.host_count
    mikrotik_cpe_cloud.Ipv4.first_host mikrotik_cpe_cloud.AutoEnroll.Rows.violates_unique
    mikrotik_cpe_cloud.Base.select mikrotik_cpe_cloud.AutoEnroll.Flush.add_token
    mikrotik_cpe_cloud.AutoEnroll.Rows.new_router
    mikrotik_cpe_cloud.AutoEnroll.Identity.initial_status_for mikrotik_cpe_cloud.Wireguard.coerce_ip
    mikrotik_cpe_cloud.Ipv4.ipv4_str mikrotik_cpe_cloud.Wireguard.read_interface_block
    mikrotik_cpe_cloud.Wireguard.File.write_atomic mikrotik_cpe_cloud.Telemetry.push_telemetry
    mikrotik_cpe_cloud.Tokens.mint_telemetry_token mikrotik_cpe_cloud.Telemetry.extract_bearer
    mikrotik_cpe_cloud.AutoEnroll.Flush.audit mikrotik_cpe_cloud.Base.Decimal.str
    mikrotik_cpe_cloud.Tokens.find_valid_router_token mikrotik_cpe_cloud.Server.get_router
first_beat-granted h = ground (arith, h)

heartbeat_after_enrollment_example :
    (first_beat.0.status_code ≡ 204)
    × ((row : Router) × (row.serial_number ≡ codes "HC12")
        × (first_beat.1.db.routers
            ≡ put_router
                (record row { last_seen_at = some 300 })
                (answered hash storable describe render test_settings around peer request header
                  start).1.db.routers))
heartbeat_after_enrollment_example =
    heartbeat_after_enrollment hash storable describe render test_settings around peer request
      header start writes (at_time 5) (at_time 6) 300 peer beat empty-WellFormed tt tt is_long
      enrolls_first first_beat-granted

abbrev minted : MintedFetchToken
minted = record {
  raw = codes "BwcHBwcHBwcHBwcHBwcHBwcHBwcHBwcHBwcHBwcHBwc";
  row = record {
    id = 1;
    label = codes "van";
    token_hash = codes "BwcHBwcHBwcHBwcHBwcHBwcHBwcHBwcHBwcHBwcHBwc";
    token_prefix = codes "BwcHBwcH";
    issued_by = none;
    expires_at = 100 + 24 * 3600000000;
    revoked_at = none;
    use_count = 0;
    last_used_at = none;
    created_at = 100;
  };
}

issues_one :
    issue_admin_fetch_token hash [] 1 100 100 (fill 48 7) (codes " van ") (pos 24) none
    ≡ Issued.ok (minted, minted.row ∷ [])
unfolding issue_admin_fetch_token mikrotik_cpe_cloud.Base.Text.strip
    mikrotik_cpe_cloud.Base.Text.is_space mikrotik_cpe_cloud.Tokens.mint_token
issues_one = refl

has_secret : test_settings.provisioning_secret_current ≢ []
has_secret h = ground (arith, h)

abbrev first_fetch : Response
first_fetch =
    (factory_installer hash render_installer test_settings (at_time 1) times peer minted.raw
      (with_fetch_tokens start (minted.row ∷ []) 2)).0

serves_first : first_fetch.status_code ≡ 200
unfolding factory_installer mikrotik_cpe_cloud.RateLimit.check_fetch_rate_limit
    mikrotik_cpe_cloud.Tokens.find_valid_admin_token text_eq
serves_first = refl

first_fetch-granted : first_fetch.status_code ≢ 429
first_fetch-granted h = ground (arith, h, serves_first)

fetch_after_issue_example :
    first_fetch.status_code ≡ (if ltb 500 (100 + 24 * hour) then 200 else 401)
fetch_after_issue_example =
    fetch_after_issue hash render_installer test_settings start 100 100 (fill 48 7) (codes " van ")
      24 none minted (minted.row ∷ []) is_long has_secret issues_one (at_time 1) times peer
      first_fetch-granted
