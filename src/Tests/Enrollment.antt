-- ===== src/Tests/Enrollment.antt =====
-- Enrollments.
use mikrotik_cpe_cloud.Base.{
  ℕ, zero, suc, ◌+◌, ◌*◌, ◌^◌, ◌%◌, ◌≤◌, ◌<◌, ◌-◌, ◌≡◌, ◌≢◌, ◌↔◌, ◌⊎◌, inl, inr, refl, sym, Bool,
  true, false, not, ◌&&◌, ◌||◌, List, [], ◌∷◌, ◌++◌, Option, none, some, arith, In, All, first,
  select, length, take, ltb, leb, is_none, if◌then◌else◌,
}
use mikrotik_cpe_cloud.Base.Text.{Text, codes, text_eq, find, starts_with, rstrip}
use mikrotik_cpe_cloud.Base.Result.{ok}
use mikrotik_cpe_cloud.Models.{Router, active, pending}
use mikrotik_cpe_cloud.Base64.{b64encode}
use mikrotik_cpe_cloud.Server.{Server, Response, get_router}
use mikrotik_cpe_cloud.AutoEnroll.Secret.{
  Slot, current, previous, Opens, verify_provisioning_secret, verify_provisioning_secret_lem,
}
use mikrotik_cpe_cloud.AutoEnroll.Request.{validate_wg_pubkey}
use mikrotik_cpe_cloud.AutoEnroll.Key.{validate_wg_pubkey_lem}
use mikrotik_cpe_cloud.AutoEnroll.Identity.{initial_status_for, identity_pattern}
use mikrotik_cpe_cloud.AutoEnroll.Approve.{Matches, initial_status_for_lem}
use mikrotik_cpe_cloud.AutoEnroll.Rows.{has_serial}
use mikrotik_cpe_cloud.AutoEnroll.Outcome.{answered, raw_token}
use mikrotik_cpe_cloud.AutoEnroll.Reenroll.{IsNewest, auto_enroll_reenrolled}
use mikrotik_cpe_cloud.Tests.Data.{
  hash, test_settings, around, request, storable, describe, render, peer, header, existing,
  with_router,
}

-- A wrong secret.
abbrev wrong : Option Text
wrong = some (codes "guess")

abbrev refused : Response × Server
refused = answered hash storable describe render test_settings around peer request wrong with_router

refuses_wrong : refused.0.status_code ≡ 401
unfolding mikrotik_cpe_cloud.AutoEnroll.auto_enroll
    mikrotik_cpe_cloud.AutoEnroll.Request.is_valid_request
    mikrotik_cpe_cloud.AutoEnroll.Request.validate_wg_pubkey mikrotik_cpe_cloud.Base64.b64decode
    mikrotik_cpe_cloud.Base64.b64encode mikrotik_cpe_cloud.RateLimit.check_rate_limit
    mikrotik_cpe_cloud.AutoEnroll.Secret.verify_provisioning_secret
    mikrotik_cpe_cloud.Wireguard.get_server_public_key
    mikrotik_cpe_cloud.AutoEnroll.Flush.flush_router mikrotik_cpe_cloud.Wireguard.sync_from_db
    mikrotik_cpe_cloud.Wireguard.fetch_active_peers mikrotik_cpe_cloud.Base.Text.text_eq
    mikrotik_cpe_cloud.Base.first mikrotik_cpe_cloud.Wireguard.allocate_overlay_ip
    mikrotik_cpe_cloud.Ipv4.parse_ipv4 mikrotik_cpe_cloud.Ipv4.host_count
    mikrotik_cpe_cloud.Ipv4.first_host mikrotik_cpe_cloud.AutoEnroll.Rows.violates_unique
    mikrotik_cpe_cloud.Base.select mikrotik_cpe_cloud.AutoEnroll.Flush.add_token
    mikrotik_cpe_cloud.AutoEnroll.Rows.new_router
    mikrotik_cpe_cloud.AutoEnroll.Identity.initial_status_for mikrotik_cpe_cloud.Wireguard.coerce_ip
    mikrotik_cpe_cloud.Ipv4.ipv4_str mikrotik_cpe_cloud.Wireguard.read_interface_block
    mikrotik_cpe_cloud.Wireguard.File.write_atomic
refuses_wrong = refl

wrong-ne-200 : refused.0.status_code ≢ 200
wrong-ne-200 h = ground (arith, refuses_wrong, h)

wrong-ne-500 : refused.0.status_code ≢ 500
wrong-ne-500 h = ground (arith, refuses_wrong, h)

-- A router that is known.
abbrev again : Response × Server
again = answered hash storable describe render test_settings around peer request header with_router

enrolls_again : again.0.status_code ≡ 200
unfolding mikrotik_cpe_cloud.AutoEnroll.auto_enroll
    mikrotik_cpe_cloud.AutoEnroll.Request.is_valid_request
    mikrotik_cpe_cloud.AutoEnroll.Request.validate_wg_pubkey mikrotik_cpe_cloud.Base64.b64decode
    mikrotik_cpe_cloud.Base64.b64encode mikrotik_cpe_cloud.RateLimit.check_rate_limit
    mikrotik_cpe_cloud.AutoEnroll.Secret.verify_provisioning_secret
    mikrotik_cpe_cloud.Wireguard.get_server_public_key
    mikrotik_cpe_cloud.AutoEnroll.Flush.flush_router mikrotik_cpe_cloud.Wireguard.sync_from_db
    mikrotik_cpe_cloud.Wireguard.fetch_active_peers mikrotik_cpe_cloud.Base.Text.text_eq
    mikrotik_cpe_cloud.Base.first mikrotik_cpe_cloud.Wireguard.allocate_overlay_ip
    mikrotik_cpe_cloud.Ipv4.parse_ipv4 mikrotik_cpe_cloud.Ipv4.host_count
    mikrotik_cpe_cloud.Ipv4.first_host mikrotik_cpe_cloud.AutoEnroll.Rows.violates_unique
    mikrotik_cpe_cloud.Base.select mikrotik_cpe_cloud.AutoEnroll.Flush.add_token
    mikrotik_cpe_cloud.AutoEnroll.Rows.new_router
    mikrotik_cpe_cloud.AutoEnroll.Identity.initial_status_for mikrotik_cpe_cloud.Wireguard.coerce_ip
    mikrotik_cpe_cloud.Ipv4.ipv4_str mikrotik_cpe_cloud.Wireguard.read_interface_block
    mikrotik_cpe_cloud.Wireguard.File.write_atomic mikrotik_cpe_cloud.AutoEnroll.Rows.renewed
    mikrotik_cpe_cloud.AutoEnroll.Rows.clashes mikrotik_cpe_cloud.Server.put_router
enrolls_again = refl

is_known : first (has_serial request.serial) with_router.db.routers ≡ some existing
unfolding first text_eq
is_known = refl

auto_enroll_reenrolled_example :
    (row : Router) × (get_router 1 again.1.db.routers ≡ some row)
    × (row.serial_number ≡ codes "HC12")
    × (row.wg_overlay_ip ≡ existing.wg_overlay_ip)
    × (row.status ≡ active)
    × (row.wg_public_key ≡ some request.router_public_key)
    × All (IsNewest hash (raw_token around) 1) again.1.db.router_tokens
auto_enroll_reenrolled_example =
    auto_enroll_reenrolled hash storable describe render test_settings around peer request header
      with_router existing is_known enrolls_again

verify_provisioning_secret_lem_example :
    ((verify_provisioning_secret hash (codes "before") test_settings ≡ some current)
      ↔ Opens hash (codes "before") (codes "s3cret"))
    × ((verify_provisioning_secret hash (codes "before") test_settings ≡ some previous) ↔ (
        Opens hash (codes "before") (codes "before")
        × ¬ Opens hash (codes "before") (codes "s3cret")))
    × ((verify_provisioning_secret hash (codes "before") test_settings ≡ none) ↔ (
        (¬ Opens hash (codes "before") (codes "s3cret"))
        × (¬ Opens hash (codes "before") (codes "before"))))
verify_provisioning_secret_lem_example =
    verify_provisioning_secret_lem hash (codes "before") test_settings

validate_wg_pubkey_lem_example :
    (validate_wg_pubkey request.router_public_key ≡ ok request.router_public_key) ↔ (
      (bs : List ℕ) × (length bs ≡ 32)
      × (All (λ b. b < 256) bs)
      × (request.router_public_key ≡ b64encode bs))
validate_wg_pubkey_lem_example = validate_wg_pubkey_lem request.router_public_key

initial_status_for_lem_example :
    ((initial_status_for (codes "hAP A - B, C") ≡ active)
      ↔ Matches identity_pattern (codes "hAP A - B, C"))
    × ((initial_status_for (codes "hAP A - B, C") ≡ pending)
        ↔ (¬ Matches identity_pattern (codes "hAP A - B, C")))
initial_status_for_lem_example = initial_status_for_lem (codes "hAP A - B, C")
