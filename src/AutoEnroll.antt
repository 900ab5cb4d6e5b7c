-- ===== src/AutoEnroll.antt =====
-- app/routers/auto_enroll.py: the enrollment endpoint. What it calls that is not the repository's
-- stands as parameters: `sha256`, the template `render` on its arguments, `describe` for `str(exc)`,
-- and `storable`, which says that the database takes the values of a row (the syntax of a MACADDR,
-- the range of a SMALLINT).
pub mod Identity
pub mod Request
pub mod Secret
pub mod Rows
pub mod Flush
pub mod Key
pub mod Approve
pub mod Outcome
pub mod Reenroll
use mikrotik_cpe_cloud.Base.{
  ℕ, ◌+◌, Bool, true, false, not, ◌&&◌, ◌||◌, List, [], ◌∷◌, ◌++◌, Option, none, some, ◌==◌,
  is_none, first, if◌then◌else◌, String,
}
use mikrotik_cpe_cloud.Base.Text.{Text, text_eq, codes, replace}
use mikrotik_cpe_cloud.Base.Result.{Exn, Result, ok, err, runtime_error, integrity_error, ◌>>=◌}
use mikrotik_cpe_cloud.Models.{
  Db, Router, RouterToken, AuditLog, Param, text_param, number_param, flag_param,
}
use mikrotik_cpe_cloud.Config.{Settings}
use mikrotik_cpe_cloud.RateLimit.{check_rate_limit}
use mikrotik_cpe_cloud.Tokens.{hash_token, prefix_of, mint_telemetry_token}
use mikrotik_cpe_cloud.Wireguard.{
  allocate_overlay_ip, get_server_public_key, sync_from_db, SyncSummary,
}
use mikrotik_cpe_cloud.Wireguard.File.{Dir, Fault}
use mikrotik_cpe_cloud.Server.{Server, Response, Readings, host_or, put_router}
use mikrotik_cpe_cloud.Telemetry.{status_name}
use Request.{AutoEnrollRequest, is_valid_request}
use Secret.{Slot, current, previous, verify_provisioning_secret}
use Flush.{Surroundings, Provision, telemetry_url_of, audit, Flushed, flush_router, add_token}
use Rows.{new_router, renewed, violates_unique, revoke_router_tokens, has_serial}

-- `_rsc_error`
unfoldable pub rsc_error : Text → Text
rsc_error message =
    codes ":log error \"cpe-cloud enrollment rejected: "
    ++ (replace b'"' b'\'' message ++ codes "\"\n")

-- `_rsc_response(_rsc_error(…), status_code)`
abbrev pub refuse : ℕ → String → Response
refuse status_code message = record { status_code = status_code; body = rsc_error (codes message) }

abbrev pub with_db : Server → Db → Server
with_db s db = record s { db = db }

abbrev pub slot_name : Slot → Text
slot_name current = codes "current"
slot_name previous = codes "previous"

abbrev pub action_of : Bool → Text
action_of true = codes "auto_enroll_reenroll"
action_of false = codes "auto_enroll_new"

abbrev pub success_params :
    Text → AutoEnrollRequest → Router → Slot → ℕ → Bool → List (Text × Param)
success_params source_ip payload row slot peers is_reenroll =
    (codes "source_ip", text_param source_ip)
    ∷ (codes "serial", text_param payload.serial)
    ∷ (codes "identity", text_param payload.identity)
    ∷ (codes "status", text_param (status_name row.status))
    ∷ (codes "matched_secret_slot", text_param (slot_name slot))
    ∷ (codes "wg_peers_synced", number_param peers)
    ∷ (codes "reenroll", flag_param is_reenroll)
    ∷ []

module _ (sha256 : Text → Text) (storable : Router → Bool) (describe : Exn → Text)
    (render : Provision → Text) (settings : Settings) where
  -- From the regeneration of wg0.conf on, the rows being committed.
  abbrev pub publish :
      Surroundings
      → Text
      → AutoEnrollRequest
      → Slot
      → Text
      → Text
      → Flushed
      → Server
      → Response × Server
  publish around source_ip payload slot server_pubkey raw flushed s =
      let (synced, dir) = sync_from_db settings s.db.routers around.fault around.rc s.dir in
      let s' = record s { dir = dir } in
      elim synced [
        | err e ↦ (
          refuse 500 "server could not update overlay, retry in a few minutes",
          with_db s' (
              audit around.audited (codes "wg_sync_failed") (codes "failed") (some flushed.row.id)
                ((codes "error", text_param (describe e)) ∷ []) s'.db),
        )
        | ok summary ↦ (
          record {
            status_code = 200;
            body = render (record {
              router = flushed.row;
              telemetry_token = raw;
              server_public_key = server_pubkey;
              server_endpoint = settings.server_fqdn;
              server_port = 51820;
              overlay_cidr = settings.wg_overlay_cidr;
              wg_server_ip = settings.wg_server_ip;
              telemetry_url = telemetry_url_of settings.server_fqdn;
              generated_at = around.generated;
            });
          },
          with_db s' (
              audit around.audited (action_of flushed.is_reenroll) (codes "success")
                (some flushed.row.id)
                (success_params source_ip payload flushed.row slot summary.peers_synced
                  flushed.is_reenroll)
                s'.db),
        )
      ]

  -- From the find-or-update on. An exception that is not caught is a 500 with nothing committed.
  abbrev pub enroll :
      Surroundings → Text → AutoEnrollRequest → Slot → Text → Server → Response × Server
  enroll around source_ip payload slot server_pubkey s =
      elim (flush_router storable settings around payload s.db) [
        | err e ↦ (record { status_code = 500; body = codes "Internal Server Error" }, s)
        | ok flushed ↦
            let raw = mint_telemetry_token around.random in
            publish around source_ip payload slot server_pubkey raw flushed
              (with_db s (add_token sha256 around raw flushed.row.id flushed.db))
      ]

  -- From the verification of the secret on.
  abbrev pub verify_and_enroll :
      Surroundings → Text → AutoEnrollRequest → Text → Server → Response × Server
  verify_and_enroll around source_ip payload raw_secret s =
      elim (verify_provisioning_secret sha256 raw_secret settings) [
        | none ↦ (
          refuse 401 "invalid provisioning secret",
          with_db s (
              audit around.audited (codes "reject_bad_secret") (codes "failed") none
                ((codes "source_ip", text_param source_ip)
                  ∷ (codes "serial", text_param payload.serial)
                  ∷ (codes "identity", text_param payload.identity)
                  ∷ [])
                s.db),
        )
        | some slot ↦ elim (get_server_public_key settings) [
          | err e ↦ (refuse 500 "server misconfiguration, contact admin", s)
          | ok server_pubkey ↦ enroll around source_ip payload slot server_pubkey s
        ]
      ]

  -- The header `x_provisioning_secret`, absent or empty, or given.
  abbrev pub check_header :
      Surroundings → Text → AutoEnrollRequest → Option Text → Server → Response × Server
  check_header around source_ip payload (some (c ∷ secret)) s =
      verify_and_enroll around source_ip payload (c ∷ secret) s
  check_header around source_ip payload _ s = (
    refuse 401 "missing provisioning secret header",
    with_db s (
        audit around.audited (codes "reject_missing_secret") (codes "failed") none
          ((codes "source_ip", text_param source_ip)
            ∷ (codes "serial", text_param payload.serial)
            ∷ [])
          s.db),
  )

  -- `auto_enroll`, with the validation of the payload by the framework (422).
  unfoldable pub auto_enroll :
      Surroundings → Option Text → AutoEnrollRequest → Option Text → Server → Response × Server
  auto_enroll around client payload header s =
      if not (is_valid_request payload)
      then (record { status_code = 422; body = [] }, s)
      else let source_ip = host_or (codes "unknown") client in
        let (ip_ok, buckets) =
          check_rate_limit around.ip_readings.created around.ip_readings.now
            (codes "auto-enroll-ip") source_ip s.buckets in
        let (serial_ok, buckets') =
          check_rate_limit around.serial_readings.created around.serial_readings.now
            (codes "auto-enroll-serial") payload.serial buckets in
        let s' = record s { buckets = buckets' } in
        if not (ip_ok && serial_ok)
        then (refuse 429 "rate limit exceeded, try again later", s')
        else check_header around source_ip payload header s'
