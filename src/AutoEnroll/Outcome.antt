-- ===== src/AutoEnroll/Outcome.antt =====
-- What an answer of `auto_enroll` says of the tables and of the file.
use mikrotik_cpe_cloud.Base.{◌≡◌, ◌≢◌, Bool, true, Option, some, arith}
use mikrotik_cpe_cloud.Base.Text.{Text}
use mikrotik_cpe_cloud.Base.Result.{Exn, ok}
use mikrotik_cpe_cloud.Models.{Router}
use mikrotik_cpe_cloud.Config.{Settings}
use mikrotik_cpe_cloud.Tokens.{mint_telemetry_token}
use mikrotik_cpe_cloud.Wireguard.{sync_from_db, SyncSummary, get_server_public_key}
use mikrotik_cpe_cloud.Server.{Server, Response}
use mikrotik_cpe_cloud.AutoEnroll.Request.{AutoEnrollRequest, is_valid_request}
use mikrotik_cpe_cloud.AutoEnroll.Secret.{Slot, verify_provisioning_secret}
use mikrotik_cpe_cloud.AutoEnroll.Flush.{
  Surroundings, Provision, telemetry_url_of, Flushed, flush_router, add_token, audit,
}
use mikrotik_cpe_cloud.AutoEnroll.{auto_enroll}

-- The telemetry token of a request.
abbrev pub raw_token : Surroundings → Text
raw_token around = mint_telemetry_token around.random

module _ (sha256 : Text → Text) (storable : Router → Bool) (describe : Exn → Text)
    (render : Provision → Text) (settings : Settings) (around : Surroundings) (client : Option Text)
    (payload : AutoEnrollRequest) (header : Option Text) (s : Server) where
  abbrev pub answered : Response × Server
  answered = auto_enroll sha256 storable describe render settings around client payload header s

  -- An answer other than 200 and 500 leaves the routers, both token tables and the file as they were.
  pub auto_enroll_refused :
      answered.0.status_code ≢ 200
      → answered.0.status_code ≢ 500
      → (answered.1.db.routers ≡ s.db.routers)
        × (answered.1.db.router_tokens ≡ s.db.router_tokens)
        × (answered.1.db.admin_fetch_tokens ≡ s.db.admin_fetch_tokens)
        × (answered.1.dir ≡ s.dir)
  unfolding auto_enroll audit
  auto_enroll_refused h k = ground arith

  -- The steps that an enrollment has gone through when it is answered with 200.
  pub record Enrolled : Type 0 where
    pub secret : Text
    pub slot : Slot
    pub server_key : Text
    pub flushed : Flushed
    pub summary : SyncSummary
    pub is_valid : is_valid_request payload ≡ true
    pub has_secret : header ≡ some secret
    pub verified : verify_provisioning_secret sha256 secret settings ≡ some slot
    pub has_key : get_server_public_key settings ≡ ok server_key
    pub has_row : flush_router storable settings around payload s.db ≡ ok flushed
    pub routers_after : answered.1.db.routers ≡ flushed.db.routers
    pub tokens_after :
        answered.1.db.router_tokens
        ≡ (add_token sha256 around (raw_token around) flushed.row.id flushed.db).router_tokens
    pub synced :
        (sync_from_db settings flushed.db.routers around.fault around.rc s.dir).0 ≡ ok summary
    pub dir_after :
        answered.1.dir ≡ (sync_from_db settings flushed.db.routers around.fault around.rc s.dir).1
    pub body_is :
        answered.0.body
        ≡ render (record {
          router = flushed.row;
          telemetry_token = raw_token around;
          server_public_key = server_key;
          server_endpoint = settings.server_fqdn;
          server_port = 51820;
          overlay_cidr = settings.wg_overlay_cidr;
          wg_server_ip = settings.wg_server_ip;
          telemetry_url = telemetry_url_of settings.server_fqdn;
          generated_at = around.generated;
        })

  -- What has been flushed when an enrollment is answered with 200.
  enrolled_rows :
      answered.0.status_code ≡ 200
      → (secret : Text) × (slot : Slot) × (server_key : Text) × (flushed : Flushed)
        × (is_valid_request payload ≡ true)
        × (header ≡ some secret)
        × (verify_provisioning_secret sha256 secret settings ≡ some slot)
        × (get_server_public_key settings ≡ ok server_key)
        × (flush_router storable settings around payload s.db ≡ ok flushed)
  unfolding auto_enroll
  enrolled_rows h = ground arith

  -- The rest of such an answer.
  enrolled_rest :
      (secret : Text) (slot : Slot) (server_key : Text) (flushed : Flushed)
      → answered.0.status_code ≡ 200
      → header ≡ some secret
      → verify_provisioning_secret sha256 secret settings ≡ some slot
      → get_server_public_key settings ≡ ok server_key
      → flush_router storable settings around payload s.db ≡ ok flushed
      → (summary : SyncSummary) × ((sync_from_db settings flushed.db.routers around.fault around.rc
            s.dir).0
          ≡ ok summary)
  unfolding auto_enroll add_token
  enrolled_rest secret slot server_key flushed h a b c d = ground arith

  -- A row from the parts that have been found.
  enrolled_after :
      (secret : Text) (slot : Slot) (server_key : Text) (flushed : Flushed) (summary : SyncSummary)
      → answered.0.status_code ≡ 200
      → header ≡ some secret
      → verify_provisioning_secret sha256 secret settings ≡ some slot
      → get_server_public_key settings ≡ ok server_key
      → flush_router storable settings around payload s.db ≡ ok flushed
      → (sync_from_db settings flushed.db.routers around.fault around.rc s.dir).0 ≡ ok summary
      → (answered.1.db.routers ≡ flushed.db.routers)
        × (answered.1.db.router_tokens
            ≡ (add_token sha256 around (raw_token around) flushed.row.id flushed.db).router_tokens)
        × (answered.1.dir
            ≡ (sync_from_db settings flushed.db.routers around.fault around.rc s.dir).1)
        × (answered.0.body
            ≡ render (record {
              router = flushed.row;
              telemetry_token = raw_token around;
              server_public_key = server_key;
              server_endpoint = settings.server_fqdn;
              server_port = 51820;
              overlay_cidr = settings.wg_overlay_cidr;
              wg_server_ip = settings.wg_server_ip;
              telemetry_url = telemetry_url_of settings.server_fqdn;
              generated_at = around.generated;
            }))
  unfolding auto_enroll add_token audit
  enrolled_after secret slot server_key flushed summary h a b c d e = ground arith

  pub auto_enroll_enrolled : answered.0.status_code ≡ 200 → Enrolled
  auto_enroll_enrolled h =
      let (secret, slot, key, flushed, valid, has, verified, has_key, has_row) = enrolled_rows h in
      let (summary, synced) =
        enrolled_rest secret slot key flushed h has verified has_key has_row in
      let (routers, tokens, dir, body) =
        enrolled_after secret slot key flushed summary h has verified has_key has_row synced in
      record {
        secret = secret;
        slot = slot;
        server_key = key;
        flushed = flushed;
        summary = summary;
        is_valid = valid;
        has_secret = has;
        verified = verified;
        has_key = has_key;
        has_row = has_row;
        routers_after = routers;
        tokens_after = tokens;
        synced = synced;
        dir_after = dir;
        body_is = body;
      }
