-- ===== src/AutoEnroll/Flush.antt =====
-- The rows of an enrollment in `auto_enroll`, up to the commit, and `_audit`.
use mikrotik_cpe_cloud.Base.{
  ℕ, ◌+◌, Bool, true, false, not, ◌&&◌, List, [], ◌∷◌, ◌++◌, Option, none, some, first,
  if◌then◌else◌,
}
use mikrotik_cpe_cloud.Base.Text.{Text, codes}
use mikrotik_cpe_cloud.Base.Result.{Result, ok, err, integrity_error, ◌>>=◌}
use mikrotik_cpe_cloud.Models.{Db, Router, Param}
use mikrotik_cpe_cloud.Config.{Settings}
use mikrotik_cpe_cloud.Tokens.{hash_token, prefix_of}
use mikrotik_cpe_cloud.Wireguard.{allocate_overlay_ip}
use mikrotik_cpe_cloud.Wireguard.File.{Fault}
use mikrotik_cpe_cloud.Server.{Readings, put_router}
use mikrotik_cpe_cloud.AutoEnroll.Request.{AutoEnrollRequest}
use mikrotik_cpe_cloud.AutoEnroll.Rows.{
  new_router, renewed, violates_unique, revoke_router_tokens, has_serial,
}

-- What one request finds outside the tables: the clocks, in the order of their readings, the random
-- bytes, and the outcomes of the file system and of the helper.
pub record Surroundings : Type 0 where
  pub ip_readings : Readings
  pub serial_readings : Readings
  pub enrolled : ℕ
  pub revoked : ℕ
  pub stored : ℕ
  pub audited : ℕ
  pub generated : ℕ
  pub random : List ℕ
  pub fault : Option Fault
  pub rc : ℕ

-- The arguments of the template.
pub record Provision : Type 0 where
  pub router : Router
  pub telemetry_token : Text
  pub server_public_key : Text
  pub server_endpoint : Text
  pub server_port : ℕ
  pub overlay_cidr : Text
  pub wg_server_ip : Text
  pub telemetry_url : Text
  pub generated_at : ℕ

-- `f"https://{settings.server_fqdn}/api/v1/telemetry"`
abbrev pub telemetry_url_of : Text → Text
telemetry_url_of fqdn = codes "https://" ++ (fqdn ++ codes "/api/v1/telemetry")

-- `_audit`
unfoldable pub audit : ℕ → Text → Text → Option ℕ → List (Text × Param) → Db → Db
audit now action status router_id params db = record db {
  audit_log =
      db.audit_log
      ++ record {
        id = db.next_audit;
        router_id = router_id;
        actor = codes "auto-enroll";
        action = action;
        params = params;
        status = status;
        created_at = now;
      }
        ∷ [];
  next_audit = db.next_audit + 1;
}

-- What has been flushed: the tables, the row, and whether it was there before.
pub record Flushed : Type 0 where
  pub db : Db
  pub row : Router
  pub is_reenroll : Bool

module _ (storable : Router → Bool) (settings : Settings) where
  -- `session.add(router_row)` and the flush.
  abbrev pub insert_router : Surroundings → AutoEnrollRequest → Db → Result Flushed
  insert_router around payload db = do
    ip ← allocate_overlay_ip settings db.routers
    let row = new_router db.next_router ip around.enrolled payload
    if storable row && not (violates_unique row db.routers)
        then ok (record {
          db = record db { routers = db.routers ++ row ∷ []; next_router = db.next_router + 1 };
          row = row;
          is_reenroll = false;
        })
        else err integrity_error

  -- The re-enrollment of a row, flushed before the query for its tokens, which are revoked.
  abbrev pub update_router : Surroundings → AutoEnrollRequest → Router → Db → Result Flushed
  update_router around payload existing db =
      let row = renewed around.enrolled payload existing in
      if storable row && not (violates_unique row db.routers)
      then ok (record {
        db = record db {
          routers = put_router row db.routers;
          router_tokens = revoke_router_tokens around.revoked existing.id db.router_tokens;
        };
        row = row;
        is_reenroll = true;
      })
      else err integrity_error

  -- "Find-or-update router row".
  unfoldable pub flush_router : Surroundings → AutoEnrollRequest → Db → Result Flushed
  flush_router around payload db = elim (first (has_serial payload.serial) db.routers) [
    | none ↦ insert_router around payload db
    | some existing ↦ update_router around payload existing db
  ]

-- The telemetry token's row, and the commit.
unfoldable pub add_token : (Text → Text) → Surroundings → Text → ℕ → Db → Db
add_token sha256 around raw router_id db = record db {
  router_tokens =
      db.router_tokens
      ++ record {
        id = db.next_router_token;
        router_id = router_id;
        token_hash = hash_token sha256 raw;
        token_prefix = prefix_of raw;
        created_at = around.stored;
        revoked_at = none;
      }
        ∷ [];
  next_router_token = db.next_router_token + 1;
}
