-- ===== src/Factory/Serve.antt =====
-- `factory_installer`: when the installer, and with it the secret, is served.
use mikrotik_cpe_cloud.Base.{◌+◌, ◌≤◌, ◌≡◌, ◌≢◌, true, [], Option, some, arith, In, length}
use mikrotik_cpe_cloud.Base.Text.{Text}
use mikrotik_cpe_cloud.Models.{AdminFetchToken}
use mikrotik_cpe_cloud.Config.{Settings}
use mikrotik_cpe_cloud.Tokens.{find_valid_admin_token}
use mikrotik_cpe_cloud.Tokens.Lookup.{IsValidAdmin, find_valid_admin_token_lem, FindsAdmin}
use mikrotik_cpe_cloud.Server.{Server, Response, Readings}
use mikrotik_cpe_cloud.Factory.{
  Installer, Times, is_query, used_once, put_fetch_token, factory_installer,
}

module _ (sha256 : Text → Text) (render : Installer → Text) (settings : Settings)
    (readings : Readings) (times : Times) (client : Option Text) (t : Text) (s : Server) where
  abbrev pub served : Response × Server
  served = factory_installer sha256 render settings readings times client t s

  -- What holds when the installer is served.
  pub record Served : Type 0 where
    pub row : AdminFetchToken
    pub is_valid : IsValidAdmin sha256 times.looked_up t row
    pub is_stored : In row s.db.admin_fetch_tokens
    pub long_enough : 16 ≤ length t
    pub short_enough : length t ≤ 128
    pub body_is :
        served.0.body
        ≡ render (record {
          provisioning_secret = settings.provisioning_secret_current;
          enrollment_url = settings.enrollment_url;
          server_fqdn = settings.server_fqdn;
          generated_at = times.generated;
          token_label = row.label;
        })
    pub has_secret : settings.provisioning_secret_current ≢ []
    pub db_after : served.1.db ≡ record s.db {
      admin_fetch_tokens =
          put_fetch_token
            (record row { last_used_at = some times.used; use_count = row.use_count + 1 })
            s.db.admin_fetch_tokens;
    }

  -- An answer other than 200 changes no table: the use of the token is not counted.
  pub factory_installer_rejected : served.0.status_code ≢ 200 → served.1.db ≡ s.db
  unfolding factory_installer
  factory_installer_rejected h = ground arith

  served_parts :
      served.0.status_code ≡ 200
      → (row : AdminFetchToken) × (find_valid_admin_token sha256 s.db.admin_fetch_tokens
            times.looked_up t
          ≡ some row)
        × (is_query t ≡ true)
        × (served.0.body
            ≡ render (record {
              provisioning_secret = settings.provisioning_secret_current;
              enrollment_url = settings.enrollment_url;
              server_fqdn = settings.server_fqdn;
              generated_at = times.generated;
              token_label = row.label;
            }))
        × (settings.provisioning_secret_current ≢ [])
        × (served.1.db ≡ record s.db {
          admin_fetch_tokens = put_fetch_token (used_once times.used row) s.db.admin_fetch_tokens;
        })
  unfolding factory_installer
  served_parts h = ground arith

  -- The installer is served, with the current secret in it, only for the raw form of a fetch token
  -- of the table that is valid at the time of the lookup and if a current secret is set; and all that
  -- changes in the tables is that the token's use is counted and dated.
  pub factory_installer_served : served.0.status_code ≡ 200 → Served
  factory_installer_served h =
      let (row, found, query, body, secret, after) = served_parts h in
      let (valid, member) : FindsAdmin sha256 s.db.admin_fetch_tokens times.looked_up t (some row) =
        rw found at (find_valid_admin_token_lem sha256 s.db.admin_fetch_tokens times.looked_up t) in
      record {
        row = row;
        is_valid = valid;
        is_stored = member;
        long_enough = ground arith;
        short_enough = ground arith;
        body_is = body;
        has_secret = secret;
        db_after = after;
      }
