-- ===== src/Models.antt =====
-- app/models: the tables that the services and the endpoints use, a record for each row. A point in
-- time is a number of microseconds, a text is a list of code points, and NULL is `none`.
use mikrotik_cpe_cloud.Base.{ℕ, Bool, List, Option}
use mikrotik_cpe_cloud.Base.Text.{Text}
use mikrotik_cpe_cloud.Base.Int.{ℤ}

-- What the driver returns for an INET column: an address object, or a text such as `10.1.2.3/32`.
pub data Inet : Type 0 where
  address : ℕ → Inet
  text : Text → Inet

-- The CHECK constraint on `routers.status`.
pub data Status : Type 0 where
  active pending decommissioned quarantined : Status

-- app/models/router.py. The UISP columns, which nothing reads or writes yet, are left out.
pub record Router : Type 0 where
  pub id : ℕ
  pub identity : Text
  pub serial_number : Text
  pub mac_address : Text
  pub model : Option Text
  pub ros_version : Option Text
  pub ros_major : Option ℤ
  pub wifi_stack : Option Text
  pub wg_public_key : Option Text
  pub wg_overlay_ip : Option Inet
  pub enrolled_at : Option ℕ
  pub last_seen_at : Option ℕ
  pub status : Status

-- app/models/token.py
pub record RouterToken : Type 0 where
  pub id : ℕ
  pub router_id : ℕ
  pub token_hash : Text
  pub token_prefix : Text
  pub created_at : ℕ
  pub revoked_at : Option ℕ

-- app/models/secret.py
pub record AdminFetchToken : Type 0 where
  pub id : ℕ
  pub label : Text
  pub token_hash : Text
  pub token_prefix : Text
  pub issued_by : Option Text
  pub expires_at : ℕ
  pub revoked_at : Option ℕ
  pub use_count : ℕ
  pub last_used_at : Option ℕ
  pub created_at : ℕ

-- The JSON values of `audit_log.params`.
pub data Param : Type 0 where
  text_param : Text → Param
  number_param : ℕ → Param
  flag_param : Bool → Param

-- app/models/audit.py
pub record AuditLog : Type 0 where
  pub id : ℕ
  pub router_id : Option ℕ
  pub actor : Text
  pub action : Text
  pub params : List (Text × Param)
  pub status : Text
  pub created_at : ℕ

-- The tables, and the next value of each primary key.
pub record Db : Type 0 where
  pub routers : List Router
  pub router_tokens : List RouterToken
  pub admin_fetch_tokens : List AdminFetchToken
  pub audit_log : List AuditLog
  pub next_router : ℕ
  pub next_router_token : ℕ
  pub next_fetch_token : ℕ
  pub next_audit : ℕ
