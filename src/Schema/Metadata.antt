-- ===== src/Schema/Metadata.antt =====
-- `Base.metadata`: the tables of app/models, in the order in which app/models/__init__.py brings them in.
pub mod Audit
pub mod Backup
pub mod Interface
pub mod Routers
pub mod Secrets
pub mod Tokens
use mikrotik_cpe_cloud.Base.{List, [], ◌∷◌, ◌++◌}
use mikrotik_cpe_cloud.Schema.{Table, Index}
pub use Audit.{audit_log, audit_log_indexes}
pub use Backup.{router_backup}
pub use Interface.{router_interface}
pub use Routers.{router, router_indexes}
pub use Secrets.{
  provisioning_secret, provisioning_rule, admin_fetch_token, admin_fetch_token_indexes,
}
pub use Tokens.{router_token, router_token_indexes, enrollment_token}

abbrev pub metadata : List Table
metadata =
    audit_log ∷ router_backup ∷ router_interface ∷ router ∷ provisioning_secret ∷ provisioning_rule
    ∷ admin_fetch_token ∷ router_token ∷ enrollment_token ∷ []

abbrev pub metadata_indexes : List Index
metadata_indexes =
    audit_log_indexes ++ router_indexes ++ admin_fetch_token_indexes ++ router_token_indexes
