-- ===== src/Schema/Initial.antt =====
-- alembic/versions/0001_initial_schema.py: the calls of `op`, in order.
pub mod Routers
pub mod Records
use mikrotik_cpe_cloud.Base.{List, [], ◌∷◌}
use mikrotik_cpe_cloud.Base.Text.{Text, codes}
use mikrotik_cpe_cloud.Schema.Ddl.{
  Operation, create_extension, create_table, create_index, insert, drop_index, drop_table,
}
pub use Routers.{
  routers, idx_routers_uisp_client, idx_routers_last_seen, idx_routers_status,
  idx_routers_identity_trgm, router_tokens, idx_router_tokens_prefix, enrollment_tokens,
}
pub use Records.{
  router_interfaces, audit_log, idx_audit_router, idx_audit_created_at, router_backups,
  provisioning_secrets, provisioning_rules, seed, admin_fetch_tokens, idx_admin_fetch_tokens_prefix,
}

abbrev pub pg_trgm : Text
pg_trgm = codes "pg_trgm"

abbrev pub upgrade : List Operation
upgrade =
    create_extension pg_trgm
    ∷ create_table routers
    ∷ create_index idx_routers_uisp_client
    ∷ create_index idx_routers_last_seen
    ∷ create_index idx_routers_status
    ∷ create_index idx_routers_identity_trgm
    ∷ create_table router_tokens
    ∷ create_index idx_router_tokens_prefix
    ∷ create_table enrollment_tokens
    ∷ create_table router_interfaces
    ∷ create_table audit_log
    ∷ create_index idx_audit_router
    ∷ create_index idx_audit_created_at
    ∷ create_table router_backups
    ∷ create_table provisioning_secrets
    ∷ create_table provisioning_rules
    ∷ insert (codes "provisioning_rules") seed
    ∷ create_table admin_fetch_tokens
    ∷ create_index idx_admin_fetch_tokens_prefix
    ∷ []

abbrev pub downgrade : List Operation
downgrade =
    drop_index (codes "idx_admin_fetch_tokens_prefix") (codes "admin_fetch_tokens")
    ∷ drop_table (codes "admin_fetch_tokens")
    ∷ drop_table (codes "provisioning_rules")
    ∷ drop_table (codes "provisioning_secrets")
    ∷ drop_table (codes "router_backups")
    ∷ drop_index (codes "idx_audit_created_at") (codes "audit_log")
    ∷ drop_index (codes "idx_audit_router") (codes "audit_log")
    ∷ drop_table (codes "audit_log")
    ∷ drop_table (codes "router_interfaces")
    ∷ drop_table (codes "enrollment_tokens")
    ∷ drop_index (codes "idx_router_tokens_prefix") (codes "router_tokens")
    ∷ drop_table (codes "router_tokens")
    ∷ drop_index (codes "idx_routers_identity_trgm") (codes "routers")
    ∷ drop_index (codes "idx_routers_status") (codes "routers")
    ∷ drop_index (codes "idx_routers_last_seen") (codes "routers")
    ∷ drop_index (codes "idx_routers_uisp_client") (codes "routers")
    ∷ drop_table (codes "routers")
    ∷ []
