-- ===== src/Schema/Initial/Records.antt =====
-- alembic/versions/0001_initial_schema.py: the other tables, and the row that is put in.
use mikrotik_cpe_cloud.Base.{true, false, [], ◌∷◌, none, some}
use mikrotik_cpe_cloud.Base.Text.{codes}
use mikrotik_cpe_cloud.Base.Int.{pos}
use mikrotik_cpe_cloud.Schema.{
  big_integer, integer, text, boolean, date_time, jsonb, now, sql, Index, Table, Row, text_cell,
  number_cell, flag_cell, value, column, with_default, references, serial_key, unique,
}

abbrev pub router_interfaces : Table
router_interfaces = record {
  name = codes "router_interfaces";
  columns =
      serial_key "id"
      ∷ references "routers" "id" true (column "router_id" big_integer false)
      ∷ column "name" text false
      ∷ column "kind" text false
      ∷ column "ssid" text true
      ∷ column "band" text true
      ∷ column "frequency_mhz" integer true
      ∷ column "channel_width" text true
      ∷ column "tx_power_dbm" integer true
      ∷ column "mode" text true
      ∷ column "disabled" boolean true
      ∷ with_default now (column "last_updated" date_time false)
      ∷ [];
  uniques = unique "uq_router_interfaces_router_name" (codes "router_id" ∷ codes "name" ∷ []) ∷ [];
  checks = [];
  rows = [];
}

abbrev pub audit_log : Table
audit_log = record {
  name = codes "audit_log";
  columns =
      serial_key "id"
      ∷ references "routers" "id" false (column "router_id" big_integer true)
      ∷ column "actor" text false
      ∷ column "action" text false
      ∷ column "params" jsonb true
      ∷ column "status" text false
      ∷ column "result" jsonb true
      ∷ with_default now (column "created_at" date_time false)
      ∷ column "completed_at" date_time true
      ∷ [];
  uniques = [];
  checks = [];
  rows = [];
}

abbrev pub idx_audit_router : Index
idx_audit_router = record {
  name = codes "idx_audit_router";
  table = codes "audit_log";
  column = codes "router_id";
  suffix = none;
  using = none;
  predicate = none;
}

abbrev pub idx_audit_created_at : Index
idx_audit_created_at = record {
  name = codes "idx_audit_created_at";
  table = codes "audit_log";
  column = codes "created_at";
  suffix = (some (codes "DESC"));
  using = none;
  predicate = none;
}

abbrev pub router_backups : Table
router_backups = record {
  name = codes "router_backups";
  columns =
      serial_key "id"
      ∷ references "routers" "id" true (column "router_id" big_integer false)
      ∷ column "kind" text false
      ∷ column "storage_path" text false
      ∷ column "size_bytes" big_integer true
      ∷ column "sha256" text true
      ∷ with_default now (column "taken_at" date_time false)
      ∷ [];
  uniques = [];
  checks = [];
  rows = [];
}

abbrev pub provisioning_secrets : Table
provisioning_secrets = record {
  name = codes "provisioning_secrets";
  columns =
      serial_key "id"
      ∷ column "label" text false
      ∷ column "secret_hash" text false
      ∷ column "status" text false
      ∷ with_default now (column "valid_from" date_time false)
      ∷ column "valid_until" date_time true
      ∷ with_default now (column "created_at" date_time false)
      ∷ [];
  uniques =
      unique "uq_provisioning_secrets_label" (codes "label" ∷ [])
      ∷ unique "uq_provisioning_secrets_secret_hash" (codes "secret_hash" ∷ [])
      ∷ [];
  checks =
      record {
        name = codes "ck_provisioning_secrets_status";
        column = codes "status";
        values = codes "current" ∷ codes "previous" ∷ codes "retired" ∷ [];
      }
      ∷ [];
  rows = [];
}

abbrev pub provisioning_rules : Table
provisioning_rules = record {
  name = codes "provisioning_rules";
  columns =
      serial_key "id"
      ∷ column "priority" integer false
      ∷ column "kind" text false
      ∷ column "pattern" text false
      ∷ column "effect" text false
      ∷ with_default (sql (codes "TRUE")) (column "enabled" boolean false)
      ∷ with_default now (column "created_at" date_time false)
      ∷ [];
  uniques = unique "uq_provisioning_rules_priority" (codes "priority" ∷ []) ∷ [];
  checks =
      record {
        name = codes "ck_provisioning_rules_kind";
        column = codes "kind";
        values = codes "identity_regex" ∷ codes "serial_list" ∷ [];
      }
      ∷ record {
        name = codes "ck_provisioning_rules_effect";
        column = codes "effect";
        values = codes "active" ∷ codes "pending" ∷ codes "quarantined" ∷ [];
      }
      ∷ [];
  rows = [];
}

abbrev pub seed : Row
seed =
    (codes "priority", value (number_cell (pos 10)))
    ∷ (codes "kind", value (text_cell (codes "identity_regex")))
    ∷ (codes "pattern", value (text_cell (codes "^hAP .+ - .+, .+$")))
    ∷ (codes "effect", value (text_cell (codes "active")))
    ∷ (codes "enabled", value (flag_cell true))
    ∷ []

abbrev pub admin_fetch_tokens : Table
admin_fetch_tokens = record {
  name = codes "admin_fetch_tokens";
  columns =
      serial_key "id"
      ∷ column "label" text false
      ∷ column "token_hash" text false
      ∷ column "token_prefix" text false
      ∷ column "issued_by" text true
      ∷ column "expires_at" date_time false
      ∷ column "revoked_at" date_time true
      ∷ with_default (sql (codes "0")) (column "use_count" big_integer false)
      ∷ column "last_used_at" date_time true
      ∷ with_default now (column "created_at" date_time false)
      ∷ [];
  uniques = unique "uq_admin_fetch_tokens_token_hash" (codes "token_hash" ∷ []) ∷ [];
  checks = [];
  rows = [];
}

abbrev pub idx_admin_fetch_tokens_prefix : Index
idx_admin_fetch_tokens_prefix = record {
  name = codes "idx_admin_fetch_tokens_prefix";
  table = codes "admin_fetch_tokens";
  column = codes "token_prefix";
  suffix = none;
  using = none;
  predicate = some (codes "revoked_at IS NULL");
}
