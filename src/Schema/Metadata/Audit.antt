-- ===== src/Schema/Metadata/Audit.antt =====
-- app/models/audit.py as tables.
use mikrotik_cpe_cloud.Base.{true, false, List, [], ◌∷◌, none, some}
use mikrotik_cpe_cloud.Base.Text.{codes}
use mikrotik_cpe_cloud.Schema.{
  big_integer, text, date_time, jsonb, now, Index, Table, column, with_default, references,
  serial_key,
}

-- `AuditLog`
abbrev pub audit_log : Table
audit_log = record {
  name = codes "audit_log";
  columns =
      serial_key "id"
      ∷ references "routers" "id" false (column "router_id" big_integer true)
      ∷ column "actor" text false
      ∷ column "action" text false
      ∷ column "params" jsonb true
      ∷ column "status" text false
      ∷ column "result" jsonb true
      ∷ with_default now (column "created_at" date_time false)
      ∷ column "completed_at" date_time true
      ∷ [];
  uniques = [];
  checks = [];
  rows = [];
}

abbrev pub audit_log_indexes : List Index
audit_log_indexes =
    record {
      name = codes "idx_audit_router";
      table = codes "audit_log";
      column = codes "router_id";
      suffix = none;
      using = none;
      predicate = none;
    }
    ∷ record {
      name = codes "idx_audit_created_at";
      table = codes "audit_log";
      column = codes "created_at";
      suffix = some (codes "DESC");
      using = none;
      predicate = none;
    }
    ∷ []
