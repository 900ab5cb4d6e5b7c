-- ===== src/Schema/Metadata/Secrets.antt =====
-- app/models/secret.py as tables.
use mikrotik_cpe_cloud.Base.{true, false, List, [], ◌∷◌, none, some}
use mikrotik_cpe_cloud.Base.Text.{codes}
use mikrotik_cpe_cloud.Schema.{
  big_integer, integer, text, boolean, date_time, now, sql, Index, Table, column, with_default,
  serial_key, unique, unnamed,
}

-- `ProvisioningSecret`
abbrev pub provisioning_secret : Table
provisioning_secret = record {
  name = codes "provisioning_secrets";
  columns =
      serial_key "id"
      ∷ column "label" text false
      ∷ column "secret_hash" text false
      ∷ column "status" text false
      ∷ with_default now (column "valid_from" date_time false)
      ∷ column "valid_until" date_time true
      ∷ with_default now (column "created_at" date_time false)
      ∷ [];
  uniques = unnamed "label" ∷ unnamed "secret_hash" ∷ [];
  checks =
      record {
        name = codes "ck_provisioning_secrets_status";
        column = codes "status";
        values = codes "current" ∷ codes "previous" ∷ codes "retired" ∷ [];
      }
      ∷ [];
  rows = [];
}

-- `ProvisioningRule`
abbrev pub provisioning_rule : Table
provisioning_rule = record {
  name = codes "provisioning_rules";
  columns =
      serial_key "id"
      ∷ column "priority" integer false
      ∷ column "kind" text false
      ∷ column "pattern" text false
      ∷ column "effect" text false
      ∷ with_default (sql (codes "TRUE")) (column "enabled" boolean false)
      ∷ with_default now (column "created_at" date_time false)
      ∷ [];
  uniques = unique "uq_provisioning_rules_priority" (codes "priority" ∷ []) ∷ [];
  checks =
      record {
        name = codes "ck_provisioning_rules_kind";
        column = codes "kind";
        values = codes "identity_regex" ∷ codes "serial_list" ∷ [];
      }
      ∷ record {
        name = codes "ck_provisioning_rules_effect";
        column = codes "effect";
        values = codes "active" ∷ codes "pending" ∷ codes "quarantined" ∷ [];
      }
      ∷ [];
  rows = [];
}

-- `AdminFetchToken`
abbrev pub admin_fetch_token : Table
admin_fetch_token = record {
  name = codes "admin_fetch_tokens";
  columns =
      serial_key "id"
      ∷ column "label" text false
      ∷ column "token_hash" text false
      ∷ column "token_prefix" text false
      ∷ column "issued_by" text true
      ∷ column "expires_at" date_time false
      ∷ column "revoked_at" date_time true
      ∷ with_default (sql (codes "0")) (column "use_count" big_integer false)
      ∷ column "last_used_at" date_time true
      ∷ with_default now (column "created_at" date_time false)
      ∷ [];
  uniques = unnamed "token_hash" ∷ [];
  checks = [];
  rows = [];
}

abbrev pub admin_fetch_token_indexes : List Index
admin_fetch_token_indexes =
    record {
      name = codes "idx_admin_fetch_tokens_prefix";
      table = codes "admin_fetch_tokens";
      column = codes "token_prefix";
      suffix = none;
      using = none;
      predicate = some (codes "revoked_at IS NULL");
    }
    ∷ []
