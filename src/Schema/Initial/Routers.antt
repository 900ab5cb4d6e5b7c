-- ===== src/Schema/Initial/Routers.antt =====
-- alembic/versions/0001_initial_schema.py: the routers and their tokens.
use mikrotik_cpe_cloud.Base.{true, false, [], ◌∷◌, none, some}
use mikrotik_cpe_cloud.Base.Text.{codes}
use mikrotik_cpe_cloud.Schema.{
  big_integer, small_integer, text, date_time, macaddr, inet, string, now, sql, Index, Table,
  column, with_default, references, serial_key, unique,
}

abbrev pub routers : Table
routers = record {
  name = codes "routers";
  columns =
      serial_key "id"
      ∷ column "identity" text false
      ∷ column "serial_number" text false
      ∷ column "mac_address" macaddr false
      ∷ column "model" text true
      ∷ column "ros_version" text true
      ∷ column "ros_major" small_integer true
      ∷ column "wifi_stack" (string 16) true
      ∷ column "uisp_client_id" text true
      ∷ column "uisp_service_id" text true
      ∷ column "uisp_site_id" text true
      ∷ column "linked_airmax_id" text true
      ∷ column "wg_public_key" text true
      ∷ column "wg_overlay_ip" inet true
      ∷ column "enrolled_at" date_time true
      ∷ column "last_seen_at" date_time true
      ∷ with_default (sql (codes "'active'")) (column "status" text false)
      ∷ column "notes" text true
      ∷ with_default now (column "created_at" date_time false)
      ∷ with_default now (column "updated_at" date_time false)
      ∷ [];
  uniques =
      unique "uq_routers_identity" (codes "identity" ∷ [])
      ∷ unique "uq_routers_serial_number" (codes "serial_number" ∷ [])
      ∷ unique "uq_routers_mac_address" (codes "mac_address" ∷ [])
      ∷ unique "uq_routers_wg_public_key" (codes "wg_public_key" ∷ [])
      ∷ unique "uq_routers_wg_overlay_ip" (codes "wg_overlay_ip" ∷ [])
      ∷ [];
  checks =
      record {
        name = codes "ck_routers_wifi_stack";
        column = codes "wifi_stack";
        values = codes "wireless" ∷ codes "wifi" ∷ [];
      }
      ∷ record {
        name = codes "ck_routers_status";
        column = codes "status";
        values =
            codes "active" ∷ codes "pending" ∷ codes "decommissioned" ∷ codes "quarantined" ∷ [];
      }
      ∷ [];
  rows = [];
}

abbrev pub idx_routers_uisp_client : Index
idx_routers_uisp_client = record {
  name = codes "idx_routers_uisp_client";
  table = codes "routers";
  column = codes "uisp_client_id";
  suffix = none;
  using = none;
  predicate = some (codes "uisp_client_id IS NOT NULL");
}

abbrev pub idx_routers_last_seen : Index
idx_routers_last_seen = record {
  name = codes "idx_routers_last_seen";
  table = codes "routers";
  column = codes "last_seen_at";
  suffix = none;
  using = none;
  predicate = none;
}

abbrev pub idx_routers_status : Index
idx_routers_status = record {
  name = codes "idx_routers_status";
  table = codes "routers";
  column = codes "status";
  suffix = none;
  using = none;
  predicate = none;
}

abbrev pub idx_routers_identity_trgm : Index
idx_routers_identity_trgm = record {
  name = codes "idx_routers_identity_trgm";
  table = codes "routers";
  column = codes "identity";
  suffix = some (codes "gin_trgm_ops");
  using = some (codes "gin");
  predicate = none;
}

abbrev pub router_tokens : Table
router_tokens = record {
  name = codes "router_tokens";
  columns =
      serial_key "id"
      ∷ references "routers" "id" true (column "router_id" big_integer false)
      ∷ column "token_hash" text false
      ∷ column "token_prefix" text false
      ∷ with_default now (column "created_at" date_time false)
      ∷ column "revoked_at" date_time true
      ∷ [];
  uniques = [];
  checks = [];
  rows = [];
}

abbrev pub idx_router_tokens_prefix : Index
idx_router_tokens_prefix = record {
  name = codes "idx_router_tokens_prefix";
  table = codes "router_tokens";
  column = codes "token_prefix";
  suffix = none;
  using = none;
  predicate = some (codes "revoked_at IS NULL");
}

abbrev pub enrollment_tokens : Table
enrollment_tokens = record {
  name = codes "enrollment_tokens";
  columns =
      serial_key "id"
      ∷ column "token_hash" text false
      ∷ column "issued_by" text true
      ∷ column "expires_at" date_time false
      ∷ column "used_at" date_time true
      ∷ references "routers" "id" false (column "used_by_router_id" big_integer true)
      ∷ with_default now (column "created_at" date_time false)
      ∷ [];
  uniques = unique "uq_enrollment_tokens_token_hash" (codes "token_hash" ∷ []) ∷ [];
  checks = [];
  rows = [];
}
