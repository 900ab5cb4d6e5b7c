-- ===== src/Schema/Metadata/Routers.antt =====
-- app/models/router.py as tables.
use mikrotik_cpe_cloud.Base.{true, false, List, [], ◌∷◌, none, some}
use mikrotik_cpe_cloud.Base.Text.{codes}
use mikrotik_cpe_cloud.Schema.{
  small_integer, text, date_time, macaddr, inet, string, now, sql, Index, Table, column,
  with_default, serial_key, unnamed,
}

-- `Router`
abbrev pub router : Table
router = record {
  name = codes "routers";
  columns =
      serial_key "id"
      ∷ column "identity" text false
      ∷ column "serial_number" text false
      ∷ column "mac_address" macaddr false
      ∷ column "model" text true
      ∷ column "ros_version" text true
      ∷ column "ros_major" small_integer true
      ∷ column "wifi_stack" (string 16) true
      ∷ column "uisp_client_id" text true
      ∷ column "uisp_service_id" text true
      ∷ column "uisp_site_id" text true
      ∷ column "linked_airmax_id" text true
      ∷ column "wg_public_key" text true
      ∷ column "wg_overlay_ip" inet true
      ∷ column "enrolled_at" date_time true
      ∷ column "last_seen_at" date_time true
      ∷ with_default (sql (codes "'active'")) (column "status" text false)
      ∷ column "notes" text true
      ∷ with_default now (column "created_at" date_time false)
      ∷ with_default now (column "updated_at" date_time false)
      ∷ [];
  uniques =
      unnamed "identity"
      ∷ unnamed "serial_number"
      ∷ unnamed "mac_address"
      ∷ unnamed "wg_public_key"
      ∷ unnamed "wg_overlay_ip"
      ∷ [];
  checks =
      record {
        name = codes "ck_routers_wifi_stack";
        column = codes "wifi_stack";
        values = codes "wireless" ∷ codes "wifi" ∷ [];
      }
      ∷ record {
        name = codes "ck_routers_status";
        column = codes "status";
        values =
            codes "active" ∷ codes "pending" ∷ codes "decommissioned" ∷ codes "quarantined" ∷ [];
      }
      ∷ [];
  rows = [];
}

abbrev pub router_indexes : List Index
router_indexes =
    record {
      name = codes "idx_routers_uisp_client";
      table = codes "routers";
      column = codes "uisp_client_id";
      suffix = none;
      using = none;
      predicate = some (codes "uisp_client_id IS NOT NULL");
    }
    ∷ record {
      name = codes "idx_routers_last_seen";
      table = codes "routers";
      column = codes "last_seen_at";
      suffix = none;
      using = none;
      predicate = none;
    }
    ∷ record {
      name = codes "idx_routers_status";
      table = codes "routers";
      column = codes "status";
      suffix = none;
      using = none;
      predicate = none;
    }
    ∷ record {
      name = codes "idx_routers_identity_trgm";
      table = codes "routers";
      column = codes "identity";
      suffix = some (codes "gin_trgm_ops");
      using = some (codes "gin");
      predicate = none;
    }
    ∷ []
