-- ===== src/Schema/Metadata/Interface.antt =====
-- app/models/interface.py as tables.
use mikrotik_cpe_cloud.Base.{true, false, [], ◌∷◌}
use mikrotik_cpe_cloud.Base.Text.{codes}
use mikrotik_cpe_cloud.Schema.{
  big_integer, integer, text, boolean, date_time, now, Table, column, with_default, references,
  serial_key, unique,
}

-- `RouterInterface`
abbrev pub router_interface : Table
router_interface = record {
  name = codes "router_interfaces";
  columns =
      serial_key "id"
      ∷ references "routers" "id" true (column "router_id" big_integer false)
      ∷ column "name" text false
      ∷ column "kind" text false
      ∷ column "ssid" text true
      ∷ column "band" text true
      ∷ column "frequency_mhz" integer true
      ∷ column "channel_width" text true
      ∷ column "tx_power_dbm" integer true
      ∷ column "mode" text true
      ∷ column "disabled" boolean true
      ∷ with_default now (column "last_updated" date_time false)
      ∷ [];
  uniques = unique "uq_router_interfaces_router_name" (codes "router_id" ∷ codes "name" ∷ []) ∷ [];
  checks = [];
  rows = [];
}
