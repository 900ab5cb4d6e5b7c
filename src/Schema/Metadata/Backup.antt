-- ===== src/Schema/Metadata/Backup.antt =====
-- app/models/backup.py as tables.
use mikrotik_cpe_cloud.Base.{true, false, [], ◌∷◌}
use mikrotik_cpe_cloud.Base.Text.{codes}
use mikrotik_cpe_cloud.Schema.{
  big_integer, text, date_time, now, Table, column, with_default, references, serial_key,
}

-- `RouterBackup`
abbrev pub router_backup : Table
router_backup = record {
  name = codes "router_backups";
  columns =
      serial_key "id"
      ∷ references "routers" "id" true (column "router_id" big_integer false)
      ∷ column "kind" text false
      ∷ column "storage_path" text false
      ∷ column "size_bytes" big_integer true
      ∷ column "sha256" text true
      ∷ with_default now (column "taken_at" date_time false)
      ∷ [];
  uniques = [];
  checks = [];
  rows = [];
}
