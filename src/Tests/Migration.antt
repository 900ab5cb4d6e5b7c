-- ===== src/Tests/Migration.antt =====
-- A database that follows the documentation of the operations.
use mikrotik_cpe_cloud.Base.{Bool, true, [], ◌∷◌, if◌then◌else◌}
use mikrotik_cpe_cloud.Base.Text.{Text, codes}
use mikrotik_cpe_cloud.Schema.{Table, Database, serial_key}
use mikrotik_cpe_cloud.Schema.Ddl.{
  duplicate, undefined, dependent, violation, Outcome, done, failed, Operation, create_extension,
  create_table, create_index, insert, drop_index, drop_table, any_of, names_index, may_create_table,
  may_create_index, may_insert, may_drop_table, with_extension, with_table, with_index, with_row,
  without_index, without_table,
}

abbrev any_macaddr : Text → Bool
any_macaddr s = true

unfoldable apply : Operation → Database → Outcome
apply (create_extension name) db = done (with_extension any_macaddr name db)
apply (create_table t) db =
    if may_create_table any_macaddr t db
    then done (with_table any_macaddr t db)
    else failed duplicate
apply (create_index i) db =
    if may_create_index any_macaddr i db
    then done (with_index any_macaddr i db)
    else failed undefined
apply (insert name row) db =
    if may_insert any_macaddr name row db
    then done (with_row any_macaddr name row db)
    else failed violation
apply (drop_index name table) db =
    if any_of (names_index name) db.indexes
    then done (without_index any_macaddr name db)
    else failed undefined
apply (drop_table name) db =
    if may_drop_table any_macaddr name db
    then done (without_table any_macaddr name db)
    else failed dependent

-- A database with a table of another program.
abbrev other : Table
other = record {
  name = codes "other";
  columns = serial_key "id" ∷ [];
  uniques = [];
  checks = [];
  rows = [];
}

abbrev before : Database
before = record { extensions = []; tables = other ∷ []; indexes = [] }
