-- ===== src/Schema/Migrate.antt =====
-- The migration of alembic/versions/0001_initial_schema.py, up and down again, on any database that has
-- none of its names.
use mikrotik_cpe_cloud.Base.{
  ◌≡◌, refl, ap, Bool, true, false, not, ◌&&◌, List, [], ◌∷◌, ◌++◌, All, if◌then◌else◌,
}
use mikrotik_cpe_cloud.Base.Text.{Text, text_eq}
use mikrotik_cpe_cloud.Schema.{Row, Table, Index, Database, has_text}
use mikrotik_cpe_cloud.Schema.Rows.{cell, accepts_columns, accepts_checks, conflicts}
use mikrotik_cpe_cloud.Schema.Ddl.{
  Operation, create_extension, create_table, create_index, insert, Outcome, done, is_taken, any_of,
  every, unique_names, find_table, find_column, insert_into, Documented, run, has_target,
  may_create_index, may_insert, with_table, with_index, with_row, with_extension,
}
use mikrotik_cpe_cloud.Schema.Initial.{
  pg_trgm, upgrade, seed, routers, router_tokens, enrollment_tokens, router_interfaces, audit_log,
  router_backups, provisioning_secrets, provisioning_rules, admin_fetch_tokens,
  idx_routers_uisp_client, idx_routers_last_seen, idx_routers_status, idx_routers_identity_trgm,
  idx_router_tokens_prefix, idx_audit_router, idx_audit_created_at, idx_admin_fetch_tokens_prefix,
}

abbrev pub new_tables : List Table
new_tables =
    admin_fetch_tokens
    ∷ record provisioning_rules { rows = seed ∷ [] }
    ∷ provisioning_secrets
    ∷ router_backups
    ∷ audit_log
    ∷ router_interfaces
    ∷ enrollment_tokens
    ∷ router_tokens
    ∷ routers
    ∷ []

abbrev pub new_indexes : List Index
new_indexes =
    idx_admin_fetch_tokens_prefix ∷ idx_audit_created_at ∷ idx_audit_router
    ∷ idx_router_tokens_prefix ∷ idx_routers_identity_trgm ∷ idx_routers_status
    ∷ idx_routers_last_seen ∷ idx_routers_uisp_client ∷ []

abbrev pub Free : List Text → Database → Type 0
Free names db = All (λ name. is_taken name db ≡ false) names

-- None of the names of the tables, the constraints and the indexes is in use.
abbrev pub HasRoom : Database → Type 0
HasRoom db =
    All (λ t. Free (t.name ∷ unique_names t.uniques) db) new_tables
    × All (λ i. is_taken i.name db ≡ false) new_indexes

-- The database with what the migration adds.
abbrev pub migrated : Database → Database
migrated db = record {
  extensions = if has_text pg_trgm db.extensions then db.extensions else pg_trgm ∷ db.extensions;
  tables = new_tables ++ db.tables;
  indexes = new_indexes ++ db.indexes;
}

module _ (is_macaddr : Text → Bool) (apply : Operation → Database → Outcome)
    (documented : Documented is_macaddr apply) where
  -- The names of a table are free, each by itself.
  none_taken :
      (names : List Text) (db : Database) {b : Bool}
      → Free names db
      → b ≡ true
      → (not (any_of (λ name. is_taken name db) names) && b) ≡ true
  unfolding any_of
  none_taken [] db h e = e
  none_taken (name ∷ names) db (h, hs) e = rw h (none_taken names db hs e)

  table_step :
      (os : List Operation) (t : Table) (db : Database) {r : Outcome}
      → Free (t.name ∷ unique_names t.uniques) db
      → every (has_target (t ∷ db.tables)) t.columns ≡ true
      → run is_macaddr apply os (with_table is_macaddr t db) ≡ r
      → run is_macaddr apply (create_table t ∷ os) db ≡ r
  unfolding run
  table_step os t db h e rest =
      rw (run, documented.table t db (none_taken (t.name ∷ unique_names t.uniques) db h e)) rest

  index_step :
      (os : List Operation) (i : Index) (db : Database) {r : Outcome}
      → may_create_index is_macaddr i db ≡ true
      → run is_macaddr apply os (with_index is_macaddr i db) ≡ r
      → run is_macaddr apply (create_index i ∷ os) db ≡ r
  unfolding run
  index_step os i db e rest = rw (run, documented.index i db e) rest

  row_step :
      (os : List Operation) (name : Text) (row : Row) (db : Database) {r : Outcome}
      → may_insert is_macaddr name row db ≡ true
      → run is_macaddr apply os (with_row is_macaddr name row db) ≡ r
      → run is_macaddr apply (insert name row ∷ os) db ≡ r
  unfolding run
  row_step os name row db e rest = rw (run, documented.row name row db e) rest

  extension_step :
      (os : List Operation) (name : Text) (db : Database) {r : Outcome}
      → run is_macaddr apply os (with_extension is_macaddr name db) ≡ r
      → run is_macaddr apply (create_extension name ∷ os) db ≡ r
  unfolding run
  extension_step os name db rest = rw (run, documented.extension name db) rest

  pub run_end : (db : Database) → run is_macaddr apply [] db ≡ done db
  unfolding run
  run_end db = refl

  -- The migration succeeds on a database that has none of its names, and adds its tables, its indexes
  -- and the row of the provisioning rules to what was there.
  pub upgrade_succeeds :
      (db : Database) → HasRoom db → run is_macaddr apply upgrade db ≡ done (migrated db)
  unfolding is_taken any_of every unique_names find_table find_column insert_into text_eq cell
      accepts_columns accepts_checks conflicts
  upgrade_succeeds db
        (
          (
            admin_fetch_tokens_free,
            (
              provisioning_rules_free,
              (
                provisioning_secrets_free,
                (
                  router_backups_free,
                  (
                    audit_log_free,
                    (
                      router_interfaces_free,
                      (enrollment_tokens_free, (router_tokens_free, (routers_free, _))),
                    ),
                  ),
                ),
              ),
            ),
          ),
          (
            admin_fetch_tokens_prefix_free,
            (
              audit_created_at_free,
              (
                audit_router_free,
                (
                  router_tokens_prefix_free,
                  (
                    routers_identity_trgm_free,
                    (routers_status_free, (routers_last_seen_free, (routers_uisp_client_free, _))),
                  ),
                ),
              ),
            ),
          ),
        ) =
      extension_step _ _ _ (
        table_step _ routers _ routers_free refl (
          index_step _ idx_routers_uisp_client _ (ap not routers_uisp_client_free) (
            index_step _ idx_routers_last_seen _ (ap not routers_last_seen_free) (
              index_step _ idx_routers_status _ (ap not routers_status_free) (
                index_step _ idx_routers_identity_trgm _ (ap not routers_identity_trgm_free) (
                  table_step _ router_tokens _ router_tokens_free refl (
                    index_step _ idx_router_tokens_prefix _ (ap not router_tokens_prefix_free) (
                      table_step _ enrollment_tokens _ enrollment_tokens_free refl (
                        table_step _ router_interfaces _ router_interfaces_free refl (
                          table_step _ audit_log _ audit_log_free refl (
                            index_step _ idx_audit_router _ (ap not audit_router_free) (
                              index_step _ idx_audit_created_at _ (ap not audit_created_at_free) (
                                table_step _ router_backups _ router_backups_free refl (
                                  table_step _ provisioning_secrets _ provisioning_secrets_free refl
                                    (table_step _ provisioning_rules _ provisioning_rules_free refl
                                      (row_step _ _ _ _ refl (
                                        table_step _ admin_fetch_tokens _ admin_fetch_tokens_free
                                          refl
                                          (index_step _ idx_admin_fetch_tokens_prefix _
                                            (ap not admin_fetch_tokens_prefix_free)
                                            (run_end _)))))))))))))))))))
