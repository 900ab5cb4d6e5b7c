-- ===== src/Schema/Ddl.antt =====
-- The operations of alembic that the migration uses. What the database makes of them is a parameter,
-- `apply`, of which `Documented` says when an operation succeeds, and how it changes the catalog.
use mikrotik_cpe_cloud.Base.{
  Bool, true, false, not, ◌&&◌, ◌||◌, List, [], ◌∷◌, ◌≡◌, Option, none, some, if◌then◌else◌, select,
}
use mikrotik_cpe_cloud.Base.Text.{Text, text_eq}
use mikrotik_cpe_cloud.Schema.{ForeignKey, Column, Unique, Index, Row, Table, Database, has_text}
use mikrotik_cpe_cloud.Schema.Rows.{accepts_columns, accepts_checks, conflicts}

-- Why an operation fails: a name is taken, a name is unknown, an object is in use, a row is refused.
pub data DdlError : Type 0 where
  duplicate undefined dependent violation : DdlError

pub data Outcome : Type 0 where
  done : Database → Outcome
  failed : DdlError → Outcome

-- The calls of `op`. `insert` is the INSERT that is executed.
pub data Operation : Type 0 where
  create_extension : Text → Operation
  create_table : Table → Operation
  create_index : Index → Operation
  insert : Text → Row → Operation
  drop_index : Text → Text → Operation
  drop_table : Text → Operation

unfoldable pub find_table : Text → List Table → Option Table
unfolding text_eq
find_table name [] = none
find_table name (t ∷ ts) =
    let later = find_table name ts in if text_eq t.name name then some t else later

unfoldable pub find_column : Text → List Column → Option Column
unfolding text_eq
find_column name [] = none
find_column name (c ∷ cs) =
    let later = find_column name cs in if text_eq c.name name then some c else later

abbrev pub names_table : Text → Table → Bool
names_table name t = text_eq t.name name

abbrev pub names_index : Text → Index → Bool
names_index name i = text_eq i.name name

abbrev pub names_unique : Text → Unique → Bool
names_unique name u = elim u.name [ none ↦ false | some n ↦ text_eq n name ]

unfoldable pub any_of {ℓ} : {A : Type ℓ} → (A → Bool) → List A → Bool
any_of p [] = false
any_of p (a ∷ more) = p a || any_of p more

-- A table, the index of a constraint, or an index has the name.
abbrev pub names_relation : Text → Table → Bool
names_relation name t = names_table name t || any_of (names_unique name) t.uniques

unfoldable pub is_taken : Text → Database → Bool
unfolding any_of text_eq
is_taken name db = any_of (names_relation name) db.tables || any_of (names_index name) db.indexes

-- The names that a table brings with it.
unfoldable pub unique_names : List Unique → List Text
unique_names [] = []
unique_names (u ∷ us) = elim u.name [ none ↦ unique_names us | some n ↦ n ∷ unique_names us ]

-- The key that a foreign key wants: a primary key of a table that is there, or of the table itself.
abbrev pub is_key : Text → Option Table → Bool
is_key column none = false
is_key column (some t) = elim (find_column column t.columns) [
  | none ↦ false
  | some k ↦ k.primary_key
]

abbrev pub key_present : List Table → Option ForeignKey → Bool
key_present tables none = true
key_present tables (some key) = is_key key.column (find_table key.table tables)

abbrev pub has_target : List Table → Column → Bool
has_target tables c = key_present tables c.foreign_key

abbrev pub is_column : Text → List Column → Bool
is_column name columns = elim (find_column name columns) [ none ↦ false | some c ↦ true ]

abbrev pub key_names : Text → Option ForeignKey → Bool
key_names name none = false
key_names name (some key) = text_eq key.table name

abbrev pub refers_to : Text → Column → Bool
refers_to name c = key_names name c.foreign_key

-- A foreign key of a table points to the named one.
abbrev pub depends_on : Text → Table → Bool
depends_on name t = any_of (refers_to name) t.columns

abbrev pub index_of : Text → Index → Bool
index_of table i = text_eq i.table table

unfoldable pub every {ℓ} : {A : Type ℓ} → (A → Bool) → List A → Bool
every p [] = true
every p (a ∷ more) = p a && every p more

module _ (is_macaddr : Text → Bool) where
  abbrev pub accepts : Table → Row → Bool
  accepts t row =
      accepts_columns is_macaddr t.columns row
      && accepts_checks t.checks row
      && not (conflicts t.uniques row t.rows)

  unfoldable pub insert_into : Text → Row → List Table → List Table
  unfolding text_eq
  insert_into name row [] = []
  insert_into name row (t ∷ ts) =
      let later = t ∷ insert_into name row ts in
      if text_eq t.name name then record t { rows = row ∷ t.rows } ∷ ts else later

  abbrev pub with_extension : Text → Database → Database
  with_extension name db = record db {
    extensions = if has_text name db.extensions then db.extensions else name ∷ db.extensions;
  }

  abbrev pub with_table : Table → Database → Database
  with_table t db = record db { tables = t ∷ db.tables }

  abbrev pub with_index : Index → Database → Database
  with_index i db = record db { indexes = i ∷ db.indexes }

  abbrev pub with_row : Text → Row → Database → Database
  with_row name row db = record db { tables = insert_into name row db.tables }

  abbrev pub without_index : Text → Database → Database
  without_index name db = record db { indexes = select (λ i. not (names_index name i)) db.indexes }

  abbrev pub without_table : Text → Database → Database
  without_table name db = record db {
    tables = select (λ t. not (names_table name t)) db.tables;
    indexes = select (λ i. not (index_of name i)) db.indexes;
  }

  -- The names of a table are free, and its foreign keys have their keys.
  abbrev pub may_create_table : Table → Database → Bool
  may_create_table t db =
      not (any_of (λ name. is_taken name db) (t.name ∷ unique_names t.uniques))
      && every (has_target (t ∷ db.tables)) t.columns

  abbrev pub may_create_index : Index → Database → Bool
  may_create_index i db = elim (find_table i.table db.tables) [
    | none ↦ false
    | some t ↦ is_column i.column t.columns && not (is_taken i.name db)
  ]

  abbrev pub may_insert : Text → Row → Database → Bool
  may_insert name row db = elim (find_table name db.tables) [
    | none ↦ false
    | some t ↦ accepts t row
  ]

  -- No other table has a foreign key to the table.
  abbrev pub may_drop_table : Text → Database → Bool
  may_drop_table name db =
      any_of (names_table name) db.tables
      && not (any_of (λ t. depends_on name t && not (names_table name t)) db.tables)

  module _ (apply : Operation → Database → Outcome) where
    pub record Documented : Type 0 where
      pub extension :
          (name : Text) (db : Database)
          → apply (create_extension name) db ≡ done (with_extension name db)
      pub table :
          (t : Table) (db : Database)
          → may_create_table t db ≡ true
          → apply (create_table t) db ≡ done (with_table t db)
      pub index :
          (i : Index) (db : Database)
          → may_create_index i db ≡ true
          → apply (create_index i) db ≡ done (with_index i db)
      pub row :
          (name : Text) (r : Row) (db : Database)
          → may_insert name r db ≡ true
          → apply (insert name r) db ≡ done (with_row name r db)
      pub index_dropped :
          (name table : Text) (db : Database)
          → any_of (names_index name) db.indexes ≡ true
          → apply (drop_index name table) db ≡ done (without_index name db)
      pub table_dropped :
          (name : Text) (db : Database)
          → may_drop_table name db ≡ true
          → apply (drop_table name) db ≡ done (without_table name db)

    -- The calls of a migration, in order.
    unfoldable pub run : List Operation → Database → Outcome
    run [] db = done db
    run (o ∷ os) db = elim (apply o db) [ failed e ↦ failed e | done db' ↦ run os db' ]
