-- ===== src/Schema.antt =====
-- The database schema: app/models and alembic/versions/0001_initial_schema.py. Here are the words in which
-- both describe a table.
pub mod Rows
pub mod Ddl
pub mod Initial
pub mod Migrate
pub mod Closed
pub mod Restore
pub mod Metadata
pub mod Agree
pub mod Constraints
use mikrotik_cpe_cloud.Base.{
  ℕ, Bool, true, false, not, ◌||◌, List, [], ◌∷◌, Option, none, some, String,
}
use mikrotik_cpe_cloud.Base.Text.{Text, text_eq, codes}
use mikrotik_cpe_cloud.Base.Int.{ℤ}
use mikrotik_cpe_cloud.Models.{Inet}

-- The column types of sqlalchemy and of its PostgreSQL dialect that are used.
pub data ColumnType : Type 0 where
  big_integer small_integer integer text boolean date_time macaddr inet jsonb : ColumnType
  string : ℕ → ColumnType

-- `server_default=func.now()` and `server_default=text(…)`.
pub data Default : Type 0 where
  now : Default
  sql : Text → Default

-- `ForeignKey("table.column", ondelete="CASCADE")`
pub record ForeignKey : Type 0 where
  pub table : Text
  pub column : Text
  pub cascade : Bool

pub record Column : Type 0 where
  pub name : Text
  pub type : ColumnType
  pub nullable : Bool
  pub primary_key : Bool
  pub server_default : Option Default
  pub foreign_key : Option ForeignKey

-- A UNIQUE constraint, which `unique=True` leaves without a name.
pub record Unique : Type 0 where
  pub name : Option Text
  pub columns : List Text

-- A constraint `column IN ('value', …)`.
pub record Check : Type 0 where
  pub name : Text
  pub column : Text
  pub values : List Text

-- An index on one column, with an operator class or an order after it.
pub record Index : Type 0 where
  pub name : Text
  pub table : Text
  pub column : Text
  pub suffix : Option Text
  pub using : Option Text
  pub predicate : Option Text

-- The values of a row.
pub data Cell : Type 0 where
  text_cell : Text → Cell
  number_cell : ℤ → Cell
  flag_cell : Bool → Cell
  inet_cell : Inet → Cell
  time_cell : ℕ → Cell

-- What a statement gives for a column: nothing, NULL, or a value.
pub data Given : Type 0 where
  omitted null : Given
  value : Cell → Given

abbrev pub Row : Type 0
Row = List (Text × Given)

pub record Table : Type 0 where
  pub name : Text
  pub columns : List Column
  pub uniques : List Unique
  pub checks : List Check
  pub rows : List Row

-- What a migration changes.
pub record Database : Type 0 where
  pub extensions : List Text
  pub tables : List Table
  pub indexes : List Index

-- `Column(name, type, nullable=…)`
abbrev pub column : String → ColumnType → Bool → Column
column name type nullable = record {
  name = codes name;
  type = type;
  nullable = nullable;
  primary_key = false;
  server_default = none;
  foreign_key = none;
}

abbrev pub with_default : Default → Column → Column
with_default default c = record c { server_default = some default }

abbrev pub references : String → String → Bool → Column → Column
references table key cascade c = record c {
  foreign_key = some (record { table = codes table; column = codes key; cascade = cascade });
}

-- `Column(name, BigInteger(), primary_key=True, autoincrement=True)`
abbrev pub serial_key : String → Column
serial_key name = record (column name big_integer false) { primary_key = true }

-- `UniqueConstraint(*columns, name=name)`
abbrev pub unique : String → List Text → Unique
unique name columns = record { name = some (codes name); columns = columns }

-- `unique=True`
abbrev pub unnamed : String → Unique
unnamed name = record { name = none; columns = codes name ∷ [] }

abbrev pub has_text : Text → List Text → Bool
has_text s [] = false
has_text s (t ∷ ts) = text_eq t s || has_text s ts
