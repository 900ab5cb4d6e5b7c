-- ===== src/Schema/Agree.antt =====
-- The tables that alembic/versions/0001_initial_schema.py makes are those of app/models.
use mikrotik_cpe_cloud.Base.{List, [], none, In, map}
use mikrotik_cpe_cloud.Base.Text.{Text}
use mikrotik_cpe_cloud.Schema.{Table, Unique}

abbrev pub nameless : Unique → Unique
nameless u = record { name = none; columns = u.columns }

-- What a table is: its columns and its constraints, but not the names of the UNIQUE constraints, nor
-- its rows.
abbrev pub described : Table → Table
described t = record t { uniques = map nameless t.uniques; rows = [] }

-- The same tables, in any order.
abbrev pub DescribedIn : List Table → Table → Type 0
DescribedIn tables t = In (described t) (map described tables)
