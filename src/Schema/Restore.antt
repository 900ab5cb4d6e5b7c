-- ===== src/Schema/Restore.antt =====
-- The downgrade of alembic/versions/0001_initial_schema.py after its upgrade.
use mikrotik_cpe_cloud.Base.{Bool, List, ◌++◌}
use mikrotik_cpe_cloud.Base.Text.{Text}
use mikrotik_cpe_cloud.Schema.{Table, Index, Database}
use mikrotik_cpe_cloud.Schema.Ddl.{Operation, Outcome, Documented}
use mikrotik_cpe_cloud.Schema.Closed.{IsClosed}

module _ (is_macaddr : Text → Bool) (apply : Operation → Database → Outcome)
    (documented : Documented is_macaddr apply) (db : Database) (closed : IsClosed db) where
  -- The database with some tables and indexes before its own.
  unfoldable stage : List Text → List Table → List Index → Database
  stage extensions tables indexes = record {
    extensions = extensions;
    tables = tables ++ db.tables;
    indexes = indexes ++ db.indexes;
  }
