-- ===== src/Schema/Metadata/Tokens.antt =====
-- app/models/token.py as tables.
use mikrotik_cpe_cloud.Base.{true, false, List, [], ◌∷◌, none, some}
use mikrotik_cpe_cloud.Base.Text.{codes}
use mikrotik_cpe_cloud.Schema.{
  big_integer, text, date_time, now, Index, Table, column, with_default, references, serial_key,
  unnamed,
}

-- `RouterToken`
abbrev pub router_token : Table
router_token = record {
  name = codes "router_tokens";
  columns =
      serial_key "id"
      ∷ references "routers" "id" true (column "router_id" big_integer false)
      ∷ column "token_hash" text false
      ∷ column "token_prefix" text false
      ∷ with_default now (column "created_at" date_time false)
      ∷ column "revoked_at" date_time true
      ∷ [];
  uniques = [];
  checks = [];
  rows = [];
}

abbrev pub router_token_indexes : List Index
router_token_indexes =
    record {
      name = codes "idx_router_tokens_prefix";
      table = codes "router_tokens";
      column = codes "token_prefix";
      suffix = none;
      using = none;
      predicate = some (codes "revoked_at IS NULL");
    }
    ∷ []

-- `EnrollmentToken`
abbrev pub enrollment_token : Table
enrollment_token = record {
  name = codes "enrollment_tokens";
  columns =
      serial_key "id"
      ∷ column "token_hash" text false
      ∷ column "issued_by" text true
      ∷ column "expires_at" date_time false
      ∷ column "used_at" date_time true
      ∷ references "routers" "id" false (column "used_by_router_id" big_integer true)
      ∷ with_default now (column "created_at" date_time false)
      ∷ [];
  uniques = unnamed "token_hash" ∷ [];
  checks = [];
  rows = [];
}
