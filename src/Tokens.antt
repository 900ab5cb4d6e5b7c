-- ===== src/Tokens.antt =====
-- app/services/tokens.py: the primitives and the operations on the token tables. `sha256` is the
-- hex digest of the UTF-8 encoding of a text; random bytes and the time are arguments.
pub mod Mint
pub mod Lookup
pub mod Admin
pub mod Listing
use mikrotik_cpe_cloud.Base.{
  ℕ, zero, suc, ◌+◌, ◌*◌, Bool, true, false, not, ◌&&◌, ◌||◌, List, [], ◌∷◌, ◌++◌, Option, none,
  some, ltb, leb, is_none, length, take, select, first, if◌then◌else◌,
}
use mikrotik_cpe_cloud.Base.Text.{Text, text_eq, strip}
use mikrotik_cpe_cloud.Base.Int.{ℤ, pos, negsuc}
use mikrotik_cpe_cloud.Models.{RouterToken, AdminFetchToken}
use mikrotik_cpe_cloud.Base64.{token_urlsafe}

abbrev pub token_bytes : ℕ
token_bytes = 32

abbrev pub telemetry_token_bytes : ℕ
telemetry_token_bytes = 48

abbrev pub prefix_len : ℕ
prefix_len = 8

-- `mint_token` and `mint_telemetry_token`, on the random bytes that `secrets` draws.
unfoldable pub mint_token : List ℕ → Text
unfolding token_urlsafe
mint_token random = token_urlsafe (take token_bytes random)

unfoldable pub mint_telemetry_token : List ℕ → Text
unfolding token_urlsafe
mint_telemetry_token random = token_urlsafe (take telemetry_token_bytes random)

abbrev pub prefix_of : Text → Text
prefix_of raw = take prefix_len raw

-- `timedelta(hours=1)` in microseconds.
abbrev pub hour : ℕ
hour = 3600000000

-- What an operation that raises returns.
pub data Issued {ℓ} (A : Type ℓ) : Type ℓ where
  ok : A → Issued A
  ttl_not_positive : Issued A
  label_missing : Issued A
  integrity_error : Issued A

pub record MintedFetchToken : Type 0 where
  pub raw : Text
  pub row : AdminFetchToken

abbrev pub positive : ℤ → Option ℕ
positive (pos zero) = none
positive (pos (suc n)) = some (suc n)
positive (negsuc n) = none

-- The WHERE clause of `find_valid_admin_token`.
abbrev pub is_admin_candidate : ℕ → Text → AdminFetchToken → Bool
is_admin_candidate now raw row =
    text_eq row.token_prefix (prefix_of raw) && is_none row.revoked_at && ltb now row.expires_at

-- The WHERE clause of `find_valid_router_token`.
abbrev pub is_router_candidate : Text → RouterToken → Bool
is_router_candidate raw row = text_eq row.token_prefix (prefix_of raw) && is_none row.revoked_at

-- The UNIQUE constraint on `token_hash`.
abbrev pub hash_taken : Text → List AdminFetchToken → Bool
hash_taken h [] = false
hash_taken h (row ∷ table) = text_eq row.token_hash h || hash_taken h table

module _ (sha256 : Text → Text) where
  abbrev pub hash_token : Text → Text
  hash_token raw = sha256 raw

  -- `secrets.compare_digest` is equality; its timing is not modelled.
  abbrev pub verify_token : Text → Text → Bool
  verify_token raw expected_hash = text_eq (hash_token raw) expected_hash

  unfoldable pub find_valid_admin_token : List AdminFetchToken → ℕ → Text → Option AdminFetchToken
  unfolding select first
  find_valid_admin_token table now raw =
      let rows = select (is_admin_candidate now raw) table in
      let expected_hash = hash_token raw in first (λ row. text_eq row.token_hash expected_hash) rows

  unfoldable pub find_valid_router_token : List RouterToken → Text → Option RouterToken
  unfolding select first
  find_valid_router_token table raw =
      let rows = select (is_router_candidate raw) table in
      let expected_hash = hash_token raw in
      if ltb (length raw) prefix_len
      then none
      else first (λ row. text_eq row.token_hash expected_hash) rows

  -- `issue_admin_fetch_token`; the result is the minted token and the table after the flush. `id` is
  -- the next primary key, and `created` the database's time for `created_at`.
  unfoldable pub issue_admin_fetch_token :
      List AdminFetchToken
      → ℕ
      → ℕ
      → ℕ
      → List ℕ
      → Text
      → ℤ
      → Option Text
      → Issued (MintedFetchToken × List AdminFetchToken)
  issue_admin_fetch_token table id created now random label ttl_hours issued_by =
      elim (positive ttl_hours) [
        | none ↦ ttl_not_positive
        | some hours ↦ elim (strip label) [
          | [] ↦ label_missing
          | c ∷ rest ↦
              let raw = mint_token random in
              let row : AdminFetchToken = record {
                id = id;
                label = c ∷ rest;
                token_hash = hash_token raw;
                token_prefix = prefix_of raw;
                issued_by = issued_by;
                expires_at = now + hours * hour;
                revoked_at = none;
                use_count = 0;
                last_used_at = none;
                created_at = created;
              } in
              if hash_taken (hash_token raw) table
              then integrity_error
              else ok (record { raw = raw; row = row }, table ++ row ∷ [])
        ]
      ]

-- The WHERE clause of `revoke_admin_fetch_token`.
abbrev pub is_revocable : Text → AdminFetchToken → Bool
is_revocable ident row =
    is_none row.revoked_at && (text_eq row.label ident || text_eq row.token_prefix ident)

-- `revoke_admin_fetch_token`: the table with the rows that are found revoked, and their number.
unfoldable pub revoke_admin_fetch_token : ℕ → Text → List AdminFetchToken → List AdminFetchToken × ℕ
revoke_admin_fetch_token now ident [] = ([], 0)
revoke_admin_fetch_token now ident (row ∷ table) =
    let (rest, n) = revoke_admin_fetch_token now ident table in
    if is_revocable ident row
    then (record row { revoked_at = some now } ∷ rest, n + 1)
    else (row ∷ rest, n)

pub record FetchTokenSummary : Type 0 where
  pub id : ℕ
  pub label : Text
  pub prefix : Text
  pub issued_by : Option Text
  pub expires_at : ℕ
  pub revoked_at : Option ℕ
  pub use_count : ℕ
  pub last_used_at : Option ℕ

-- `FetchTokenSummary.active`
unfoldable pub active : ℕ → FetchTokenSummary → Bool
active now s = is_none s.revoked_at && ltb now s.expires_at

abbrev pub summary : AdminFetchToken → FetchTokenSummary
summary row = record {
  id = row.id;
  label = row.label;
  prefix = row.token_prefix;
  issued_by = row.issued_by;
  expires_at = row.expires_at;
  revoked_at = row.revoked_at;
  use_count = row.use_count;
  last_used_at = row.last_used_at;
}

-- `ORDER BY created_at DESC`; rows created at one time keep the table's order.
insert_by_created : AdminFetchToken → List AdminFetchToken → List AdminFetchToken
insert_by_created row [] = row ∷ []
insert_by_created row (r ∷ rows) =
    if leb r.created_at row.created_at then row ∷ r ∷ rows else r ∷ insert_by_created row rows

unfoldable pub order_by_created : List AdminFetchToken → List AdminFetchToken
unfolding insert_by_created
order_by_created [] = []
order_by_created (row ∷ rows) = insert_by_created row (order_by_created rows)

-- The loop of `list_admin_fetch_tokens`.
unfoldable pub summaries : ℕ → Bool → List AdminFetchToken → List FetchTokenSummary
summaries now include_inactive [] = []
summaries now include_inactive (row ∷ rows) =
    let is_active = is_none row.revoked_at && ltb now row.expires_at in
    let out = summaries now include_inactive rows in
    if not is_active && not include_inactive then out else summary row ∷ out

unfoldable pub list_admin_fetch_tokens : ℕ → Bool → List AdminFetchToken → List FetchTokenSummary
unfolding order_by_created summaries
list_admin_fetch_tokens now include_inactive table =
    summaries now include_inactive (order_by_created table)
