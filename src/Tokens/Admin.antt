-- ===== src/Tokens/Admin.antt =====
-- The life of a fetch token: issued, found until it expires, revoked, listed.
use mikrotik_cpe_cloud.Base.{
  ℕ, ◌+◌, ◌*◌, ◌≡◌, refl, Bool, true, false, not, ◌&&◌, ◌||◌, List, [], ◌∷◌, ◌++◌, Option, none,
  some, arith, ltb, first, select, first-append_none, if◌then◌else◌,
}
use mikrotik_cpe_cloud.Base.Text.{Text, text_eq, text_eq_iff}
use mikrotik_cpe_cloud.Base.Int.{pos}
use mikrotik_cpe_cloud.Models.{AdminFetchToken}
use mikrotik_cpe_cloud.Tokens.{
  prefix_of, hour, find_valid_admin_token, hash_taken, ok, MintedFetchToken,
  issue_admin_fetch_token, revoke_admin_fetch_token, active, order_by_created, summaries,
  list_admin_fetch_tokens,
}
use mikrotik_cpe_cloud.Tokens.Lookup.{passes_admin, find_valid_admin_token-eq-first}

module _ (sha256 : Text → Text) where
  not_taken-first :
      (table : List AdminFetchToken) (now : ℕ) (raw : Text)
      → hash_taken (sha256 raw) table ≡ false
      → first (passes_admin sha256 now raw) table ≡ none
  unfolding first
  not_taken-first [] now raw h = refl
  not_taken-first (row ∷ table) now raw h = ground (arith, not_taken-first table now raw)

  first-new :
      (table : List AdminFetchToken) (row : AdminFetchToken) (later : ℕ) (raw : Text)
      → hash_taken (sha256 raw) table ≡ false
      → row.token_hash ≡ sha256 raw
      → row.token_prefix ≡ prefix_of raw
      → row.revoked_at ≡ none
      → find_valid_admin_token sha256 (table ++ row ∷ []) later raw
        ≡ (if ltb later row.expires_at then some row else none)
  unfolding first
  first-new table row later raw free h p r =
      rw
        (
          find_valid_admin_token-eq-first,
          first-append_none _ table (row ∷ []) (not_taken-first table later raw free),
        )
        (ground (
          arith,
          text_eq_iff row.token_hash (sha256 raw),
          text_eq_iff row.token_prefix (prefix_of raw),
        ))

  module _ (table : List AdminFetchToken) (id created now : ℕ) (random : List ℕ) (label : Text)
      (hours : ℕ) (issued_by : Option Text) (minted : MintedFetchToken)
      (table' : List AdminFetchToken) where
    issued-free :
        issue_admin_fetch_token sha256 table id created now random label (pos hours) issued_by
          ≡ ok (minted, table')
        → (hash_taken (sha256 minted.raw) table ≡ false)
          × (minted.row.token_hash ≡ sha256 minted.raw)
          × (minted.row.token_prefix ≡ prefix_of minted.raw)
          × (minted.row.revoked_at ≡ none)
          × (minted.row.expires_at ≡ now + hours * hour)
          × (table' ≡ table ++ minted.row ∷ [])
    unfolding issue_admin_fetch_token
    issued-free h = ground arith

    -- A fetch token that was issued is found by its raw form from then on until it expires, which is
    -- `ttl_hours` after the time of issue, and no row is found for it from then on.
    pub find-issue :
        issue_admin_fetch_token sha256 table id created now random label (pos hours) issued_by
          ≡ ok (minted, table')
        → (later : ℕ)
        → find_valid_admin_token sha256 table' later minted.raw
          ≡ (if ltb later (now + hours * hour) then some minted.row else none)
    find-issue h later =
        let (free, hash, prefix, live, expires, t) = issued-free h in
        rw (t, ← expires) (first-new table minted.row later minted.raw free hash prefix live)

-- Before the revocation by `ident`: a search that leaves out the rows that `ident` names.
unnamed : (sha256 : Text → Text) → ℕ → Text → Text → AdminFetchToken → Bool
unnamed sha256 now raw ident row =
    passes_admin sha256 now raw row
    && not (text_eq row.label ident || text_eq row.token_prefix ident)

first-revoke :
    (sha256 : Text → Text) (table : List AdminFetchToken) (now later : ℕ) (ident raw : Text)
    → first (passes_admin sha256 later raw) (revoke_admin_fetch_token now ident table).0
      ≡ first (unnamed sha256 later raw ident) table
unfolding first revoke_admin_fetch_token unnamed
first-revoke sha256 [] now later ident raw = refl
first-revoke sha256 (row ∷ table) now later ident raw =
    ground (arith, first-revoke sha256 table now later ident raw)

-- After a revocation by `ident`, a raw token is accepted, at any time, exactly if the table held a
-- valid row for it whose label and prefix are not `ident`; and that row is returned as it was.
pub find-revoke :
    (sha256 : Text → Text) (table : List AdminFetchToken) (now later : ℕ) (ident raw : Text)
    → find_valid_admin_token sha256 (revoke_admin_fetch_token now ident table).0 later raw
      ≡ first
          (λ row.
            passes_admin sha256 later raw row
            && not (text_eq row.label ident || text_eq row.token_prefix ident))
          table
unfolding unnamed
find-revoke sha256 table now later ident raw =
    rw find_valid_admin_token-eq-first (first-revoke sha256 table now later ident raw)

summaries-select :
    (now : ℕ) (rows : List AdminFetchToken)
    → summaries now false rows ≡ select (active now) (summaries now true rows)
unfolding summaries select active
summaries-select now [] = refl
summaries-select now (row ∷ rows) = ground (arith, summaries-select now rows)

-- The default listing is the active part, by `FetchTokenSummary.active`, of the listing of all
-- tokens, in the same order.
pub list-select :
    (now : ℕ) (table : List AdminFetchToken)
    → list_admin_fetch_tokens now false table
      ≡ select (active now) (list_admin_fetch_tokens now true table)
unfolding list_admin_fetch_tokens
list-select now table = summaries-select now (order_by_created table)
