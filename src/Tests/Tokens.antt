-- ===== src/Tests/Tokens.antt =====
-- The token tables.
use mathlib.Core.List.{Permᴰ}
use mikrotik_cpe_cloud.Tokens.Listing.{LatestFirst, is_shown, list-LatestFirst}
use mikrotik_cpe_cloud.Base.{
  map, ℕ, zero, suc, ◌+◌, ◌*◌, ◌^◌, ◌%◌, ◌≤◌, ◌<◌, ◌-◌, ◌≡◌, ◌≢◌, ◌↔◌, ◌⊎◌, inl, inr, refl, sym,
  Bool, true, false, not, ◌&&◌, ◌||◌, List, [], ◌∷◌, ◌++◌, Option, none, some, arith, In, All,
  first, select, length, take, ltb, leb, is_none, if◌then◌else◌,
}
use mikrotik_cpe_cloud.Base.Text.{Text, codes, text_eq, find, starts_with, rstrip}
use mikrotik_cpe_cloud.Base.Int.{pos}
use mikrotik_cpe_cloud.Models.{AdminFetchToken}
use mikrotik_cpe_cloud.Tokens.{
  summary, list_admin_fetch_tokens, find_valid_admin_token, find_valid_router_token,
  issue_admin_fetch_token, MintedFetchToken, revoke_admin_fetch_token, mint_token, Issued,
}
use mikrotik_cpe_cloud.Tokens.Lookup.{
  FindsAdmin, FindsRouter, passes_admin, find_valid_admin_token_lem, find_valid_router_token_lem,
}
use mikrotik_cpe_cloud.Tokens.Admin.{find-revoke}
use mikrotik_cpe_cloud.Tests.Data.{
  hash, fill, owned_token, fetch_row, with_router, raw_beat, raw_fetch,
}

abbrev table : List AdminFetchToken
table = fetch_row ∷ []

find_valid_admin_token_lem_example :
    FindsAdmin hash table 500 raw_fetch (find_valid_admin_token hash table 500 raw_fetch)
find_valid_admin_token_lem_example = find_valid_admin_token_lem hash table 500 raw_fetch

find_valid_router_token_lem_example :
    FindsRouter hash with_router.db.router_tokens raw_beat
      (find_valid_router_token hash with_router.db.router_tokens raw_beat)
find_valid_router_token_lem_example =
    find_valid_router_token_lem hash with_router.db.router_tokens raw_beat

-- What the lookup finds here.
finds_token : find_valid_router_token hash with_router.db.router_tokens raw_beat ≡ some owned_token
unfolding find_valid_router_token text_eq
finds_token = refl

abbrev minted : MintedFetchToken
minted = record {
  raw = codes "BwcHBwcHBwcHBwcHBwcHBwcHBwcHBwcHBwcHBwcHBwc";
  row = record {
    id = 2;
    label = codes "van";
    token_hash = codes "BwcHBwcHBwcHBwcHBwcHBwcHBwcHBwcHBwcHBwcHBwc";
    token_prefix = codes "BwcHBwcH";
    issued_by = none;
    expires_at = 100 + 24 * 3600000000;
    revoked_at = none;
    use_count = 0;
    last_used_at = none;
    created_at = 100;
  };
}

issues_one :
    issue_admin_fetch_token hash table 2 100 100 (fill 48 7) (codes " van ") (pos 24) none
    ≡ Issued.ok (minted, fetch_row ∷ minted.row ∷ [])
unfolding issue_admin_fetch_token mikrotik_cpe_cloud.Base.Text.strip
    mikrotik_cpe_cloud.Base.Text.is_space text_eq mint_token
issues_one = refl

find-revoke_example :
    find_valid_admin_token hash (revoke_admin_fetch_token 600 (codes "bench") table).0 700 raw_fetch
    ≡ first
        (λ row.
          passes_admin hash 700 raw_fetch row
          && not (text_eq row.label (codes "bench") || text_eq row.token_prefix (codes "bench")))
        table
find-revoke_example = find-revoke hash table 600 700 (codes "bench") raw_fetch

abbrev older : AdminFetchToken
older = record fetch_row { id = 2; created_at = 5; revoked_at = some 7 }

list-LatestFirst_example :
    (rows : List AdminFetchToken) × Permᴰ (older ∷ fetch_row ∷ []) rows
    × LatestFirst rows
    × (list_admin_fetch_tokens 500 true (older ∷ fetch_row ∷ [])
        ≡ map summary (select (is_shown 500 true) rows))
list-LatestFirst_example = list-LatestFirst 500 true (older ∷ fetch_row ∷ [])
