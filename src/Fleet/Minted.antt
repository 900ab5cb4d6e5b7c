-- ===== src/Fleet/Minted.antt =====
-- A telemetry token that has just been minted is found.
use mikrotik_cpe_cloud.Base.{
  ℕ, ◌≤◌, ◌≡◌, ◌≢◌, refl, List, [], ◌∷◌, ◌++◌, none, some, arith, All, first, first-append_none,
  length, ==_refl,
}
use mikrotik_cpe_cloud.Base.Text.{Text, text_eq_iff, text_eq_refl}
use mikrotik_cpe_cloud.Models.{Db, Router, RouterToken}
use mikrotik_cpe_cloud.Tokens.{hash_token, prefix_of, prefix_len, find_valid_router_token}
use mikrotik_cpe_cloud.Tokens.Lookup.{passes_router, find_valid_router_token-eq-first}
use mikrotik_cpe_cloud.Server.{get_router}
use mikrotik_cpe_cloud.AutoEnroll.Rows.{revoke_router_tokens}
use mikrotik_cpe_cloud.AutoEnroll.Flush.{Surroundings, add_token}

-- No token of the table has the hash of this raw token.
abbrev pub Fresh : (Text → Text) → Text → List RouterToken → Type 0
Fresh sha256 raw table = All (λ t. t.token_hash ≢ sha256 raw) table

pub Fresh-revoke :
    (sha256 : Text → Text) (raw : Text) (now id : ℕ) (ts : List RouterToken)
    → Fresh sha256 raw ts
    → Fresh sha256 raw (revoke_router_tokens now id ts)
unfolding revoke_router_tokens
Fresh-revoke sha256 raw now id [] h = tt
Fresh-revoke sha256 raw now id (t ∷ ts) (h, hs) =
    (ground (arith, h), Fresh-revoke sha256 raw now id ts hs)

Fresh-first :
    (sha256 : Text → Text) (raw : Text) (ts : List RouterToken)
    → Fresh sha256 raw ts
    → first (passes_router sha256 raw) ts ≡ none
unfolding first
Fresh-first sha256 raw [] h = refl
Fresh-first sha256 raw (t ∷ ts) (h, hs) =
    ground (arith, h, text_eq_iff t.token_hash (sha256 raw), Fresh-first sha256 raw ts hs)

-- A row with a key that no other row has.
pub get_router-append :
    (row : Router) (rs : List Router)
    → All (λ r. r.id ≢ row.id) rs
    → get_router row.id (rs ++ row ∷ []) ≡ some row
unfolding get_router first
get_router-append row [] h = rw (==_refl row.id) refl
get_router-append row (r ∷ rs) (h, hs) = ground (arith, h, get_router-append row rs hs)

-- The token that was just minted is found.
pub find_valid_router_token-add_token :
    (sha256 : Text → Text) (around : Surroundings) (raw : Text) (router_id : ℕ) (db : Db)
    → Fresh sha256 raw db.router_tokens
    → prefix_len ≤ length raw
    → (t : RouterToken) × (find_valid_router_token sha256
          (add_token sha256 around raw router_id db).router_tokens
          raw
        ≡ some t)
      × (t.router_id ≡ router_id)
unfolding add_token first
find_valid_router_token-add_token sha256 around raw router_id db fresh long = (
  record {
    id = db.next_router_token;
    router_id = router_id;
    token_hash = hash_token sha256 raw;
    token_prefix = prefix_of raw;
    created_at = around.stored;
    revoked_at = none;
  },
  rw
      (
        find_valid_router_token-eq-first,
        first-append_none _ db.router_tokens _ (Fresh-first sha256 raw db.router_tokens fresh),
      )
      (ground (arith, text_eq_refl (sha256 raw), text_eq_refl (prefix_of raw))),
  refl,
)
