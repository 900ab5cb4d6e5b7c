-- ===== src/Tokens/Lookup.antt =====
-- The two token lookups find a valid row exactly where there is one.
use mikrotik_cpe_cloud.Base.{
  ℕ, ◌≤◌, ◌<◌, ◌≡◌, refl, sym, inl, inr, ◌↔◌, Bool, true, false, ◌&&◌, List, [], ◌∷◌, Option, none,
  some, arith, ltb, length, In, All, All-map, first, first_sound, first-eq-none, first-select,
  Bool-cases, if◌then◌else◌,
}
use mikrotik_cpe_cloud.Base.Text.{Text, text_eq, text_eq_iff}
use mikrotik_cpe_cloud.Models.{RouterToken, AdminFetchToken}
use mikrotik_cpe_cloud.Tokens.{
  hash_token, prefix_of, prefix_len, find_valid_admin_token, find_valid_router_token,
  is_admin_candidate, is_router_candidate,
}

module _ (sha256 : Text → Text) where
  -- A fetch token that opens the installer at time `now`.
  pub record IsValidAdmin (now : ℕ) (raw : Text) (row : AdminFetchToken) : Type 0 where
    pub hash_matches : row.token_hash ≡ sha256 raw
    pub prefix_matches : row.token_prefix ≡ prefix_of raw
    pub not_revoked : row.revoked_at ≡ none
    pub not_expired : now < row.expires_at

  -- A telemetry token that authenticates.
  pub record IsValidRouter (raw : Text) (row : RouterToken) : Type 0 where
    pub long_enough : prefix_len ≤ length raw
    pub hash_matches : row.token_hash ≡ sha256 raw
    pub prefix_matches : row.token_prefix ≡ prefix_of raw
    pub not_revoked : row.revoked_at ≡ none

  abbrev pub passes_admin : ℕ → Text → AdminFetchToken → Bool
  passes_admin now raw row =
      is_admin_candidate now raw row && text_eq row.token_hash (hash_token sha256 raw)

  pub find_valid_admin_token-eq-first :
      (table : List AdminFetchToken) (now : ℕ) (raw : Text)
      → find_valid_admin_token sha256 table now raw ≡ first (passes_admin now raw) table
  unfolding find_valid_admin_token
  find_valid_admin_token-eq-first table now raw = first-select _ _ table

  pub passes_admin_sound :
      (now : ℕ) (raw : Text) (row : AdminFetchToken)
      → passes_admin now raw row ≡ true
      → IsValidAdmin now raw row
  passes_admin_sound now raw row h =
      ground (
        arith,
        text_eq_iff row.token_prefix (prefix_of raw),
        text_eq_iff row.token_hash (sha256 raw),
      )

  pub passes_admin_complete :
      (now : ℕ) (raw : Text) (row : AdminFetchToken)
      → IsValidAdmin now raw row
      → passes_admin now raw row ≡ true
  passes_admin_complete now raw row v =
      ground (
        arith,
        text_eq_iff row.token_prefix (prefix_of raw),
        text_eq_iff row.token_hash (sha256 raw),
      )

  -- A search returns a valid row of the table, or there is none.
  abbrev pub FindsAdmin : List AdminFetchToken → ℕ → Text → Option AdminFetchToken → Type 0
  FindsAdmin table now raw none = All (λ row. ¬ IsValidAdmin now raw row) table
  FindsAdmin table now raw (some row) = IsValidAdmin now raw row × In row table

  first-FindsAdmin :
      (table : List AdminFetchToken) (now : ℕ) (raw : Text) (found : Option AdminFetchToken)
      → first (passes_admin now raw) table ≡ found
      → FindsAdmin table now raw found
  first-FindsAdmin table now raw none h =
      All-map _ _ (λ row e v. cc (passes_admin_complete now raw row v, e)) table
        (first-eq-none (passes_admin now raw) table h)
  first-FindsAdmin table now raw (some row) h =
      let (p, m) = first_sound (passes_admin now raw) table {x = row} h in
      (passes_admin_sound now raw row p, m)

  -- `find_valid_admin_token` returns a row of the table whose hash and prefix are those of the raw
  -- token, that is not revoked and that has not expired; and where it returns none, no row of the
  -- table is all of these.
  pub find_valid_admin_token_lem :
      (table : List AdminFetchToken) (now : ℕ) (raw : Text)
      → FindsAdmin table now raw (find_valid_admin_token sha256 table now raw)
  find_valid_admin_token_lem table now raw =
      first-FindsAdmin table now raw _ (sym (find_valid_admin_token-eq-first table now raw))

  abbrev pub passes_router : Text → RouterToken → Bool
  passes_router raw row =
      is_router_candidate raw row && text_eq row.token_hash (hash_token sha256 raw)

  pub find_valid_router_token-eq-first :
      (table : List RouterToken) (raw : Text)
      → find_valid_router_token sha256 table raw
        ≡ (if ltb (length raw) prefix_len then none else first (passes_router raw) table)
  unfolding find_valid_router_token
  find_valid_router_token-eq-first table raw =
      rw (first-select (λ row. text_eq row.token_hash (sha256 raw)) (is_router_candidate raw))

  pub passes_router_iff :
      (raw : Text) (row : RouterToken)
      → ltb (length raw) prefix_len ≡ false
      → (passes_router raw row ≡ true) ↔ IsValidRouter raw row
  passes_router_iff raw row h = (
    λ e. ground (
      arith,
      text_eq_iff row.token_prefix (prefix_of raw),
      text_eq_iff row.token_hash (sha256 raw),
    ),
    λ v. ground (
      arith,
      text_eq_iff row.token_prefix (prefix_of raw),
      text_eq_iff row.token_hash (sha256 raw),
    ),
  )

  abbrev pub FindsRouter : List RouterToken → Text → Option RouterToken → Type 0
  FindsRouter table raw none = All (λ row. ¬ IsValidRouter raw row) table
  FindsRouter table raw (some row) = IsValidRouter raw row × In row table

  short-FindsRouter :
      (table : List RouterToken) (raw : Text)
      → ltb (length raw) prefix_len ≡ true
      → All (λ row. ¬ IsValidRouter raw row) table
  short-FindsRouter [] raw h = tt
  short-FindsRouter (row ∷ table) raw h =
      (λ v. absurd (ground arith), short-FindsRouter table raw h)

  first-FindsRouter :
      (table : List RouterToken) (raw : Text) (found : Option RouterToken)
      → ltb (length raw) prefix_len ≡ false
      → first (passes_router raw) table ≡ found
      → FindsRouter table raw found
  first-FindsRouter table raw none l h =
      All-map _ _ (λ row e v. cc ((passes_router_iff raw row l).1 v, e)) table
        (first-eq-none (passes_router raw) table h)
  first-FindsRouter table raw (some row) l h =
      let (p, m) = first_sound (passes_router raw) table {x = row} h in
      ((passes_router_iff raw row l).0 p, m)

  -- `find_valid_router_token` returns a row of the table whose hash and prefix are those of the raw
  -- token and that is not revoked, for a raw token of at least 8 characters; and where it returns
  -- none, the raw token is shorter or no row of the table is all of these.
  pub find_valid_router_token_lem :
      (table : List RouterToken) (raw : Text)
      → FindsRouter table raw (find_valid_router_token sha256 table raw)
  find_valid_router_token_lem table raw =
      rw find_valid_router_token-eq-first (elim (Bool-cases (ltb (length raw) prefix_len)) [
        | inl e ↦ rw e (short-FindsRouter table raw e)
        | inr e ↦ rw e (first-FindsRouter table raw _ e refl)
      ])
