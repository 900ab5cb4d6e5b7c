-- ===== src/Cli/Revoke.antt =====
-- The exit status of a revocation, and the statuses that a listing shows.
use mikrotik_cpe_cloud.Base.{
  ℕ, ◌≡◌, ◌↔◌, refl, ◌∙◌, ◌⊎◌, inl, inr, Bool, true, false, List, [], ◌∷◌, arith, All, All-map,
  select, Bool-cases,
}
use mikrotik_cpe_cloud.Base.Text.{Text, codes}
use mikrotik_cpe_cloud.Models.{AdminFetchToken}
use mikrotik_cpe_cloud.Tokens.{
  is_revocable, revoke_admin_fetch_token, active, FetchTokenSummary, list_admin_fetch_tokens,
}
use mikrotik_cpe_cloud.Tokens.Admin.{list-select}
use mikrotik_cpe_cloud.Cli.{ft_revoke, status_of}

-- The revocation finds no row exactly if no row can be revoked, and then changes nothing.
revoke_none :
    (now : ℕ) (ident : Text) (table : List AdminFetchToken)
    → (revoke_admin_fetch_token now ident table).1 ≡ 0
    → All (λ row. is_revocable ident row ≡ false) table
      × ((revoke_admin_fetch_token now ident table).0 ≡ table)
unfolding revoke_admin_fetch_token
revoke_none now ident [] h = (tt, refl)
revoke_none now ident (row ∷ table) h = elim (Bool-cases (is_revocable ident row)) [
  | inl e ↦ absurd (ground (arith, h, e))
  | inr e ↦
      let (all, same) = revoke_none now ident table (ground (arith, h, e)) in
      ((e, all), rw (e, same) refl)
]

none-revoke :
    (now : ℕ) (ident : Text) (table : List AdminFetchToken)
    → All (λ row. is_revocable ident row ≡ false) table
    → (revoke_admin_fetch_token now ident table).1 ≡ 0
unfolding revoke_admin_fetch_token
none-revoke now ident [] h = refl
none-revoke now ident (row ∷ table) (e, h) = ground (arith, e, none-revoke now ident table h)

-- After the revocation no row can be revoked.
revoke-All :
    (now : ℕ) (ident : Text) (table : List AdminFetchToken)
    → All (λ row. is_revocable ident row ≡ false) (revoke_admin_fetch_token now ident table).0
unfolding revoke_admin_fetch_token
revoke-All now ident [] = tt
revoke-All now ident (row ∷ table) = elim (Bool-cases (is_revocable ident row)) [
  | inl e ↦ rw e (refl, revoke-All now ident table)
  | inr e ↦ rw e (e, revoke-All now ident table)
]

module _ (isoformat strftime : ℕ → Text) (repr : Text → Text) where
  ft_revoke-table :
      (now : ℕ) (ident : Text) (table : List AdminFetchToken)
      → (ft_revoke isoformat strftime repr now ident table).1
        ≡ (revoke_admin_fetch_token now ident table).0
  unfolding ft_revoke
  ft_revoke-table now ident table = ground arith

  -- `fetch-tokens revoke` exits with 1 exactly if no active token has the identifier as its label or
  -- prefix, and then leaves the table as it was; otherwise it exits with 0; and after it no active
  -- token has the identifier as its label or prefix.
  pub ft_revoke_lem :
      (now : ℕ) (ident : Text) (table : List AdminFetchToken)
      → let (terminal, table') = ft_revoke isoformat strftime repr now ident table in
        ((terminal.exit_code ≡ 1) ↔ All (λ row. is_revocable ident row ≡ false) table)
        × (terminal.exit_code ≡ 1 → table' ≡ table)
        × ((terminal.exit_code ≡ 0) ⊎ (terminal.exit_code ≡ 1))
        × All (λ row. is_revocable ident row ≡ false) table'
  unfolding ft_revoke
  ft_revoke_lem now ident table = (
    (
      λ h. (revoke_none now ident table (ground (arith, h))).0,
      λ a. ground (arith, none-revoke now ident table a),
    ),
    λ h. ft_revoke-table now ident table ∙ (revoke_none now ident table (ground (arith, h))).1,
    ground arith,
    rw (ft_revoke-table now ident table) (revoke-All now ident table),
  )

select-All :
    (p : FetchTokenSummary → Bool) (rs : List FetchTokenSummary)
    → All (λ r. p r ≡ true) (select p rs)
unfolding select
select-All p [] = tt
select-All p (r ∷ rs) = elim (Bool-cases (p r)) [
  | inl e ↦ rw e (e, select-All p rs)
  | inr e ↦ rw e (select-All p rs)
]

-- At the time of a listing without `--all`, the status of each token in it is `active`.
pub list-status :
    (now : ℕ) (table : List AdminFetchToken)
    → All (λ r. status_of now r ≡ codes "active") (list_admin_fetch_tokens now false table)
unfolding status_of
list-status now table = rw (list-select now table) (
    All-map _ _ (λ r e. rw e refl) (select (active now) (list_admin_fetch_tokens now true table))
      (select-All (active now) (list_admin_fetch_tokens now true table)))
