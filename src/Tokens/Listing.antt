-- ===== src/Tokens/Listing.antt =====
-- The listing of the fetch tokens.
use mathlib.Core.List.{Permᴰ}
use mathlib.Core.List.Permᴰ as P
use mikrotik_cpe_cloud.Base.{
  ℕ, ◌≤◌, ◌≡◌, refl, Bool, ◌&&◌, ◌||◌, List, [], ◌∷◌, arith, ltb, leb, select, map, All, All-map,
  is_none, inl, inr, Bool-cases,
}
use mikrotik_cpe_cloud.Models.{AdminFetchToken}
use mikrotik_cpe_cloud.Tokens.{
  summary, insert_by_created, order_by_created, summaries, list_admin_fetch_tokens,
}

-- No row is older than one after it.
abbrev pub LatestFirst : List AdminFetchToken → Type 0
LatestFirst [] = Unit
LatestFirst (row ∷ rows) = All (λ r. r.created_at ≤ row.created_at) rows × LatestFirst rows

-- The rows of a listing.
abbrev pub is_shown : ℕ → Bool → AdminFetchToken → Bool
is_shown now include_inactive row =
    include_inactive || is_none row.revoked_at && ltb now row.expires_at

summaries-map :
    (now : ℕ) (include_inactive : Bool) (rows : List AdminFetchToken)
    → summaries now include_inactive rows
      ≡ map summary (select (is_shown now include_inactive) rows)
unfolding summaries select
summaries-map now include_inactive [] = refl
summaries-map now include_inactive (row ∷ rows) =
    ground (arith, summaries-map now include_inactive rows)

insert-All :
    (bound : ℕ) (row : AdminFetchToken) (rows : List AdminFetchToken)
    → row.created_at ≤ bound
    → All (λ r. r.created_at ≤ bound) rows
    → All (λ r. r.created_at ≤ bound) (insert_by_created row rows)
unfolding insert_by_created
insert-All bound row [] h hs = (h, tt)
insert-All bound row (r ∷ rows) h (k, ks) = elim (Bool-cases (leb r.created_at row.created_at)) [
  | inl e ↦ rw e (h, (k, ks))
  | inr e ↦ rw e (k, insert-All bound row rows h ks)
]

insert-LatestFirst :
    (row : AdminFetchToken) (rows : List AdminFetchToken)
    → LatestFirst rows
    → LatestFirst (insert_by_created row rows)
unfolding insert_by_created
insert-LatestFirst row [] h = (tt, tt)
insert-LatestFirst row (r ∷ rows) (k, ks) = elim (Bool-cases (leb r.created_at row.created_at)) [
  | inl e ↦
      let newer : r.created_at ≤ row.created_at = ground (arith, e) in
      rw e (
        (
          newer,
          All-map (λ q. q.created_at ≤ r.created_at) (λ q. q.created_at ≤ row.created_at)
              (λ q l. omega (arith, l, newer)) rows k,
        ),
        (k, ks),
      )
  | inr e ↦
      let older : row.created_at ≤ r.created_at = ground (arith, e) in
      rw e (insert-All r.created_at row rows older k, insert-LatestFirst row rows ks)
]

insert-Permᴰ :
    (row : AdminFetchToken) (rows : List AdminFetchToken)
    → Permᴰ (row ∷ rows) (insert_by_created row rows)
unfolding insert_by_created
insert-Permᴰ row [] = P.refl (row ∷ [])
insert-Permᴰ row (r ∷ rows) = elim (Bool-cases (leb r.created_at row.created_at)) [
  | inl e ↦ rw e (P.refl (row ∷ r ∷ rows))
  | inr e ↦ rw e (P.trans (P.swap refl refl) (P.cons refl (insert-Permᴰ row rows)))
]

order-LatestFirst : (rows : List AdminFetchToken) → LatestFirst (order_by_created rows)
unfolding order_by_created
order-LatestFirst [] = tt
order-LatestFirst (row ∷ rows) =
    insert-LatestFirst row (order_by_created rows) (order-LatestFirst rows)

order-Permᴰ : (rows : List AdminFetchToken) → Permᴰ rows (order_by_created rows)
unfolding order_by_created
order-Permᴰ [] = P.nil
order-Permᴰ (row ∷ rows) =
    P.trans (P.cons refl (order-Permᴰ rows)) (insert-Permᴰ row (order_by_created rows))

-- The listing has a summary of each row that is to be shown, of all rows or of those that are neither
-- revoked nor expired, from an arrangement of the table in which no row is older than one after it.
pub list-LatestFirst :
    (now : ℕ) (include_inactive : Bool) (table : List AdminFetchToken)
    → (rows : List AdminFetchToken) × Permᴰ table rows
      × LatestFirst rows
      × (list_admin_fetch_tokens now include_inactive table
          ≡ map summary (select (is_shown now include_inactive) rows))
unfolding list_admin_fetch_tokens
list-LatestFirst now include_inactive table = (
  order_by_created table,
  order-Permᴰ table,
  order-LatestFirst table,
  summaries-map now include_inactive (order_by_created table),
)
