-- ===== src/Fleet/Unique.antt =====
-- Rows that no UNIQUE constraint and no primary key joins, kept apart by the writes of the endpoints.
use mikrotik_cpe_cloud.Base.{
  ℕ, ◌≡◌, ◌≢◌, refl, sym, ap, ◌∙◌, ◌⊎◌, inl, inr, Bool, true, false, List, [], ◌∷◌, ◌++◌, Option,
  none, some, arith, In, All, All-append, All-map, ◌==◌, ==_iff, All-In, Bool-cases, if◌then◌else◌,
}
use mikrotik_cpe_cloud.Base.Text.{Text, text_eq, text_eq_iff}
use mikrotik_cpe_cloud.Base.Result.{Result}
use mikrotik_cpe_cloud.Models.{Router, Inet}
use mikrotik_cpe_cloud.Server.{put_router}
use mikrotik_cpe_cloud.Wireguard.{coerce_ip}
use mikrotik_cpe_cloud.AutoEnroll.Rows.{clashes, violates_unique, same_text, same_ip, same_inet}

text_eq_sym : (s t : Text) → text_eq s t ≡ text_eq t s
text_eq_sym s t = ground (arith, text_eq_iff s t, text_eq_iff t s)

same_text_sym : (j k : Option Text) → same_text j k ≡ same_text k j
same_text_sym none none = refl
same_text_sym none (some k) = refl
same_text_sym (some j) none = refl
same_text_sym (some j) (some k) = text_eq_sym j k

same_ip_sym : (a b : Result ℕ) → same_ip a b ≡ same_ip b a
same_ip_sym a b = ground arith

same_inet_sym : (v w : Option Inet) → same_inet v w ≡ same_inet w v
same_inet_sym none none = refl
same_inet_sym none (some w) = refl
same_inet_sym (some v) none = refl
same_inet_sym (some v) (some w) = same_ip_sym (coerce_ip v) (coerce_ip w)

clashes_sym : (r q : Router) → clashes r q ≡ clashes q r
unfolding clashes
clashes_sym r q = rw (
  text_eq_sym r.identity q.identity,
  text_eq_sym r.serial_number q.serial_number,
  text_eq_sym r.mac_address q.mac_address,
  same_text_sym r.wg_public_key q.wg_public_key,
  same_inet_sym r.wg_overlay_ip q.wg_overlay_ip,
)

-- Two rows that may stand in one table.
pub record Apart (r q : Router) : Type 0 where
  pub ids : r.id ≢ q.id
  pub no_clash : clashes r q ≡ false

Apart-sym : (r q : Router) → Apart r q → Apart q r
Apart-sym r q h = record { ids = λ e. h.ids (sym e); no_clash = clashes_sym q r ∙ h.no_clash }

-- No two rows of the table share a primary key, an identity, a serial number, a MAC address, a
-- WireGuard key or an overlay address.
abbrev pub Distinct : List Router → Type 0
Distinct [] = Unit
Distinct (r ∷ rs) = All (Apart r) rs × Distinct rs

-- What the constraint's test says of each row.
violates_unique-false :
    (row : Router) (rs : List Router)
    → violates_unique row rs ≡ false
    → All (λ r. (r.id ≡ row.id) ⊎ Apart row r) rs
unfolding violates_unique
violates_unique-false row [] h = tt
violates_unique-false row (r ∷ rs) h = (
  elim (Bool-cases (r.id == row.id)) [
    | inl e ↦ inl (ground (arith, e))
    | inr e ↦ inr (record { ids = ground (arith, e); no_clash = ground (arith, e, h) })
  ],
  violates_unique-false row rs (ground (arith, h)),
)

-- Where a row may stand beside every other row, the test finds nothing.
violates_unique-none :
    (row : Router) (rs : List Router)
    → All (λ r. (r.id ≡ row.id) ⊎ Apart row r) rs
    → violates_unique row rs ≡ false
unfolding violates_unique
violates_unique-none row [] h = refl
violates_unique-none row (r ∷ rs) (inl e, hs) =
    rw ((==_iff r.id row.id).1 e, violates_unique-none row rs hs) refl
violates_unique-none row (r ∷ rs) (inr a, hs) =
    ground (arith, a.no_clash, violates_unique-none row rs hs)

-- A row of the table does not clash with the table.
pub Distinct-violates_unique :
    (q : Router) (rs : List Router) → Distinct rs → In q rs → violates_unique q rs ≡ false
Distinct-violates_unique q rs d m = violates_unique-none q rs (beside rs d m)
  where
    beside : (rs : List Router) → Distinct rs → In q rs → All (λ r. (r.id ≡ q.id) ⊎ Apart q r) rs
    beside [] d m = tt
    beside (r ∷ rs) (h, d) (inl e) =
        (inl (sym (ap (λ (z : Router). z.id) e)), All-map (Apart r) _ (λ z a. inr (rw e a)) rs h)
    beside (r ∷ rs) (h, d) (inr m) =
        (inr (Apart-sym r q (All-In (Apart r) rs q h m)), beside rs d m)

-- An INSERT of a row with a new primary key.
pub Distinct-append :
    (row : Router) (rs : List Router)
    → Distinct rs
    → All (λ r. r.id ≢ row.id) rs
    → violates_unique row rs ≡ false
    → Distinct (rs ++ row ∷ [])
Distinct-append row rs d ids h = joined rs d ids (violates_unique-false row rs h)
  where
    joined :
        (rs : List Router)
        → Distinct rs
        → All (λ r. r.id ≢ row.id) rs
        → All (λ r. (r.id ≡ row.id) ⊎ Apart row r) rs
        → Distinct (rs ++ row ∷ [])
    joined [] d ids h = (tt, tt)
    joined (r ∷ rs) (a, d) (i, ids) (inl e, hs) = absurd (i e)
    joined (r ∷ rs) (a, d) (i, ids) (inr b, hs) =
        (All-append (Apart r) rs (row ∷ []) a (Apart-sym row r b, tt), joined rs d ids hs)

-- An UPDATE beside a row with another primary key.
pub All-put_router :
    (P : Router → Type 0) (row : Router) (rs : List Router)
    → P row
    → All P rs
    → All P (put_router row rs)
unfolding put_router
All-put_router P row [] p h = tt
All-put_router P row (r ∷ rs) p (q, h) = (chosen (r.id == row.id), All-put_router P row rs p h)
  where
    chosen : (b : Bool) → P (if b then row else r)
    chosen true = p
    chosen false = q

≢-==_false : (m n : ℕ) → m ≢ n → (m == n) ≡ false
≢-==_false m n h = ground (arith, h)

-- A key that no row has is not updated.
put_router-absent :
    (row : Router) (rs : List Router) → All (λ r. r.id ≢ row.id) rs → put_router row rs ≡ rs
unfolding put_router
put_router-absent row [] h = refl
put_router-absent row (r ∷ rs) (i, h) = ground (arith, put_router-absent row rs h)

pub put_router-Distinct :
    (row : Router) (rs : List Router)
    → Distinct rs
    → violates_unique row rs ≡ false
    → Distinct (put_router row rs)
unfolding put_router
put_router-Distinct row rs d h = updated rs d (violates_unique-false row rs h)
  where
    updated :
        (rs : List Router)
        → Distinct rs
        → All (λ r. (r.id ≡ row.id) ⊎ Apart row r) rs
        → Distinct (put_router row rs)
    updated [] d h = tt
    updated (r ∷ rs) (a, d) (inr b, h) =
        rw (≢-==_false r.id row.id (λ e. b.ids (sym e)))
          (All-put_router (Apart r) row rs (Apart-sym row r b) a, updated rs d h)
    updated (r ∷ rs) (a, d) (inl e, h) =
        rw ((==_iff r.id row.id).1 e, put_router-absent row rs (others rs a)) (beside rs a h, d)
      where
        others : (qs : List Router) → All (Apart r) qs → All (λ q. q.id ≢ row.id) qs
        others qs a = All-map (Apart r) _ (λ q b i. b.ids (e ∙ sym i)) qs a

        beside :
            (qs : List Router)
            → All (Apart r) qs
            → All (λ q. (q.id ≡ row.id) ⊎ Apart row q) qs
            → All (Apart row) qs
        beside [] a h = tt
        beside (q ∷ qs) (b, a) (inl i, h) = absurd (b.ids (e ∙ sym i))
        beside (q ∷ qs) (b, a) (inr c, h) = (c, beside qs a h)
