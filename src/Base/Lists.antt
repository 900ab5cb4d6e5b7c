-- ===== src/Base/Lists.antt =====
-- Lists measured by native numbers, Boolean selection, and predicates on the members.
use Prim.Native.Nat.{ℕ, zero, suc, ◌+◌}
use mathlib.Core.Path.{◌≡◌, refl, sym, ap}
use mathlib.Core.Logic.{◌⊎◌, ◌↔◌, inl, inr}
use mathlib.Core.Bool.{Bool, true, false, ◌&&◌}
use mathlib.Core.List.{List, [], ◌∷◌, ◌++◌}
use mathlib.Core.Option.{Option, none, some}
use native.Mathlib.Omega.{arith}
use mikrotik_cpe_cloud.Base.Tests.{if◌then◌else◌, Bool-cases}

module _ {ℓ} {A : Type ℓ} where
  abbrev pub length : List A → ℕ
  length [] = 0
  length (x ∷ xs) = suc (length xs)

  abbrev pub take : ℕ → List A → List A
  take zero xs = []
  take (suc n) [] = []
  take (suc n) (x ∷ xs) = x ∷ take n xs

  pub length-append : (xs ys : List A) → length (xs ++ ys) ≡ length xs + length ys
  length-append [] ys = omega arith
  length-append (x ∷ xs) ys = omega (arith, length-append xs ys)

  -- `take` stops where the first list ends.
  pub take-append : (xs ys : List A) → take (length xs) (xs ++ ys) ≡ xs
  take-append [] ys = refl
  take-append (x ∷ xs) ys = ap (λ t. x ∷ t) (take-append xs ys)

  -- The rows that pass a test, in order (a SELECT … WHERE).
  unfoldable pub select : (A → Bool) → List A → List A
  select p [] = []
  select p (x ∷ xs) = let rest = select p xs in if p x then x ∷ rest else rest

  -- The first member that passes a test (a `for` with an early return).
  unfoldable pub first : (A → Bool) → List A → Option A
  first p [] = none
  first p (x ∷ xs) = let rest = first p xs in if p x then some x else rest

  abbrev pub All {κ} : (A → Type κ) → List A → Type κ
  All P [] = Unit
  All P (x ∷ xs) = P x × All P xs

-- The value is a member.
abbrev pub In : {A : Type 0} → A → List A → Type 0
In a [] = ⊥
In a (x ∷ xs) = (a ≡ x) ⊎ In a xs

module _ {A : Type 0} where
  pub first_sound :
      (p : A → Bool) (xs : List A) {x : A} → first p xs ≡ some x → (p x ≡ true) × In x xs
  unfolding first
  first_sound p [] h = cc
  first_sound p (y ∷ ys) {x} h = elim (Bool-cases (p y)) [
    | inl e ↦ let e' : y ≡ x = ground (arith, h, e) in (rw (← e') e, inl (sym e'))
    | inr e ↦ let (q, m) = first_sound p ys {x = x} (ground (arith, h, e)) in (q, inr m)
  ]

  pub first-eq-none : (p : A → Bool) (xs : List A) → first p xs ≡ none → All (λ x. p x ≡ false) xs
  unfolding first
  first-eq-none p [] h = tt
  first-eq-none p (y ∷ ys) h = elim (Bool-cases (p y)) [
    | inl e ↦ absurd (ground (arith, h, e))
    | inr e ↦ (e, first-eq-none p ys (ground (arith, h, e)))
  ]

  -- A search among the selected rows is a search for both tests.
  pub first-select :
      (p q : A → Bool) (xs : List A) → first p (select q xs) ≡ first (λ x. q x && p x) xs
  unfolding first select
  first-select p q [] = refl
  first-select p q (x ∷ xs) = ground (arith, first-select p q xs)

  pub All-In : (P : A → Type 0) (xs : List A) (x : A) → All P xs → In x xs → P x
  All-In P [] x a m = absurd m
  All-In P (y ∷ ys) x (h, hs) (inl e) = rw e h
  All-In P (y ∷ ys) x (h, hs) (inr m) = All-In P ys x hs m

  pub All-map : (P Q : A → Type 0) → ((x : A) → P x → Q x) → (xs : List A) → All P xs → All Q xs
  All-map P Q f [] h = tt
  All-map P Q f (x ∷ xs) (h, hs) = (f x h, All-map P Q f xs hs)

  -- A search that a member passes finds something.
  pub first-ne-none :
      (p : A → Bool) (xs : List A) (x : A) → In x xs → p x ≡ true → (y : A) × (first p xs ≡ some y)
  unfolding first
  first-ne-none p [] x m h = absurd m
  first-ne-none p (y ∷ ys) x (inl e) h = (y, rw ((rw e at h)))
  first-ne-none p (y ∷ ys) x (inr m) h = elim (Bool-cases (p y)) [
    | inl e ↦ (y, rw e)
    | inr e ↦ let (z, f) = first-ne-none p ys x m h in (z, rw e f)
  ]

  -- A search of two lists goes on in the second where the first has none.
  pub first-append_none :
      (p : A → Bool) (xs ys : List A) → first p xs ≡ none → first p (xs ++ ys) ≡ first p ys
  unfolding first
  first-append_none p [] ys h = refl
  first-append_none p (x ∷ xs) ys h = ground (arith, h, first-append_none p xs ys)

  pub All-append : (P : A → Type 0) (xs ys : List A) → All P xs → All P ys → All P (xs ++ ys)
  All-append P [] ys h k = k
  All-append P (x ∷ xs) ys (h, hs) k = (h, All-append P xs ys hs k)

  In-cond :
      (b : Bool) (y : A) (rest : List A) (x : A)
      → In x (if b then y ∷ rest else rest)
      → ((b ≡ true) × (x ≡ y)) ⊎ In x rest
  In-cond true y rest x (inl e) = inl (refl, e)
  In-cond true y rest x (inr m) = inr m
  In-cond false y rest x m = inr m

  In-cond_rest :
      (b : Bool) (y : A) (rest : List A) (x : A) → In x rest → In x (if b then y ∷ rest else rest)
  In-cond_rest true y rest x m = inr m
  In-cond_rest false y rest x m = m

  -- The selection is the members that pass the test.
  pub In-select : (p : A → Bool) (xs : List A) (x : A) → In x (select p xs) → (p x ≡ true) × In x xs
  unfolding select
  In-select p [] x m = absurd m
  In-select p (y ∷ ys) x m = elim (In-cond (p y) y (select p ys) x m) [
    | inl (e, s) ↦ (rw s e, inl s)
    | inr n ↦ let (h, i) = In-select p ys x n in (h, inr i)
  ]

  pub select-In : (p : A → Bool) (xs : List A) (x : A) → p x ≡ true → In x xs → In x (select p xs)
  unfolding select
  select-In p [] x e m = absurd m
  select-In p (y ∷ ys) x e (inl s) = rw ((rw s at e)) (inl s)
  select-In p (y ∷ ys) x e (inr m) = In-cond_rest (p y) y (select p ys) x (select-In p ys x e m)

  -- Membership in what an insertion by a test gives.
  pub In-branch :
      (b : Bool) (r q : A) (qs rest : List A) (x : A)
      → (In x rest ↔ ((x ≡ r) ⊎ In x qs))
      → In x (if b then r ∷ q ∷ qs else q ∷ rest) ↔ ((x ≡ r) ⊎ In x (q ∷ qs))
  In-branch true r q qs rest x h = (λ m. m, λ m. m)
  In-branch false r q qs rest x h = (
    λ m. elim m [
      | inl e ↦ inr (inl e)
      | inr n ↦ elim (h.0 n) [ inl e ↦ inl e | inr i ↦ inr (inr i) ]
    ],
    λ m. elim m [
      | inl e ↦ inr (h.1 (inl e))
      | inr n ↦ elim n [ inl e ↦ inl e | inr i ↦ inr (h.1 (inr i)) ]
    ],
  )
