-- ===== src/Base/Strip.antt =====
-- Laws of `rstrip`.
use mikrotik_cpe_cloud.Base.Tests.{Bool-cases}
use mikrotik_cpe_cloud.Base.Text.{Text, is_space, lstrip, rstrip, strip, strip_cons}
use mikrotik_cpe_cloud.Base.Lists.{take, All}
use Prim.Native.Nat.{ℕ, suc}
use mathlib.Core.Bool.{true, false}
use mathlib.Core.Logic.{inl, inr}
use mathlib.Core.Path.{◌≡◌, refl, ap, sym, ◌∙◌}
use mathlib.Core.List.{[], ◌∷◌, ◌++◌}
use native.Mathlib.Omega.{arith}

strip_cons-strip_cons : (c : ℕ) (s : Text) → rstrip s ≡ s → rstrip (strip_cons c s) ≡ strip_cons c s
unfolding rstrip
strip_cons-strip_cons c [] h = ground arith
strip_cons-strip_cons c (d ∷ s) h = ap (strip_cons c) h

pub rstrip_idem : (s : Text) → rstrip (rstrip s) ≡ rstrip s
unfolding rstrip
rstrip_idem [] = refl
rstrip_idem (c ∷ s) = strip_cons-strip_cons c (rstrip s) (rstrip_idem s)

strip_cons-append : (c : ℕ) (s t : Text) (d : ℕ) → strip_cons c (s ++ d ∷ t) ≡ c ∷ s ++ d ∷ t
strip_cons-append c [] t d = refl
strip_cons-append c (e ∷ s) t d = refl

-- What stands before a character that is no space stays.
pub rstrip-append :
    (s t : Text) (c : ℕ) → is_space c ≡ false → rstrip (s ++ c ∷ t) ≡ s ++ c ∷ rstrip t
unfolding rstrip
rstrip-append [] t c h = keep (rstrip t)
  where
    keep : (r : Text) → strip_cons c r ≡ c ∷ r
    keep [] = rw h
    keep (d ∷ r) = refl
rstrip-append (d ∷ s) t c h = rw (rstrip-append s t c h) (strip_cons-append d s (rstrip t) c)

-- Spaces at the end go.
pub rstrip-spaces : (s t : Text) → All (λ c. is_space c ≡ true) t → rstrip (s ++ t) ≡ rstrip s
unfolding rstrip
rstrip-spaces [] [] h = refl
rstrip-spaces [] (c ∷ t) (h, hs) = rw (rstrip-spaces [] t hs, h)
rstrip-spaces (c ∷ s) t h = rw (rstrip-spaces s t h)

-- `rstrip` keeps an initial part.
pub rstrip-take : (s : Text) → (n : ℕ) × (rstrip s ≡ take n s)
unfolding rstrip
rstrip-take [] = (0, refl)
rstrip-take (c ∷ s) = let (n, e) = rstrip-take s in part n e (rstrip s) refl
  where
    part :
        (n : ℕ)
        → rstrip s ≡ take n s
        → (r : Text) → rstrip s ≡ r
        → (m : ℕ) × (strip_cons c (rstrip s) ≡ take m (c ∷ s))
    part n e [] h = elim (Bool-cases (is_space c)) [
      | inl b ↦ (0, rw (h, b))
      | inr b ↦ (1, rw (h, b))
    ]
    part n e (d ∷ r) h = (suc n, rw h (ap (λ t. c ∷ t) (sym h ∙ e)))

-- No character is a space.
abbrev pub HasNoSpace : Text → Type 0
HasNoSpace s = All (λ c. is_space c ≡ false) s

rstrip-HasNoSpace : (s : Text) → HasNoSpace s → rstrip s ≡ s
unfolding rstrip
rstrip-HasNoSpace [] h = refl
rstrip-HasNoSpace (c ∷ s) (p, h) = rw (rstrip-HasNoSpace s h) (kept s)
  where
    kept : (s : Text) → strip_cons c s ≡ c ∷ s
    kept [] = rw p
    kept (d ∷ t) = refl

pub lstrip-HasNoSpace : (s : Text) → HasNoSpace s → lstrip s ≡ s
unfolding lstrip
lstrip-HasNoSpace [] h = refl
lstrip-HasNoSpace (c ∷ s) (p, h) = rw p

pub strip-HasNoSpace : (s : Text) → HasNoSpace s → strip s ≡ s
unfolding strip
strip-HasNoSpace s h = rw (lstrip-HasNoSpace s h) (rstrip-HasNoSpace s h)
