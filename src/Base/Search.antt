-- ===== src/Base/Search.antt =====
-- Laws of `find` and of prefixes.
use mikrotik_cpe_cloud.Base.Text.{Text, starts_with, find, shift}
use mikrotik_cpe_cloud.Base.Lists.{take, All, length}
use Prim.Native.Nat.{ℕ, zero, suc, ◌+◌, ◌≤◌}
use mathlib.Core.Bool.{true, false}
use mathlib.Core.Logic.{◌≢◌}
use mathlib.Core.Path.{◌≡◌, refl}
use mathlib.Core.Option.{none, some}
use mathlib.Core.List.{[], ◌∷◌, ◌++◌}
use native.Mathlib.Omega.{arith}

-- A line break that the sought text does not hold cuts what it can match.
starts_with-line :
    (m x b : Text) (n : ℕ) → All (λ c. c ≢ n) m → starts_with m (x ++ n ∷ b) ≡ starts_with m x
unfolding starts_with
starts_with-line [] x b n h = refl
starts_with-line (c ∷ m) [] b n (h, hs) = ground arith
starts_with-line (c ∷ m) (d ∷ x) b n (h, hs) = rw (starts_with-line m x b n hs)

-- Where the part before a line break does not hold the text, the search goes on behind it.
pub find-line :
    (c : ℕ) (m a b : Text) (n : ℕ)
    → All (λ d. d ≢ n) (c ∷ m)
    → find (c ∷ m) a ≡ none
    → find (c ∷ m) (a ++ n ∷ b) ≡ shift (length a + 1) (find (c ∷ m) b)
unfolding find
find-line c m [] b n (h, hs) e = ground arith
find-line c m (x ∷ a) b n (h, hs) e =
    ground (arith, starts_with-line (c ∷ m) (x ∷ a) b n (h, hs), find-line c m a b n (h, hs))

-- An initial part holds the text no earlier.
starts_with-take : (m s : Text) (k : ℕ) → starts_with m s ≡ false → starts_with m (take k s) ≡ false
unfolding starts_with
starts_with-take [] s k h = cc
starts_with-take (c ∷ m) [] zero h = refl
starts_with-take (c ∷ m) [] (suc k) h = refl
starts_with-take (c ∷ m) (d ∷ s) zero h = refl
starts_with-take (c ∷ m) (d ∷ s) (suc k) h = ground (arith, starts_with-take m s k)

-- Neither before the first position that it holds it at, nor anywhere where it does not.
pub find-take-some :
    (c : ℕ) (m s : Text) (n k : ℕ)
    → find (c ∷ m) s ≡ some n
    → k ≤ n
    → find (c ∷ m) (take k s) ≡ none
unfolding find
find-take-some c m s n zero h l = refl
find-take-some c m [] n (suc k) h l = refl
find-take-some c m (x ∷ s) zero (suc k) h l = absurd (omega arith)
find-take-some c m (x ∷ s) (suc n) (suc k) h l =
    ground (arith, starts_with-take (c ∷ m) (x ∷ s) (suc k), find-take-some c m s n k)

pub find-take-none :
    (c : ℕ) (m s : Text) (k : ℕ) → find (c ∷ m) s ≡ none → find (c ∷ m) (take k s) ≡ none
unfolding find
find-take-none c m s zero h = refl
find-take-none c m [] (suc k) h = refl
find-take-none c m (x ∷ s) (suc k) h =
    ground (arith, starts_with-take (c ∷ m) (x ∷ s) (suc k), find-take-none c m s k)

pub starts_with-append : (m s : Text) → starts_with m (m ++ s) ≡ true
unfolding starts_with
starts_with-append [] s = refl
starts_with-append (c ∷ m) s = ground (arith, starts_with-append m s)

pub find-append_self : (c : ℕ) (m s : Text) → find (c ∷ m) ((c ∷ m) ++ s) ≡ some 0
unfolding find
find-append_self c m s = rw (starts_with-append (c ∷ m) s)

pub starts_with-take_self : (s : Text) (k : ℕ) → starts_with (take k s) s ≡ true
unfolding starts_with
starts_with-take_self s zero = refl
starts_with-take_self [] (suc k) = refl
starts_with-take_self (c ∷ s) (suc k) = ground (arith, starts_with-take_self s k)

pub find-append_line :
    (c : ℕ) (m a : Text) (n : ℕ)
    → All (λ d. d ≢ n) (c ∷ m)
    → find (c ∷ m) a ≡ none
    → find (c ∷ m) (a ++ n ∷ []) ≡ none
unfolding find starts_with
find-append_line c m a n h e = rw (find-line c m a [] n h e)

pub starts_with_trans :
    (a b c : Text) → starts_with a b ≡ true → starts_with b c ≡ true → starts_with a c ≡ true
unfolding starts_with
starts_with_trans [] b c h k = refl
starts_with_trans (x ∷ a) [] c h k = cc
starts_with_trans (x ∷ a) (y ∷ b) [] h k = cc
starts_with_trans (x ∷ a) (y ∷ b) (z ∷ c) h k = ground (arith, starts_with_trans a b c)

pub starts_with_refl : (s : Text) → starts_with s s ≡ true
unfolding starts_with
starts_with_refl [] = refl
starts_with_refl (c ∷ s) = ground (arith, starts_with_refl s)
