-- ===== src/Base/Decimal.antt =====
-- Python's `str` of a natural number, and the value of such a text.
use mikrotik_cpe_cloud.Base.Text.{Text}
use mikrotik_cpe_cloud.Base.Lists.{All, All-append}
use Prim.Native.Nat.{ℕ, zero, suc, ◌+◌, ◌-◌, ◌*◌, ◌/◌, ◌%◌, ◌<◌, ◌≤◌}
use mathlib.Core.Logic.{◌≢◌}
use mathlib.Core.Path.{◌≡◌, refl, sym, ap, ◌∙◌}
use mathlib.Core.List.{[], ◌∷◌, ◌++◌}
use native.Mathlib.Omega.{arith}

-- The digits, the most significant first. The fuel has to be above the number.
digits : ℕ → ℕ → Text
digits zero n = []
digits (suc fuel) n = elim (n / 10) [
  | zero ↦ (n % 10 + 48) ∷ []
  | suc k ↦ digits fuel (suc k) ++ (n % 10 + 48) ∷ []
]

unfoldable pub str : ℕ → Text
unfolding digits
str n = digits (suc n) n

abbrev pub value : ℕ → Text → ℕ
value acc [] = acc
value acc (c ∷ s) = value (acc * 10 + (c - 48)) s

value-append : (acc : ℕ) (s t : Text) → value acc (s ++ t) ≡ value (value acc s) t
value-append acc [] t = refl
value-append acc (c ∷ s) t = value-append (acc * 10 + (c - 48)) s t

value-digits : (fuel n : ℕ) → n < fuel → value 0 (digits fuel n) ≡ n
unfolding digits
value-digits zero n h = elim h [ ]
value-digits (suc fuel) n h = go (λ m l. value-digits fuel m l) (n / 10) refl
  where
    go :
        ((m : ℕ) → m < fuel → value 0 (digits fuel m) ≡ m)
        → (q : ℕ) → n / 10 ≡ q
        → value 0 (elim q [
          | zero ↦ (n % 10 + 48) ∷ []
          | suc k ↦ digits fuel (suc k) ++ (n % 10 + 48) ∷ []
        ])
          ≡ n
    go ih zero e = omega arith
    go ih (suc k) e = rw (value-append, ih (suc k) (omega arith)) (omega arith)

-- The fuel is enough: the text has the number for its value.
pub value-str : (n : ℕ) → value 0 (str n) ≡ n
unfolding str
value-str n = value-digits (suc n) n (omega arith)

pub str-injective : (m n : ℕ) → str m ≡ str n → m ≡ n
str-injective m n h = sym (value-str m) ∙ ap (value 0) h ∙ value-str n

-- An ASCII digit.
abbrev pub IsDigit : ℕ → Type 0
IsDigit c = (48 ≤ c) × (c ≤ 57)

digits-All : (fuel n : ℕ) → All IsDigit (digits fuel n)
unfolding digits
digits-All zero n = tt
digits-All (suc fuel) n = go (λ m. digits-All fuel m) (n / 10)
  where
    last : All IsDigit ((n % 10 + 48) ∷ [])
    last = ((omega arith, omega arith), tt)

    go :
        ((m : ℕ) → All IsDigit (digits fuel m))
        → (q : ℕ)
        → All IsDigit (elim q [
          | zero ↦ (n % 10 + 48) ∷ []
          | suc k ↦ digits fuel (suc k) ++ (n % 10 + 48) ∷ []
        ])
    go ih zero = last
    go ih (suc k) = All-append IsDigit (digits fuel (suc k)) _ (ih (suc k)) last

pub str-All : (n : ℕ) → All IsDigit (str n)
unfolding str
str-All n = digits-All (suc n) n

append-ne-nil : (s : Text) (c : ℕ) → s ++ c ∷ [] ≢ []
append-ne-nil [] c h = cc
append-ne-nil (d ∷ s) c h = cc

pub str-ne-nil : (n : ℕ) → str n ≢ []
unfolding str digits
str-ne-nil n = go (n / 10)
  where
    go :
        (q : ℕ)
        → (elim q [ zero ↦ (n % 10 + 48) ∷ [] | suc k ↦ digits n (suc k) ++ (n % 10 + 48) ∷ [] ])
          ≢ []
    go zero = λ h. cc
    go (suc k) = append-ne-nil (digits n (suc k)) (n % 10 + 48)
