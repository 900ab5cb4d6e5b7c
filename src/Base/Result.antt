-- ===== src/Base/Result.antt =====
-- Exceptions as values.
use mathlib.Core.Path.{◌≡◌, refl}

pub data Exn : Type 0 where
  value_error type_error runtime_error os_error integrity_error : Exn

pub data Result {ℓ} (A : Type ℓ) : Type ℓ where
  ok : A → Result A
  err : Exn → Result A

-- The exception goes past what follows.
infixl 5 ◌>>=◌
abbrev pub ◌>>=◌ : {X Y : Type 0} → Result X → (X → Result Y) → Result Y
err exn >>= next = err exn
ok value >>= next = next value

-- The value on which a chain that has returned went on.
pub >>=-returned :
    {X Y : Type 0} (first_step : Result X) (next : X → Result Y) {last : Y}
    → (first_step >>= next) ≡ ok last
    → (value : X) × (first_step ≡ ok value) × (next value ≡ ok last)
>>=-returned (err exn) next e = cc
>>=-returned (ok value) next e = (value, refl, e)

pub ok-injective {ℓ} : {A : Type ℓ} {x y : A} → Result.ok x ≡ ok y → x ≡ y
ok-injective e = cc e
