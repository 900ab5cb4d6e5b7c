-- ===== src/Influx/Value.antt =====
-- The values of a payload that is a Python dict, and the conversions of them.
use mikrotik_cpe_cloud.Base.{
  zero, suc, Bool, true, false, [], ◌∷◌, Option, none, some, if◌then◌else◌,
}
use mikrotik_cpe_cloud.Base.Text.{Text, text_eq}
use mikrotik_cpe_cloud.Base.Int.{ℤ, pos, negsuc}
use mikrotik_cpe_cloud.Base.Result.{Result, ok, err, value_error, type_error}
use mikrotik_cpe_cloud.AutoEnroll.Identity.{int_of_text}

-- A float, in decimal.
pub record Real : Type 0 where
  pub mantissa : ℤ
  pub exponent : ℤ

mutual
  pub data Value : Type 0 where
    null : Value
    int : ℤ → Value
    real : Real → Value
    flag : Bool → Value
    string : Text → Value
    list : Values → Value
    dict : Entries → Value

  pub data Values : Type 0 where
    nil : Values
    cons : Value → Values → Values

  pub data Entries : Type 0 where
    end : Entries
    entry : Text → Value → Entries → Entries

-- `d.get(key)`: None where there is no such key.
unfoldable pub get : Text → Entries → Value
get key end = null
get key (entry k v rest) = let later = get key rest in if text_eq k key then v else later

abbrev pub is_null : Value → Bool
is_null null = true
is_null _ = false

abbrev pub is_zero : ℤ → Bool
is_zero (pos zero) = true
is_zero (pos (suc n)) = false
is_zero (negsuc n) = false

-- The truth of a value in an `if`.
abbrev pub is_true : Value → Bool
is_true null = false
is_true (int n) = if is_zero n then false else true
is_true (real x) = if is_zero x.mantissa then false else true
is_true (flag b) = b
is_true (string []) = false
is_true (string (c ∷ s)) = true
is_true (list nil) = false
is_true (list (cons v vs)) = true
is_true (dict end) = false
is_true (dict (entry k v rest)) = true

abbrev pub or_value_error {ℓ} : {A : Type ℓ} → Option A → Result A
or_value_error none = err value_error
or_value_error (some a) = ok a

-- `int(v)`, with the truncation of a float.
unfoldable pub int_of : (Real → ℤ) → Value → Result ℤ
unfolding int_of_text
int_of truncate null = err type_error
int_of truncate (int n) = ok n
int_of truncate (real x) = ok (truncate x)
int_of truncate (flag true) = ok (pos 1)
int_of truncate (flag false) = ok (pos 0)
int_of truncate (string s) = or_value_error (int_of_text s)
int_of truncate (list vs) = err type_error
int_of truncate (dict es) = err type_error

abbrev pub of_int : ℤ → Real
of_int n = record { mantissa = n; exponent = pos 0 }

-- `float(v)`, with the reading of a text.
unfoldable pub float_of : (Text → Option Real) → Value → Result Real
float_of read null = err type_error
float_of read (int n) = ok (of_int n)
float_of read (real x) = ok x
float_of read (flag true) = ok (of_int (pos 1))
float_of read (flag false) = ok (of_int (pos 0))
float_of read (string s) = or_value_error (read s)
float_of read (list vs) = err type_error
float_of read (dict es) = err type_error
