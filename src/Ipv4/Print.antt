-- ===== src/Ipv4/Print.antt =====
-- What is printed is read back.
use mathlib.Core.List.{append-nil}
use mikrotik_cpe_cloud.Base.{
  ℕ, ◌/◌, ◌%◌, ◌^◌, ◌≤◌, ◌<◌, ◌≡◌, ◌≢◌, refl, [], ◌∷◌, ◌++◌, some, arith, All-append, ap, All,
}
use mikrotik_cpe_cloud.Base.Text.{Text}
use mikrotik_cpe_cloud.Ipv4.{dot, octet_str, ipv4_str, before, split, parse_octet, parse_ipv4}

parse_octet-octet_str : (n : ℕ) → n < 256 → parse_octet (octet_str n) ≡ some n
unfolding parse_octet octet_str
parse_octet-octet_str n h = ground arith

-- Every character is a digit.
abbrev pub AllDigits : Text → Type 0
AllDigits = All (λ c. (48 ≤ c) × (c ≤ 57))

octet_str-AllDigits : (n : ℕ) → n < 256 → AllDigits (octet_str n)
unfolding octet_str
octet_str-AllDigits n h = ground arith

split-digits : (p s : Text) → AllDigits p → split dot (p ++ dot ∷ s) ≡ p ∷ split dot s
unfolding split
split-digits [] s h = refl
split-digits (c ∷ p) s ((a, b), h) = ground (arith, split-digits p s h)

split-digits_end : (p : Text) → AllDigits p → split dot p ≡ p ∷ []
unfolding split
split-digits_end [] h = refl
split-digits_end (c ∷ p) ((a, b), h) = ground (arith, split-digits_end p h)

-- No slash.
abbrev IsClean : Text → Type 0
IsClean = All (λ c. (46 ≤ c) × (c ≢ 47))

before-clean : (p s : Text) → IsClean p → before b'/' (p ++ s) ≡ p ++ before b'/' s
unfolding before
before-clean [] s h = refl
before-clean (d ∷ p) s ((a, b), h) = ground (arith, before-clean p s h)

octet_str-IsClean : (n : ℕ) → n < 256 → IsClean (octet_str n)
unfolding octet_str
octet_str-IsClean n h = ground arith

octets-IsClean : (n : ℕ) (s : Text) → n < 256 → IsClean s → IsClean (octet_str n ++ dot ∷ s)
octets-IsClean n s h k =
    All-append _ (octet_str n) (dot ∷ s) (octet_str-IsClean n h) ((omega arith, omega arith), k)

ipv4_str-IsClean : (ip : ℕ) → ip < 2 ^ 32 → IsClean (ipv4_str ip)
ipv4_str-IsClean ip h =
    let last = octet_str-IsClean (ip % 256) (omega arith) in
    let third = octets-IsClean (ip / 2 ^ 8 % 256) _ (omega arith) last in
    let second = octets-IsClean (ip / 2 ^ 16 % 256) _ (omega arith) third in
    unfold ipv4_str in octets-IsClean (ip / 2 ^ 24) _ (omega arith) second

-- What may stand behind an address: nothing, or a slash and a prefix.
abbrev pub IsSuffix : Text → Type 0
IsSuffix [] = Unit
IsSuffix (c ∷ s) = c ≡ b'/'

before-suffix : (s : Text) → IsSuffix s → before b'/' s ≡ []
unfolding before
before-suffix [] h = refl
before-suffix (c ∷ s) h = ground arith

pub before-ipv4_str :
    (ip : ℕ) (s : Text) → ip < 2 ^ 32 → IsSuffix s → before b'/' (ipv4_str ip ++ s) ≡ ipv4_str ip
before-ipv4_str ip s h k =
    rw (before-clean (ipv4_str ip) s (ipv4_str-IsClean ip h), before-suffix s k) (append-nil _)

split-ipv4_str :
    (ip : ℕ)
    → ip < 2 ^ 32
    → split dot (ipv4_str ip)
      ≡ octet_str (ip / 2 ^ 24)
        ∷ octet_str (ip / 2 ^ 16 % 256)
        ∷ octet_str (ip / 2 ^ 8 % 256)
        ∷ octet_str (ip % 256)
        ∷ []
split-ipv4_str ip h =
    unfold ipv4_str in
    rw (
      split-digits _ _ (octet_str-AllDigits (ip / 2 ^ 24) (omega arith)),
      split-digits _ _ (octet_str-AllDigits (ip / 2 ^ 16 % 256) (omega arith)),
      split-digits _ _ (octet_str-AllDigits (ip / 2 ^ 8 % 256) (omega arith)),
      split-digits_end _ (octet_str-AllDigits (ip % 256) (omega arith)),
    )

pub parse_ipv4-ipv4_str : (ip : ℕ) → ip < 2 ^ 32 → parse_ipv4 (ipv4_str ip) ≡ some ip
unfolding parse_ipv4
parse_ipv4-ipv4_str ip h =
    rw
      (
        split-ipv4_str ip h,
        parse_octet-octet_str (ip / 2 ^ 24) (omega arith),
        parse_octet-octet_str (ip / 2 ^ 16 % 256) (omega arith),
        parse_octet-octet_str (ip / 2 ^ 8 % 256) (omega arith),
        parse_octet-octet_str (ip % 256) (omega arith),
      )
      (ap some (omega arith))
