-- ===== src/Base64/Urlsafe.antt =====
-- The length of a URL-safe token.
use mikrotik_cpe_cloud.Base.{
  ℕ, suc, ◌+◌, ◌*◌, ◌/◌, ◌%◌, ◌≡◌, refl, ap, ◌∙◌, Bool, true, false, List, [], ◌∷◌, arith, ◌==◌,
  length, if◌then◌else◌,
}
use mikrotik_cpe_cloud.Base.Text.{Text, is_space}
use mikrotik_cpe_cloud.Base.Strip.{HasNoSpace}
use mikrotik_cpe_cloud.Base64.{digit, pad, drop_pad, url_digit, token_urlsafe}

-- A digit of the URL-safe alphabet.
abbrev safe : ℕ → ℕ
safe n = url_digit (digit n)

safe-ne-pad : (n : ℕ) → (safe n == pad) ≡ false
unfolding url_digit digit
safe-ne-pad n = ground arith

length-drop_pad : (c : ℕ) (s : Text) → (c == pad) ≡ false → length (drop_pad c s) ≡ suc (length s)
length-drop_pad c [] h = rw h
length-drop_pad c (d ∷ s) h = refl

-- A digit that `rstrip("=")` meets stays.
length-safe : (n : ℕ) (s : Text) → length (drop_pad (safe n) s) ≡ suc (length s)
length-safe n s = length-drop_pad (safe n) s (safe-ne-pad n)

-- The token of `n` bytes has `ceil(4 n / 3)` characters.
pub length-token_urlsafe : (bs : List ℕ) → length (token_urlsafe bs) ≡ (4 * length bs + 2) / 3
unfolding token_urlsafe
length-token_urlsafe [] = refl
length-token_urlsafe (a ∷ []) = length-safe (a / 4) _ ∙ ap suc (length-safe (a % 4 * 16) [])
length-token_urlsafe (a ∷ b ∷ []) =
    length-safe (a / 4) _
    ∙ ap suc (length-safe (a % 4 * 16 + b / 16) _ ∙ ap suc (length-safe (b % 16 * 4) []))
length-token_urlsafe (a ∷ b ∷ c ∷ rest) =
    let ih = length-token_urlsafe rest in
    length-safe (a / 4) _
    ∙ ap suc (
        length-safe (a % 4 * 16 + b / 16) _
        ∙ ap suc (length-safe (b % 16 * 4 + c / 64) _ ∙ ap suc (length-safe (c % 64) _)))
    ∙ omega (arith, ih)

safe-not_space : (n : ℕ) → is_space (safe n) ≡ false
unfolding url_digit digit is_space
safe-not_space n = ground arith

drop_pad-HasNoSpace :
    (c : ℕ) (s : Text) → is_space c ≡ false → HasNoSpace s → HasNoSpace (drop_pad c s)
drop_pad-HasNoSpace c (d ∷ t) p h = (p, h)
drop_pad-HasNoSpace c [] p h = one (c == pad)
  where
    one : (b : Bool) → HasNoSpace (if b then [] else c ∷ [])
    one true = tt
    one false = (p, tt)

-- A digit in front of a token.
safe-HasNoSpace : (n : ℕ) (s : Text) → HasNoSpace s → HasNoSpace (drop_pad (safe n) s)
safe-HasNoSpace n s h = drop_pad-HasNoSpace (safe n) s (safe-not_space n) h

pub token_urlsafe-HasNoSpace : (bs : List ℕ) → HasNoSpace (token_urlsafe bs)
unfolding token_urlsafe
token_urlsafe-HasNoSpace [] = tt
token_urlsafe-HasNoSpace (a ∷ []) = safe-HasNoSpace (a / 4) _ (safe-HasNoSpace (a % 4 * 16) [] tt)
token_urlsafe-HasNoSpace (a ∷ b ∷ []) =
    safe-HasNoSpace (a / 4) _
      (safe-HasNoSpace (a % 4 * 16 + b / 16) _ (safe-HasNoSpace (b % 16 * 4) [] tt))
token_urlsafe-HasNoSpace (a ∷ b ∷ c ∷ rest) = safe-HasNoSpace (a / 4) _ (
    safe-HasNoSpace (a % 4 * 16 + b / 16) _ (
      safe-HasNoSpace (b % 16 * 4 + c / 64) _
        (safe-HasNoSpace (c % 64) _ (token_urlsafe-HasNoSpace rest))))
