-- ===== src/Base64.antt =====
-- The standard library's `base64.b64encode`, `base64.b64decode(validate=True)` and
-- `secrets.token_urlsafe`, which the token primitives and the key validator call.
pub mod Decode
pub mod Urlsafe
use mikrotik_cpe_cloud.Base.{
  ℕ, zero, suc, ◌+◌, ◌-◌, ◌*◌, ◌/◌, ◌%◌, Bool, true, false, ◌&&◌, List, [], ◌∷◌, Option, none, some,
  ltb, leb, ◌==◌, if◌then◌else◌, map,
}
use mikrotik_cpe_cloud.Base.Text.{Text}

-- `table_b2a_base64`
unfoldable pub digit : ℕ → ℕ
digit n =
    if ltb n 26
    then n + 65
    else if ltb n 52
    then n + 71
    else if ltb n 62
    then n - 4
    else if n == 62
    then b'+'
    else b'/'

abbrev pub pad : ℕ
pad = b'='

-- `b64encode`, three bytes at a time.
unfoldable pub b64encode : List ℕ → Text
unfolding digit
b64encode [] = []
b64encode (a ∷ []) = digit (a / 4) ∷ digit (a % 4 * 16) ∷ pad ∷ pad ∷ []
b64encode (a ∷ b ∷ []) = digit (a / 4) ∷ digit (a % 4 * 16 + b / 16) ∷ digit (b % 16 * 4) ∷ pad ∷ []
b64encode (a ∷ b ∷ c ∷ rest) =
    digit (a / 4)
    ∷ digit (a % 4 * 16 + b / 16)
    ∷ digit (b % 16 * 4 + c / 64)
    ∷ digit (c % 64)
    ∷ b64encode rest

-- `rstrip("=")`
abbrev drop_pad : ℕ → Text → Text
drop_pad c [] = if c == pad then [] else c ∷ []
drop_pad c (d ∷ t) = c ∷ d ∷ t

unfoldable pub rstrip_pad : Text → Text
rstrip_pad [] = []
rstrip_pad (c ∷ s) = drop_pad c (rstrip_pad s)

-- `translate` of `+/` to `-_`
unfoldable pub url_digit : ℕ → ℕ
url_digit c = if c == b'+' then b'-' else if c == b'/' then b'_' else c

unfoldable pub token_urlsafe : List ℕ → Text
unfolding b64encode rstrip_pad url_digit
token_urlsafe random = rstrip_pad (map url_digit (b64encode random))

-- `table_a2b_base64`; `none` for a character that is no digit.
unfoldable pub digit_value : ℕ → Option ℕ
digit_value c =
    if leb b'A' c && leb c b'Z'
    then some (c - 65)
    else if leb b'a' c && leb c b'z'
    then some (c - 71)
    else if leb b'0' c && leb c b'9'
    then some (c + 4)
    else if c == b'+'
    then some 62
    else if c == b'/'
    then some 63
    else none

-- The loop's variables.
pub record Quad : Type 0 where
  pub quad_pos : ℕ
  pub leftchar : ℕ
  pub pads : ℕ
  pub padding_started : Bool

abbrev pub at_pos : ℕ → ℕ → Quad
at_pos quad_pos leftchar = record {
  quad_pos = quad_pos;
  leftchar = leftchar;
  pads = 0;
  padding_started = false;
}

-- `switch (quad_pos)`: the byte that is put out, where there is one, and the next state.
abbrev pub take_digit : ℕ → ℕ → ℕ → Option ℕ × Quad
take_digit zero left v = (none, at_pos 1 v)
take_digit (suc zero) left v = (some (left * 4 + v / 16), at_pos 2 (v % 16))
take_digit (suc (suc zero)) left v = (some (left * 16 + v / 4), at_pos 3 (v % 4))
take_digit (suc (suc (suc n))) left v = (some (left * 64 + v), at_pos 0 0)

abbrev pub put_byte : Option ℕ → Option (List ℕ) → Option (List ℕ)
put_byte none rest = rest
put_byte (some b) none = none
put_byte (some b) (some bytes) = some (b ∷ bytes)

abbrev pub ends_here : Text → Option (List ℕ)
ends_here [] = some []
ends_here (c ∷ s) = none

-- A padding character.
abbrev pub add_pad : Quad → Quad
add_pad q = record q {
  pads = if leb 2 q.quad_pos then q.pads + 1 else q.pads;
  padding_started = true;
}

abbrev pub is_padded : Quad → Bool
is_padded q = leb 2 q.quad_pos && leb 4 (q.quad_pos + (q.pads + 1))

-- The loop of `binascii.a2b_base64` in strict mode. `none` is the binascii.Error.
unfoldable pub a2b_loop : Text → Quad → Option (List ℕ)
unfolding digit_value
a2b_loop [] q = if q.quad_pos == 0 then some [] else none
a2b_loop (c ∷ s) q = elim (c == pad) [
  | true ↦ elim (is_padded q) [ true ↦ ends_here s | false ↦ a2b_loop s (add_pad q) ]
  | false ↦ elim (digit_value c) [
    | none ↦ none
    | some v ↦ elim q.padding_started [
      | true ↦ none
      | false ↦ let (out, q') = take_digit q.quad_pos q.leftchar v in put_byte out (a2b_loop s q')
    ]
  ]
]

-- `b64decode(s, validate=True)`: padding at the start is refused, then the loop.
unfoldable pub b64decode : Text → Option (List ℕ)
unfolding a2b_loop
b64decode [] = some []
b64decode (c ∷ s) = if c == pad then none else a2b_loop (c ∷ s) (at_pos 0 0)
