-- ===== src/Base64/Decode.antt =====
-- What is encoded is decoded again, and what is decoded are bytes.
use mikrotik_cpe_cloud.Base.{
  ℕ, zero, suc, ◌+◌, ◌*◌, ◌/◌, ◌%◌, ◌<◌, ◌≡◌, refl, ap, ◌⊎◌, inl, inr, Bool, true, false, List, [],
  ◌∷◌, Option, none, some, arith, ◌==◌, All, Bool-cases,
}
use mikrotik_cpe_cloud.Base.Text.{Text}
use mikrotik_cpe_cloud.Base64.{
  digit, pad, b64encode, digit_value, Quad, at_pos, take_digit, put_byte, ends_here, add_pad,
  is_padded, a2b_loop, b64decode,
}

pub digit-ne-pad : (n : ℕ) → n < 64 → (digit n == pad) ≡ false
unfolding digit
digit-ne-pad n h = ground arith

digit_value-digit : (n : ℕ) → n < 64 → digit_value (digit n) ≡ some n
unfolding digit digit_value
digit_value-digit n h = ground arith

-- A digit in the loop.
a2b_loop-digit :
    (v : ℕ) (s : Text) (pos left : ℕ)
    → v < 64
    → a2b_loop (digit v ∷ s) (at_pos pos left)
      ≡ put_byte (take_digit pos left v).0 (a2b_loop s (take_digit pos left v).1)
unfolding a2b_loop
a2b_loop-digit v s pos left h = rw (digit-ne-pad v h, digit_value-digit v h, a2b_loop)

-- One padding character ends a quad of three digits, and two one of two.
pad_three : (left : ℕ) → a2b_loop (pad ∷ []) (at_pos 3 left) ≡ some []
unfolding a2b_loop
pad_three left = refl

pad_two : (left : ℕ) → a2b_loop (pad ∷ pad ∷ []) (at_pos 2 left) ≡ some []
unfolding a2b_loop
pad_two left = refl

first_byte : (a x : ℕ) → a < 256 → x < 16 → a / 4 * 4 + (a % 4 * 16 + x) / 16 ≡ a
first_byte a x h k = omega arith

a2b_loop-b64encode :
    (bs : List ℕ) → All (λ b. b < 256) bs → a2b_loop (b64encode bs) (at_pos 0 0) ≡ some bs
unfolding b64encode
a2b_loop-b64encode [] h = unfold a2b_loop in refl
a2b_loop-b64encode (a ∷ []) (ha, _) =
    rw
      (
        a2b_loop-digit (a / 4) _ 0 0 (omega arith),
        a2b_loop-digit (a % 4 * 16) _ 1 (a / 4) (omega arith),
        pad_two,
      )
      (ap (λ x. some (x ∷ [])) (omega arith))
a2b_loop-b64encode (a ∷ b ∷ []) (ha, (hb, _)) =
    let ea : a / 4 * 4 + (a % 4 * 16 + b / 16) / 16 ≡ a = omega arith in
    let eb : (a % 4 * 16 + b / 16) % 16 * 16 + b % 16 * 4 / 4 ≡ b = omega arith in
    rw
      (
        a2b_loop-digit (a / 4) _ 0 0 (omega arith),
        a2b_loop-digit (a % 4 * 16 + b / 16) _ 1 (a / 4) (omega arith),
        a2b_loop-digit (b % 16 * 4) _ 2 ((a % 4 * 16 + b / 16) % 16) (omega arith),
        pad_three,
      )
      (cc (ea, eb))
a2b_loop-b64encode (a ∷ b ∷ c ∷ rest) (ha, (hb, (hc, h))) =
    let ea : a / 4 * 4 + (a % 4 * 16 + b / 16) / 16 ≡ a = omega arith in
    let eb : (a % 4 * 16 + b / 16) % 16 * 16 + (b % 16 * 4 + c / 64) / 4 ≡ b = omega arith in
    let ec : (b % 16 * 4 + c / 64) % 4 * 64 + c % 64 ≡ c = omega arith in
    rw
      (
        a2b_loop-digit (a / 4) _ 0 0 (omega arith),
        a2b_loop-digit (a % 4 * 16 + b / 16) _ 1 (a / 4) (omega arith),
        a2b_loop-digit (b % 16 * 4 + c / 64) _ 2 ((a % 4 * 16 + b / 16) % 16) (omega arith),
        a2b_loop-digit (c % 64) _ 3 ((b % 16 * 4 + c / 64) % 4) (omega arith),
        a2b_loop-b64encode rest h,
      )
      (cc (ea, eb, ec))

-- Decoding gives back the bytes that were encoded.
pub b64decode-b64encode : (bs : List ℕ) → All (λ b. b < 256) bs → b64decode (b64encode bs) ≡ some bs
unfolding b64decode b64encode
b64decode-b64encode [] h = refl
b64decode-b64encode (a ∷ []) h =
    rw (digit-ne-pad (a / 4) (omega arith)) (a2b_loop-b64encode (a ∷ []) h)
b64decode-b64encode (a ∷ b ∷ []) h =
    rw (digit-ne-pad (a / 4) (omega arith)) (a2b_loop-b64encode (a ∷ b ∷ []) h)
b64decode-b64encode (a ∷ b ∷ c ∷ rest) h =
    rw (digit-ne-pad (a / 4) (omega arith)) (a2b_loop-b64encode (a ∷ b ∷ c ∷ rest) h)

digit_value-lt : (c v : ℕ) → digit_value c ≡ some v → v < 64
unfolding digit_value
digit_value-lt c v h = ground arith

-- What is left over at each position.
abbrev IsSmall : Quad → Type 0
IsSmall q =
    (q.quad_pos ≡ 0)
    ⊎ ((q.quad_pos ≡ 1) × (q.leftchar < 64))
    ⊎ ((q.quad_pos ≡ 2) × (q.leftchar < 16))
    ⊎ ((q.quad_pos ≡ 3) × (q.leftchar < 4))

abbrev AreBytes : Option (List ℕ) → Type 0
AreBytes none = Unit
AreBytes (some bs) = All (λ b. b < 256) bs

abbrev IsByte : Option ℕ → Type 0
IsByte none = Unit
IsByte (some b) = b < 256

put_byte-AreBytes :
    (o : Option ℕ) (rest : Option (List ℕ)) → IsByte o → AreBytes rest → AreBytes (put_byte o rest)
put_byte-AreBytes none rest h k = k
put_byte-AreBytes (some b) none h k = tt
put_byte-AreBytes (some b) (some bs) h k = (h, k)

take_digit-IsSmall :
    (pos left pads v : ℕ) (started : Bool)
    → v < 64
    → IsSmall (record { quad_pos = pos; leftchar = left; pads = pads; padding_started = started })
    → IsByte (take_digit pos left v).0 × IsSmall (take_digit pos left v).1
take_digit-IsSmall zero left pads v started h k = (tt, inr (inl (refl, h)))
take_digit-IsSmall (suc zero) left pads v started h k = ground arith
take_digit-IsSmall (suc (suc zero)) left pads v started h k = ground arith
take_digit-IsSmall (suc (suc (suc n))) left pads v started h k = ground arith

ends_here-AreBytes : (s : Text) → AreBytes (ends_here s)
ends_here-AreBytes [] = tt
ends_here-AreBytes (c ∷ s) = tt

a2b_loop-AreBytes : (s : Text) (q : Quad) → IsSmall q → AreBytes (a2b_loop s q)
unfolding a2b_loop
a2b_loop-AreBytes [] q h = elim (Bool-cases (q.quad_pos == 0)) [
  | inl e ↦ rw (e, a2b_loop) tt
  | inr e ↦ rw (e, a2b_loop) tt
]
a2b_loop-AreBytes (c ∷ s) q h =
    go (λ q' k. a2b_loop-AreBytes s q' k) (c == pad) (is_padded q) (digit_value c) q.padding_started
      refl refl refl refl
  where
    go :
        ((q' : Quad) → IsSmall q' → AreBytes (a2b_loop s q'))
        → (b p : Bool) (o : Option ℕ) (t : Bool) → (c == pad) ≡ b
        → is_padded q ≡ p
        → digit_value c ≡ o
        → q.padding_started ≡ t
        → AreBytes (a2b_loop (c ∷ s) q)
    go ih true true o t e f g i = rw (e, f, a2b_loop) (ends_here-AreBytes s)
    go ih true false o t e f g i = rw (e, f, a2b_loop) (ih (add_pad q) h)
    go ih false p none t e f g i = rw (e, g, a2b_loop) tt
    go ih false p (some v) true e f g i = simp (e, g, i, a2b_loop) tt
    go ih false p (some v) false e f g i =
        let (small, next) =
          take_digit-IsSmall q.quad_pos q.leftchar q.pads v q.padding_started (digit_value-lt c v g)
            h in
        simp (e, g, i, a2b_loop)
          (put_byte-AreBytes (take_digit q.quad_pos q.leftchar v).0 _ small
            (ih (take_digit q.quad_pos q.leftchar v).1 next))

b64decode-AreBytes : (s : Text) → AreBytes (b64decode s)
unfolding b64decode
b64decode-AreBytes [] = tt
b64decode-AreBytes (c ∷ s) = elim (Bool-cases (c == pad)) [
  | inl e ↦ rw e tt
  | inr e ↦ rw e (a2b_loop-AreBytes (c ∷ s) (at_pos 0 0) (inl refl))
]

-- What is decoded are bytes.
pub b64decode_bytes : (s : Text) (bs : List ℕ) → b64decode s ≡ some bs → All (λ b. b < 256) bs
b64decode_bytes s bs e = rw e at (b64decode-AreBytes s)
