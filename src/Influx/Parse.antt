-- ===== src/Influx/Parse.antt =====
-- The uptimes that RouterOS writes are read back.
use mikrotik_cpe_cloud.Base.{
  ℕ, ◌+◌, ◌*◌, ◌≤◌, ◌≡◌, ◌≢◌, refl, ap, [], ◌∷◌, ◌++◌, Option, none, some, arith, All, All-append,
  All-map,
}
use mathlib.Core.List.{append_assoc}
use mikrotik_cpe_cloud.Base.Text.{Text, is_space}
use mikrotik_cpe_cloud.Base.Strip.{HasNoSpace, strip-HasNoSpace}
use mikrotik_cpe_cloud.Base.Decimal.{str, value-str, str-All, str-ne-nil, IsDigit}
use mikrotik_cpe_cloud.Influx.Uptime.{
  span_digits, take_part, part, seconds_of, parse_stripped, parse_uptime,
}

-- A part of an uptime that is given, and one that is left out.
abbrev pub show : ℕ → Option ℕ → Text
show unit none = []
show unit (some n) = str n ++ unit ∷ []

abbrev pub times_of : ℕ → Option ℕ → ℕ
times_of seconds none = 0
times_of seconds (some n) = n * seconds

-- A small letter.
abbrev IsLetter : ℕ → Type 0
IsLetter c = (97 ≤ c) × (c ≤ 122)

span_digits-append :
    (ds : Text) (u : ℕ) (rest : Text)
    → All IsDigit ds
    → IsLetter u
    → span_digits (ds ++ u ∷ rest) ≡ (ds, u ∷ rest)
unfolding span_digits
span_digits-append [] u rest h l = ground (arith, l)
span_digits-append (d ∷ ds) u rest (h, hs) l = ground (arith, h, span_digits-append ds u rest hs l)

take_part_same :
    (u : ℕ) (s ds rest : Text) → ds ≢ [] → take_part u s ds (u ∷ rest) ≡ (some ds, rest)
take_part_same u s [] rest n = absurd (n refl)
take_part_same u s (d ∷ ds) rest n = ground arith

take_part_other : (u v : ℕ) (s ds rest : Text) → v ≢ u → take_part u s ds (v ∷ rest) ≡ (none, s)
take_part_other u v s [] rest n = refl
take_part_other u v s (d ∷ ds) rest n = ground (arith, n)

-- The text has no part of the unit at its start.
abbrev Skips : ℕ → Text → Type 0
Skips u s = part u s ≡ (none, s)

Skips-nil : (u : ℕ) → Skips u []
unfolding part span_digits
Skips-nil u = refl

part-some : (u n : ℕ) (rest : Text) → IsLetter u → part u (str n ++ u ∷ rest) ≡ (some (str n), rest)
unfolding part
part-some u n rest l =
    rw (span_digits-append (str n) u rest (str-All n) l)
      (take_part_same u (str n ++ u ∷ rest) (str n) rest (str-ne-nil n))

Skips-some : (u v n : ℕ) (rest : Text) → IsLetter v → v ≢ u → Skips u (str n ++ v ∷ rest)
unfolding part
Skips-some u v n rest l ne =
    rw (span_digits-append (str n) v rest (str-All n) l)
      (take_part_other u v (str n ++ v ∷ rest) (str n) rest ne)

-- What stands in the text after a part that is given.
show-append : (u n : ℕ) (rest : Text) → show u (some n) ++ rest ≡ str n ++ u ∷ rest
show-append u n rest = append_assoc (str n) (u ∷ []) rest

Skips-show :
    (u v : ℕ) (o : Option ℕ) (rest : Text)
    → IsLetter v
    → v ≢ u
    → Skips u rest
    → Skips u (show v o ++ rest)
Skips-show u v none rest l ne h = h
Skips-show u v (some n) rest l ne h = rw (show-append v n rest) (Skips-some u v n rest l ne)

-- A part is read, and adds its seconds.
part-show :
    (u seconds : ℕ) (o : Option ℕ) (rest : Text)
    → IsLetter u
    → Skips u rest
    → (seconds_of seconds (part u (show u o ++ rest)).0 ≡ times_of seconds o)
      × ((part u (show u o ++ rest)).1 ≡ rest)
part-show u seconds none rest l h = (rw h refl, rw h refl)
part-show u seconds (some n) rest l h =
    rw (show-append u n rest, part-some u n rest l) (ap (λ z. z * seconds) (value-str n), refl)

show-HasNoSpace : (u : ℕ) (o : Option ℕ) → IsLetter u → HasNoSpace (show u o)
unfolding is_space
show-HasNoSpace u none l = tt
show-HasNoSpace u (some n) l =
    All-append _ (str n) (u ∷ []) (All-map IsDigit _ (λ c d. ground (arith, d)) (str n) (str-All n))
      (ground (arith, l), tt)

-- What RouterOS writes for an uptime, with any of the parts left out.
abbrev pub uptime : (w d h m sec : Option ℕ) → Text
uptime w d h m sec =
    show b'w' w ++ (show b'd' d ++ (show b'h' h ++ (show b'm' m ++ (show b's' sec ++ []))))

module _ (w d h m sec : Option ℕ) where
  abbrev from_s : Text
  from_s = show b's' sec ++ []

  abbrev from_m : Text
  from_m = show b'm' m ++ from_s

  abbrev from_h : Text
  from_h = show b'h' h ++ from_m

  abbrev from_d : Text
  from_d = show b'd' d ++ from_h

  uptime-HasNoSpace : HasNoSpace (uptime w d h m sec)
  uptime-HasNoSpace =
      All-append _ (show b'w' w) _ (show-HasNoSpace b'w' w (omega arith, omega arith)) (
        All-append _ (show b'd' d) _ (show-HasNoSpace b'd' d (omega arith, omega arith)) (
          All-append _ (show b'h' h) _ (show-HasNoSpace b'h' h (omega arith, omega arith)) (
            All-append _ (show b'm' m) _ (show-HasNoSpace b'm' m (omega arith, omega arith)) (
              All-append _ (show b's' sec) [] (show-HasNoSpace b's' sec (omega arith, omega arith))
                tt))))

  Skips-from_s : (u : ℕ) → b's' ≢ u → Skips u from_s
  Skips-from_s u n = Skips-show u b's' sec [] (omega arith, omega arith) n (Skips-nil u)

  Skips-from_m : (u : ℕ) → b'm' ≢ u → b's' ≢ u → Skips u from_m
  Skips-from_m u n k = Skips-show u b'm' m from_s (omega arith, omega arith) n (Skips-from_s u k)

  Skips-from_h : (u : ℕ) → b'h' ≢ u → b'm' ≢ u → b's' ≢ u → Skips u from_h
  Skips-from_h u a b c =
      Skips-show u b'h' h from_m (omega arith, omega arith) a (Skips-from_m u b c)

  Skips-from_d : (u : ℕ) → b'd' ≢ u → b'h' ≢ u → b'm' ≢ u → b's' ≢ u → Skips u from_d
  Skips-from_d u a b c e =
      Skips-show u b'd' d from_h (omega arith, omega arith) a (Skips-from_h u b c e)

  parse_stripped-uptime :
      parse_stripped (uptime w d h m sec)
      ≡ times_of 604800 w
        + (times_of 86400 d + (times_of 3600 h + (times_of 60 m + times_of 1 sec)))
  unfolding parse_stripped
  parse_stripped-uptime =
      let (a1, r1) =
        part-show b'w' 604800 w from_d (omega arith, omega arith)
          (Skips-from_d b'w' (omega arith) (omega arith) (omega arith) (omega arith)) in
      let (a2, r2) =
        part-show b'd' 86400 d from_h (omega arith, omega arith)
          (Skips-from_h b'd' (omega arith) (omega arith) (omega arith)) in
      let (a3, r3) =
        part-show b'h' 3600 h from_m (omega arith, omega arith)
          (Skips-from_m b'h' (omega arith) (omega arith)) in
      let (a4, r4) =
        part-show b'm' 60 m from_s (omega arith, omega arith) (Skips-from_s b'm' (omega arith)) in
      let (a5, r5) = part-show b's' 1 sec [] (omega arith, omega arith) (Skips-nil b's') in
      rw (a1, r1, a2, r2, a3, r3, a4, r4, a5, r5) refl

  -- An uptime as RouterOS writes it, weeks, days, hours, minutes and seconds, each a number or left
  -- out, is read as its number of seconds.
  pub parse_uptime-uptime :
      parse_uptime (uptime w d h m sec)
      ≡ times_of 604800 w
        + (times_of 86400 d + (times_of 3600 h + (times_of 60 m + times_of 1 sec)))
  unfolding parse_uptime
  parse_uptime-uptime =
      rw (strip-HasNoSpace (uptime w d h m sec) uptime-HasNoSpace) parse_stripped-uptime
