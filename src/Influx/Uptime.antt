-- ===== src/Influx/Uptime.antt =====
-- `_UPTIME_RE` and `_parse_uptime` of app/services/influx.py. Digits are ASCII.
use mikrotik_cpe_cloud.Base.{
  ℕ, ◌+◌, ◌*◌, Bool, true, false, [], ◌∷◌, Option, none, some, ◌==◌, if◌then◌else◌,
}
use mikrotik_cpe_cloud.Base.Text.{Text, strip}
use mikrotik_cpe_cloud.Base.Decimal.{value}
use mikrotik_cpe_cloud.Ipv4.{is_digit}

-- `\d+`, as far as it goes, and what follows.
unfoldable pub span_digits : Text → Text × Text
span_digits [] = ([], [])
span_digits (c ∷ s) =
    let (word, rest) = span_digits s in if is_digit c then (c ∷ word, rest) else ([], c ∷ s)

abbrev pub take_part : ℕ → Text → Text → Text → Option Text × Text
take_part unit s (c ∷ word) (u ∷ rest) = if u == unit then (some (c ∷ word), rest) else (none, s)
take_part unit s _ _ = (none, s)

-- `(?:(?P<unit>\d+)unit)?` at the start of a text, and what is left.
unfoldable pub part : ℕ → Text → Option Text × Text
unfolding span_digits
part unit s = let (word, rest) = span_digits s in take_part unit s word rest

-- `int(v) * seconds` where the group has matched.
abbrev pub seconds_of : ℕ → Option Text → ℕ
seconds_of seconds none = 0
seconds_of seconds (some v) = value 0 v * seconds

abbrev pub all_seen : Text → Bool
all_seen [] = true
all_seen (c ∷ s) = false

-- The match and the sum, on a stripped text. A line break before `$` has been stripped.
unfoldable pub parse_stripped : Text → ℕ
unfolding part
parse_stripped s =
    let (w, s1) = part b'w' s in
    let (d, s2) = part b'd' s1 in
    let (h, s3) = part b'h' s2 in
    let (m, s4) = part b'm' s3 in
    let (sec, s5) = part b's' s4 in
    if all_seen s5
    then seconds_of 604800 w
      + (seconds_of 86400 d + (seconds_of 3600 h + (seconds_of 60 m + seconds_of 1 sec)))
    else 0

-- `_parse_uptime`; where no group has matched, the sum is the 0 that it returns early.
unfoldable pub parse_uptime : Text → ℕ
unfolding parse_stripped strip
parse_uptime s = parse_stripped (strip s)
