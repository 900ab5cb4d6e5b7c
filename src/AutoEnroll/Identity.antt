-- ===== src/AutoEnroll/Identity.antt =====
-- `_IDENTITY_AUTO_APPROVE` and `_initial_status_for` of app/routers/auto_enroll.py, and
-- `_parse_ros_major`.
use mikrotik_cpe_cloud.Base.{
  ℕ, zero, suc, ◌+◌, ◌-◌, ◌*◌, Bool, true, false, not, ◌&&◌, ◌||◌, List, [], ◌∷◌, Option, none,
  some, ◌==◌, if◌then◌else◌,
}
use mikrotik_cpe_cloud.Base.Text.{Text, codes, strip}
use mikrotik_cpe_cloud.Base.Int.{ℤ, pos, negsuc}
use mikrotik_cpe_cloud.Ipv4.{before, is_digit}
use mikrotik_cpe_cloud.Models.{Status, active, pending}

-- The items of a pattern: a literal character, and `.+`.
pub data Item : Type 0 where
  chr : ℕ → Item
  dots : Item

abbrev pub newline : ℕ
newline = 10

-- `$`: the end, or a line break before the end.
abbrev pub at_end : Text → Bool
at_end [] = true
at_end (c ∷ []) = c == newline
at_end (c ∷ d ∷ s) = false

-- `re.match` of the items and then `$`, with backtracking over the length of each `.+`.
unfoldable pub matches : List Item → Text → Bool
matches [] s = at_end s
matches (chr c ∷ p) [] = false
matches (chr c ∷ p) (d ∷ s) = let rest = matches p s in c == d && rest
matches (dots ∷ p) [] = false
matches (dots ∷ p) (d ∷ s) =
    let here = matches p s in let on = matches (dots ∷ p) s in not (d == newline) && (here || on)

abbrev pub literal : Text → List Item → List Item
literal [] p = p
literal (c ∷ s) p = chr c ∷ literal s p

-- `^hAP .+ - .+, .+$`
abbrev pub identity_pattern : List Item
identity_pattern =
    literal (codes "hAP ") (dots ∷ literal (codes " - ") (dots ∷ literal (codes ", ") (dots ∷ [])))

-- `_initial_status_for`
unfoldable pub initial_status_for : Text → Status
unfolding matches
initial_status_for identity = if matches identity_pattern identity then active else pending

-- The digits of `int(s)`, single underscores between them allowed; `last` says that a digit has
-- just been read.
unfoldable pub int_digits : Text → ℕ → Bool → Option ℕ
int_digits [] acc last = if last then some acc else none
int_digits (c ∷ s) acc last =
    let digit = int_digits s (acc * 10 + (c - 48)) true in
    let underscore = int_digits s acc false in
    if is_digit c then digit else if c == b'_' && last then underscore else none

abbrev negative : Option ℕ → Option ℤ
negative none = none
negative (some zero) = some (pos 0)
negative (some (suc n)) = some (negsuc n)

abbrev positive : Option ℕ → Option ℤ
positive none = none
positive (some n) = some (pos n)

abbrev signed : Text → Option ℤ
signed [] = none
signed (c ∷ s) =
    if c == b'-'
    then negative (int_digits s 0 false)
    else if c == b'+'
    then positive (int_digits s 0 false)
    else positive (int_digits (c ∷ s) 0 false)

-- `int(s)` of an ASCII text; `none` is the ValueError.
unfoldable pub int_of_text : Text → Option ℤ
unfolding int_digits
int_of_text s = signed (strip s)

-- `_parse_ros_major`
unfoldable pub parse_ros_major : Text → Option ℤ
unfolding int_of_text before
parse_ros_major version = int_of_text (before b'.' version)
