-- ===== src/Ipv4.antt =====
-- The standard library's `ipaddress` as app/services/wireguard.py uses it. An IPv4 address is a
-- number below 2^32.
pub mod Print
pub mod Cidr
use mikrotik_cpe_cloud.Base.{
  ℕ, zero, suc, ◌+◌, ◌-◌, ◌*◌, ◌/◌, ◌%◌, ◌^◌, Bool, true, false, not, ◌&&◌, ◌||◌, List, [], ◌∷◌,
  ◌++◌, Option, none, some, ltb, leb, ◌==◌, if◌then◌else◌,
}
use mikrotik_cpe_cloud.Base.Text.{Text}

abbrev pub dot : ℕ
dot = b'.'

-- `str(octet)` for a number below 256.
unfoldable pub octet_str : ℕ → Text
octet_str n =
    if ltb n 10
    then (n + 48) ∷ []
    else if ltb n 100
    then (n / 10 + 48) ∷ (n % 10 + 48) ∷ []
    else (n / 100 + 48) ∷ (n / 10 % 10 + 48) ∷ (n % 10 + 48) ∷ []

-- `str(IPv4Address)`
unfoldable pub ipv4_str : ℕ → Text
unfolding octet_str
ipv4_str ip =
    octet_str (ip / 2 ^ 24)
    ++ dot
      ∷ (octet_str (ip / 2 ^ 16 % 256)
          ++ dot ∷ (octet_str (ip / 2 ^ 8 % 256) ++ dot ∷ octet_str (ip % 256)))

-- `s.split(c, 1)[0]`
unfoldable pub before : ℕ → Text → Text
before c [] = []
before c (d ∷ s) = let rest = before c s in if d == c then [] else d ∷ rest

abbrev push : ℕ → List Text → List Text
push d [] = (d ∷ []) ∷ []
push d (p ∷ ps) = (d ∷ p) ∷ ps

-- `s.split(c)`
unfoldable pub split : ℕ → Text → List Text
split c [] = [] ∷ []
split c (d ∷ s) = let parts = split c s in if d == c then [] ∷ parts else push d parts

abbrev pub is_digit : ℕ → Bool
is_digit c = leb b'0' c && leb c b'9'

-- `int(octet_str, 10)` of ASCII digits.
unfoldable pub digits_value : ℕ → Text → Option ℕ
digits_value n [] = some n
digits_value n (c ∷ s) =
    let rest = digits_value (n * 10 + (c - 48)) s in if is_digit c then rest else none

abbrev below_256 : Option ℕ → Option ℕ
below_256 none = none
below_256 (some n) = if leb n 255 then some n else none

-- `IPv4Address._parse_octet`: no empty octet, ASCII digits, at most three, no leading zero, at most
-- 255. `none` is the ValueError.
unfoldable pub parse_octet : Text → Option ℕ
unfolding digits_value
parse_octet [] = none
parse_octet (c ∷ []) = below_256 (digits_value 0 (c ∷ []))
parse_octet (c ∷ d ∷ []) = if c == b'0' then none else below_256 (digits_value 0 (c ∷ d ∷ []))
parse_octet (c ∷ d ∷ e ∷ []) =
    if c == b'0' then none else below_256 (digits_value 0 (c ∷ d ∷ e ∷ []))
parse_octet (c ∷ d ∷ e ∷ f ∷ s) = none

unfoldable pub join_octets : Option ℕ → Option ℕ → Option ℕ → Option ℕ → Option ℕ
join_octets (some a) (some b) (some c) (some d) = some (a * 2 ^ 24 + b * 2 ^ 16 + c * 2 ^ 8 + d)
join_octets _ _ _ _ = none

abbrev four_octets : List Text → Option ℕ
four_octets (a ∷ b ∷ c ∷ d ∷ []) =
    join_octets (parse_octet a) (parse_octet b) (parse_octet c) (parse_octet d)
four_octets _ = none

-- `IPv4Address(s)`
unfoldable pub parse_ipv4 : Text → Option ℕ
unfolding split parse_octet join_octets
parse_ipv4 s = four_octets (split dot s)

-- `IPv4Network` with its prefix length.
pub record Network : Type 0 where
  pub network_address : ℕ
  pub prefixlen : ℕ

unfoldable pub num_addresses : Network → ℕ
num_addresses net = 2 ^ (32 - net.prefixlen)

-- `IPv4Network.hosts`: the first address and the number of addresses that it goes through.
unfoldable pub first_host : Network → ℕ
first_host net = if leb 31 net.prefixlen then net.network_address else net.network_address + 1

unfoldable pub host_count : Network → ℕ
unfolding num_addresses
host_count net =
    if net.prefixlen == 32 then 1 else if net.prefixlen == 31 then 2 else num_addresses net - 2
