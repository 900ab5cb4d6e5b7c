-- ===== src/Ipv4/Cidr.antt =====
-- The standard library's `IPv4Network` of a text, as app/config.py calls it: the parser, and the
-- networks that it returns.
use Prim.Native.Nat.{◌∣◌}
use native.Mathlib.Nat.{
  dvd-add, dvd-add_iff_right, dvd_of_mod-eq-zero, dvd_refl, le_of_dvd, two-pow-succ,
}
use mikrotik_cpe_cloud.Base.{
  ℕ, zero, suc, ◌+◌, ◌-◌, ◌%◌, ◌^◌, ◌≤◌, ◌<◌, ◌≡◌, refl, subst, sym, List, [], ◌∷◌, Option, none,
  some, arith, leb, ◌==◌, ==_iff, Bool-cases, inl, inr, if◌then◌else◌,
}
use mikrotik_cpe_cloud.Base.Text.{Text}
use mikrotik_cpe_cloud.Ipv4.{
  dot, split, is_digit, digits_value, parse_octet, join_octets, parse_ipv4, Network, num_addresses,
}

abbrev pub or_else : Option ℕ → Option ℕ → Option ℕ
or_else (some p) other = some p
or_else none other = other

abbrev up_to_32 : Option ℕ → Option ℕ
up_to_32 none = none
up_to_32 (some p) = if leb p 32 then some p else none

-- `_prefix_from_prefix_string`: ASCII digits, at most 32.
unfoldable pub prefix_from_prefix_string : Text → Option ℕ
unfolding digits_value
prefix_from_prefix_string [] = none
prefix_from_prefix_string (c ∷ s) = up_to_32 (digits_value 0 (c ∷ s))

-- `_prefix_from_ip_int`, for a prefix up to the first argument: the number whose highest bits are
-- the ones.
unfoldable pub prefix_from_ip_int : ℕ → ℕ → Option ℕ
prefix_from_ip_int zero ip = if ip == 0 then some 0 else none
prefix_from_ip_int (suc p) ip =
    let rest = prefix_from_ip_int p ip in if ip == 2 ^ 32 - 2 ^ (31 - p) then some (suc p) else rest

-- `_prefix_from_ip_string`: a netmask, or else a hostmask.
abbrev pub prefix_from_ip : Option ℕ → Option ℕ
prefix_from_ip none = none
prefix_from_ip (some ip) =
    or_else (prefix_from_ip_int 32 ip) (prefix_from_ip_int 32 (2 ^ 32 - 1 - ip))

-- `_make_netmask` of a text.
unfoldable pub make_netmask : Text → Option ℕ
unfolding prefix_from_prefix_string prefix_from_ip_int parse_ipv4
make_netmask arg = or_else (prefix_from_prefix_string arg) (prefix_from_ip (parse_ipv4 arg))

-- An address with host bits is a ValueError.
abbrev pub strict : Option ℕ → Option ℕ → Option Network
strict (some ip) (some p) =
    if ip % 2 ^ (32 - p) == 0 then some (record { network_address = ip; prefixlen = p }) else none
strict _ _ = none

abbrev pub network_of : List Text → Option Network
network_of (addr ∷ []) = strict (parse_ipv4 addr) (some 32)
network_of (addr ∷ mask ∷ []) = strict (parse_ipv4 addr) (make_netmask mask)
network_of _ = none

-- `IPv4Network(s)`; `none` is the ValueError.
unfoldable pub parse_network : Text → Option Network
unfolding split make_netmask parse_ipv4
parse_network s = network_of (split b'/' s)

octet-bound : (s : Text) (n : ℕ) → parse_octet s ≡ some n → n ≤ 255
unfolding parse_octet
octet-bound s n h = ground (arith, h)

join_octets-bound :
    (a b c d : Option ℕ) (ip : ℕ)
    → ((n : ℕ) → a ≡ some n → n ≤ 255)
    → ((n : ℕ) → b ≡ some n → n ≤ 255)
    → ((n : ℕ) → c ≡ some n → n ≤ 255)
    → ((n : ℕ) → d ≡ some n → n ≤ 255)
    → join_octets a b c d ≡ some ip
    → ip < 2 ^ 32
unfolding join_octets
join_octets-bound (some a) (some b) (some c) (some d) ip ha hb hc hd h =
    ground (arith, ha a refl, hb b refl, hc c refl, hd d refl, h)
join_octets-bound none b c d ip ha hb hc hd h = ground (arith, h)
join_octets-bound (some a) none c d ip ha hb hc hd h = ground (arith, h)
join_octets-bound (some a) (some b) none d ip ha hb hc hd h = ground (arith, h)
join_octets-bound (some a) (some b) (some c) none ip ha hb hc hd h = ground (arith, h)

-- A parsed address is one of 32 bits.
pub parse_ipv4-bound : (s : Text) (ip : ℕ) → parse_ipv4 s ≡ some ip → ip < 2 ^ 32
unfolding parse_ipv4
parse_ipv4-bound s ip h = go (split dot s) h
  where
    go : (parts : List Text) → mikrotik_cpe_cloud.Ipv4.four_octets parts ≡ some ip → ip < 2 ^ 32
    go (a ∷ b ∷ c ∷ d ∷ []) h =
        join_octets-bound (parse_octet a) (parse_octet b) (parse_octet c) (parse_octet d) ip
          (octet-bound a) (octet-bound b) (octet-bound c) (octet-bound d) h
    go [] h = ground (arith, h)
    go (a ∷ []) h = ground (arith, h)
    go (a ∷ b ∷ []) h = ground (arith, h)
    go (a ∷ b ∷ c ∷ []) h = ground (arith, h)
    go (a ∷ b ∷ c ∷ d ∷ e ∷ rest) h = ground (arith, h)

prefix_from_ip_int-bound : (n ip p : ℕ) → prefix_from_ip_int n ip ≡ some p → p ≤ n
unfolding prefix_from_ip_int
prefix_from_ip_int-bound zero ip p h = ground (arith, h)
prefix_from_ip_int-bound (suc n) ip p h = ground (arith, h, prefix_from_ip_int-bound n ip p)

or_else-bound :
    (a b : Option ℕ) (n p : ℕ)
    → ((q : ℕ) → a ≡ some q → q ≤ n)
    → ((q : ℕ) → b ≡ some q → q ≤ n)
    → or_else a b ≡ some p
    → p ≤ n
or_else-bound (some q) b n p f g h = f p h
or_else-bound none b n p f g h = g p h

up_to_32-bound : (o : Option ℕ) (p : ℕ) → up_to_32 o ≡ some p → p ≤ 32
up_to_32-bound o p h = ground (arith, h)

prefix_from_prefix_string-bound : (s : Text) (p : ℕ) → prefix_from_prefix_string s ≡ some p → p ≤ 32
unfolding prefix_from_prefix_string
prefix_from_prefix_string-bound [] p h = ground (arith, h)
prefix_from_prefix_string-bound (c ∷ s) p h = up_to_32-bound (digits_value 0 (c ∷ s)) p h

prefix_from_ip-bound : (o : Option ℕ) (p : ℕ) → prefix_from_ip o ≡ some p → p ≤ 32
prefix_from_ip-bound none p h = ground (arith, h)
prefix_from_ip-bound (some ip) p h =
    or_else-bound (prefix_from_ip_int 32 ip) (prefix_from_ip_int 32 (2 ^ 32 - 1 - ip)) 32 p
      (prefix_from_ip_int-bound 32 ip) (prefix_from_ip_int-bound 32 (2 ^ 32 - 1 - ip)) h

make_netmask-bound : (s : Text) (p : ℕ) → make_netmask s ≡ some p → p ≤ 32
unfolding make_netmask
make_netmask-bound s p h =
    or_else-bound (prefix_from_prefix_string s) (prefix_from_ip (parse_ipv4 s)) 32 p
      (prefix_from_prefix_string-bound s) (prefix_from_ip-bound (parse_ipv4 s)) h

pow-dvd : (k d : ℕ) → 2 ^ k ∣ 2 ^ (d + k)
pow-dvd k zero = let e : k ≡ 0 + k = omega arith in subst (λ n. 2 ^ k ∣ 2 ^ n) e (dvd_refl (2 ^ k))
pow-dvd k (suc d) =
    let e : suc (d + k) ≡ suc d + k = omega arith in
    subst (λ n. 2 ^ k ∣ 2 ^ n) e
      (subst (λ n. 2 ^ k ∣ n) (sym (two-pow-succ (d + k)))
        (dvd-add (2 ^ k) (pow-dvd k d) (pow-dvd k d)))

-- The block of a multiple of `m` below `n` ends by `n`, where `m` divides `n`.
block-le : (ip m n : ℕ) → ip % m ≡ 0 → m ∣ n → ip < n → ip + m ≤ n
block-le ip m n h d l =
    let e : n ≡ ip + (n - ip) = omega arith in
    let rest : m ∣ n - ip =
      (dvd-add_iff_right m (dvd_of_mod-eq-zero m h)).1 (subst (λ k. m ∣ k) e d) in
    let within : m ≤ n - ip = le_of_dvd (omega arith) rest in omega arith

-- A network of at most 32 bits, whose addresses are of 32 bits, and whose own address is aligned.
pub record IsNetwork (net : Network) : Type 0 where
  pub prefix_bound : net.prefixlen ≤ 32
  pub aligned : net.network_address % num_addresses net ≡ 0
  pub last_bound : net.network_address + num_addresses net ≤ 2 ^ 32

block-IsNetwork :
    (ip p : ℕ)
    → ip < 2 ^ 32
    → p ≤ 32
    → ip % 2 ^ (32 - p) ≡ 0
    → IsNetwork (record { network_address = ip; prefixlen = p })
unfolding num_addresses
block-IsNetwork ip p l b e =
    let same : p + (32 - p) ≡ 32 = omega arith in
    record {
      prefix_bound = b;
      aligned = e;
      last_bound =
          block-le ip (2 ^ (32 - p)) (2 ^ 32) e
            (subst (λ n. 2 ^ (32 - p) ∣ 2 ^ n) same (pow-dvd (32 - p) p)) l;
    }

strict-IsNetwork :
    (a o : Option ℕ) (net : Network)
    → ((ip : ℕ) → a ≡ some ip → ip < 2 ^ 32)
    → ((p : ℕ) → o ≡ some p → p ≤ 32)
    → strict a o ≡ some net
    → IsNetwork net
strict-IsNetwork none o net f g h = ground (arith, h)
strict-IsNetwork (some ip) none net f g h = ground (arith, h)
strict-IsNetwork (some ip) (some p) net f g h = elim (Bool-cases (ip % 2 ^ (32 - p) == 0)) [
  | inl e ↦
      let is_net : record { network_address = ip; prefixlen = p } ≡ net = ground (arith, h, e) in
      subst IsNetwork is_net
        (block-IsNetwork ip p (f ip refl) (g p refl) ((==_iff (ip % 2 ^ (32 - p)) 0).0 e))
  | inr e ↦ ground (arith, h, e)
]

-- A text that `IPv4Network` accepts is a network of 32 bits whose own address has no host bits.
pub parse_network-IsNetwork :
    (s : Text) (net : Network) → parse_network s ≡ some net → IsNetwork net
unfolding parse_network
parse_network-IsNetwork s net h = go (split b'/' s) h
  where
    go : (parts : List Text) → network_of parts ≡ some net → IsNetwork net
    go [] h = ground (arith, h)
    go (addr ∷ []) h =
        strict-IsNetwork (parse_ipv4 addr) (some 32) net (parse_ipv4-bound addr)
          (λ p e. ground (arith, e)) h
    go (addr ∷ mask ∷ []) h =
        strict-IsNetwork (parse_ipv4 addr) (make_netmask mask) net (parse_ipv4-bound addr)
          (make_netmask-bound mask) h
    go (addr ∷ mask ∷ more ∷ rest) h = ground (arith, h)
