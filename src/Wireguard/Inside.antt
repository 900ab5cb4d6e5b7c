-- ===== src/Wireguard/Inside.antt =====
-- The addresses that `allocate_overlay_ip` of app/services/wireguard.py returns, for settings that
-- app/config.py accepts.
use mathlib.Core.List.{append-nil}
use mikrotik_cpe_cloud.Base.{
  ℕ, ◌+◌, ◌^◌, ◌≤◌, ◌<◌, ◌≡◌, ◌≢◌, sym, subst, ap, ◌∙◌, inl, inr, List, [], arith, ◌==◌, ==_iff,
  Bool-cases,
}
use mikrotik_cpe_cloud.Base.Result.{ok}
use mikrotik_cpe_cloud.Models.{Router, text}
use mikrotik_cpe_cloud.Config.{Settings, Environment, get_settings, get_settings-parse_network}
use mikrotik_cpe_cloud.Ipv4.{Network, num_addresses, first_host, host_count, ipv4_str}
use mikrotik_cpe_cloud.Ipv4.Cidr.{IsNetwork, parse_network-IsNetwork}
use mikrotik_cpe_cloud.Wireguard.{allocate_overlay_ip, coerce_ip}
use mikrotik_cpe_cloud.Wireguard.Allocate.{allocate_fresh}
use mikrotik_cpe_cloud.Wireguard.Peers.{coerce_ip-ipv4_str}

-- An address of the network, and in a network with more than two addresses neither the first nor the
-- last one.
abbrev pub Inside : Network → ℕ → Type 0
Inside net ip =
    (net.network_address ≤ ip)
    × (ip < net.network_address + num_addresses net)
    × (net.prefixlen ≤ 30
        → (ip ≢ net.network_address) × (ip + 1 ≢ net.network_address + num_addresses net))

abbrev network : ℕ → ℕ → Network
network na p = record { network_address = na; prefixlen = p }

module _ (na ip : ℕ) where
  abbrev HostsInside : ℕ → Type 0
  HostsInside p =
      first_host (network na p) ≤ ip
      → ip < first_host (network na p) + host_count (network na p)
      → Inside (network na p) ip

  one_host : HostsInside 32
  unfolding first_host host_count num_addresses
  one_host l u = (omega arith, omega arith, λ h. absurd (omega arith))

  two_hosts : HostsInside 31
  unfolding first_host host_count num_addresses
  two_hosts l u = (omega arith, omega arith, λ h. absurd (omega arith))

  all_but_two : (p : ℕ) → p ≤ 30 → HostsInside p
  unfolding first_host host_count num_addresses
  all_but_two p b l u = (ground arith, ground arith, λ h. (λ k. ground arith, λ k. ground arith))

  hosts-Inside : (p : ℕ) → p ≤ 32 → HostsInside p
  hosts-Inside p b = elim (Bool-cases (p == 32)) [
    | inl e ↦ subst HostsInside (sym ((==_iff p 32).0 e)) one_host
    | inr e ↦ elim (Bool-cases (p == 31)) [
      | inl f ↦ subst HostsInside (sym ((==_iff p 31).0 f)) two_hosts
      | inr f ↦ all_but_two p (ground (arith, b, e, f))
    ]
  ]

-- An address that is written to a row is read from it.
pub coerce_ip-stored : (ip : ℕ) → ip < 2 ^ 32 → coerce_ip (text (ipv4_str ip)) ≡ ok ip
coerce_ip-stored ip h =
    ap (λ s. coerce_ip (text s)) (sym (append-nil (ipv4_str ip))) ∙ coerce_ip-ipv4_str ip [] h tt

-- For settings that are accepted at the start, whatever the environment holds: an address that
-- `allocate_overlay_ip` returns is one of 32 bits in the overlay network, it is neither the network's
-- own address nor its broadcast address where the prefix leaves more than two addresses, and the text
-- that is stored for it is read back as that address.
pub allocate-Inside :
    (env : Environment) (settings : Settings) (routers : List Router) (ip : ℕ)
    → get_settings env ≡ ok settings
    → allocate_overlay_ip settings routers ≡ ok ip
    → Inside settings.overlay_network ip × (ip < 2 ^ 32) × (coerce_ip (text (ipv4_str ip)) ≡ ok ip)
allocate-Inside env settings routers ip accepted h =
    let net = settings.overlay_network in
    let sound : IsNetwork net =
      parse_network-IsNetwork settings.wg_overlay_cidr net
        (get_settings-parse_network env settings accepted) in
    let (lower, upper, _, _) = allocate_fresh settings routers ip h in
    let inside = hosts-Inside net.network_address ip net.prefixlen sound.prefix_bound lower upper in
    let bound : ip < 2 ^ 32 = omega (arith, inside.1, sound.last_bound) in
    (inside, bound, coerce_ip-stored ip bound)
