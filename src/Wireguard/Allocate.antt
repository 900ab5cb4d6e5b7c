-- ===== src/Wireguard/Allocate.antt =====
-- `allocate_overlay_ip` gives the lowest free host, where there is one.
use mikrotik_cpe_cloud.Base.{
  ℕ, ◌+◌, ◌≤◌, ◌<◌, ◌≡◌, refl, ap, ◌⊎◌, inl, inr, List, ◌∷◌, Option, none, some, arith,
}
use mikrotik_cpe_cloud.Base.Result.{Result, ok, err, value_error, runtime_error}
use mikrotik_cpe_cloud.Models.{Router}
use mikrotik_cpe_cloud.Config.{Settings}
use mikrotik_cpe_cloud.Ipv4.{parse_ipv4, first_host, host_count}
use mikrotik_cpe_cloud.Wireguard.{used_ips, first_free, allocate_overlay_ip}
use mikrotik_cpe_cloud.Wireguard.Used.{Taken, used_ips-err, contains-Taken, first_free-some}

module _ (settings : Settings) (routers : List Router) where
  abbrev first_ip : ℕ
  first_ip = first_host settings.overlay_network

  abbrev end_ip : ℕ
  end_ip = first_host settings.overlay_network + host_count settings.overlay_network

  -- The three ways in which a call ends.
  data Ending (result : Result ℕ) : Type 0 where
    unreadable : result ≡ err value_error → Ending result
    found :
        (server : ℕ) (used : List ℕ) (ip : ℕ)
        → parse_ipv4 settings.wg_server_ip ≡ some server
        → used_ips routers ≡ ok used
        → first_free (host_count settings.overlay_network) first_ip (server ∷ used) ≡ some ip
        → result ≡ ok ip
        → Ending result
    exhausted :
        (server : ℕ) (used : List ℕ)
        → parse_ipv4 settings.wg_server_ip ≡ some server
        → used_ips routers ≡ ok used
        → first_free (host_count settings.overlay_network) first_ip (server ∷ used) ≡ none
        → result ≡ err runtime_error
        → Ending result

  allocate-unreadable :
      (s : Option ℕ) (u : Result (List ℕ))
      → parse_ipv4 settings.wg_server_ip ≡ s
      → used_ips routers ≡ u
      → (s ≡ none) ⊎ (u ≡ err value_error)
      → allocate_overlay_ip settings routers ≡ err value_error
  unfolding allocate_overlay_ip
  allocate-unreadable s u p q (inl e) = ground (arith, p, e)
  allocate-unreadable none u p q (inr e) = ground (arith, p)
  allocate-unreadable (some server) u p q (inr e) = ground (arith, p, q, e)

  allocate-readable :
      (server : ℕ) (used : List ℕ) (o : Option ℕ)
      → parse_ipv4 settings.wg_server_ip ≡ some server
      → used_ips routers ≡ ok used
      → first_free (host_count settings.overlay_network) first_ip (server ∷ used) ≡ o
      → allocate_overlay_ip settings routers ≡ elim o [ none ↦ err runtime_error | some ip ↦ ok ip ]
  unfolding allocate_overlay_ip
  allocate-readable server used o p q r = ground (arith, p, q, r)

  allocate-Ending : Ending (allocate_overlay_ip settings routers)
  allocate-Ending = go (parse_ipv4 settings.wg_server_ip) (used_ips routers) refl refl
    where
      last :
          (server : ℕ) (used : List ℕ) (o : Option ℕ)
          → parse_ipv4 settings.wg_server_ip ≡ some server
          → used_ips routers ≡ ok used
          → first_free (host_count settings.overlay_network) first_ip (server ∷ used) ≡ o
          → Ending (allocate_overlay_ip settings routers)
      last server used none p q r =
          exhausted server used p q r (allocate-readable server used none p q r)
      last server used (some ip) p q r =
          found server used ip p q r (allocate-readable server used (some ip) p q r)

      go :
          (s : Option ℕ) (u : Result (List ℕ))
          → parse_ipv4 settings.wg_server_ip ≡ s
          → used_ips routers ≡ u
          → Ending (allocate_overlay_ip settings routers)
      go none u p q = unreadable (allocate-unreadable none u p q (inl refl))
      go (some server) (err e) p q =
          unreadable (
            allocate-unreadable (some server) (err e) p q (inr (ap err (used_ips-err routers e q))))
      go (some server) (ok used) p q =
          last server used
            (first_free (host_count settings.overlay_network) first_ip (server ∷ used)) p q refl

  -- An address that `allocate_overlay_ip` returns is a host of the overlay network that no router
  -- and not the server has, and every lower host of the network is taken.
  pub allocate_fresh :
      (ip : ℕ)
      → allocate_overlay_ip settings routers ≡ ok ip
      → (first_ip ≤ ip)
        × (ip < end_ip)
        × (¬ Taken settings routers ip)
        × ((j : ℕ) → first_ip ≤ j → j < ip → Taken settings routers j)
  allocate_fresh ip h = go (allocate-Ending)
    where
      go :
          Ending (allocate_overlay_ip settings routers)
          → (first_ip ≤ ip)
            × (ip < end_ip)
            × (¬ Taken settings routers ip)
            × ((j : ℕ) → first_ip ≤ j → j < ip → Taken settings routers j)
      go (unreadable e) = cc
      go (exhausted server used p q r e) = cc
      go (found server used x p q r e) =
          let same : x ≡ ip = cc in
          let (a, b, f, all) = first_free-some _ _ (server ∷ used) ip (rw (← same) r) in
          (
            a,
            b,
            λ t. cc ((contains-Taken settings routers used server ip p q).1 t, f),
            λ j l u. (contains-Taken settings routers used server j p q).0 (all j l u),
          )
