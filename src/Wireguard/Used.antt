-- ===== src/Wireguard/Used.antt =====
-- The addresses that the rows hold, and the search for one that none holds.
use mikrotik_cpe_cloud.Base.{
  ℕ, zero, suc, ◌+◌, ◌≤◌, ◌<◌, ◌≡◌, refl, ◌⊎◌, inl, inr, ◌↔◌, true, false, List, [], ◌∷◌, Option,
  none, some, arith, ◌==◌, Bool-cases,
}
use mikrotik_cpe_cloud.Base.Result.{Result, ok, err, Exn, value_error, ◌>>=◌}
use mikrotik_cpe_cloud.Models.{Inet, Router}
use mikrotik_cpe_cloud.Config.{Settings}
use mikrotik_cpe_cloud.Ipv4.{parse_ipv4}
use mikrotik_cpe_cloud.Wireguard.{coerce_ip, used_ips, contains, first_free}

-- The overlay address of a row, where it has one that can be read.
abbrev pub overlay_of : Option Inet → Result ℕ
overlay_of none = err value_error
overlay_of (some v) = coerce_ip v

-- A router has the address.
abbrev pub TakenBy : List Router → ℕ → Type 0
TakenBy [] ip = ⊥
TakenBy (r ∷ rs) ip = (overlay_of r.wg_overlay_ip ≡ ok ip) ⊎ TakenBy rs ip

-- A router or the server has the address.
abbrev pub Taken : Settings → List Router → ℕ → Type 0
Taken settings routers ip = (parse_ipv4 settings.wg_server_ip ≡ some ip) ⊎ TakenBy routers ip

used_ips-cons :
    (v : Option Inet) (rest : Result (List ℕ)) (used : List ℕ)
    → (elim v [ none ↦ rest | some w ↦ (do ip ← coerce_ip w; ips ← rest; ok (ip ∷ ips)) ]) ≡ ok used
    → ((v ≡ none) × (rest ≡ ok used))
      ⊎ ((ip : ℕ) × (ips : List ℕ) × (overlay_of v ≡ ok ip) × (rest ≡ ok ips) × (used ≡ ip ∷ ips))
used_ips-cons none rest used h = inl (refl, h)
used_ips-cons (some w) rest used h = go (coerce_ip w) rest refl refl
  where
    go :
        (c : Result ℕ) (r : Result (List ℕ))
        → coerce_ip w ≡ c
        → rest ≡ r
        → ((some w ≡ none) × (rest ≡ ok used))
          ⊎ ((ip : ℕ) × (ips : List ℕ) × (coerce_ip w ≡ ok ip)
              × (rest ≡ ok ips)
              × (used ≡ ip ∷ ips))
    go (err e) r f g = absurd (ground (arith, f, h))
    go (ok ip) (err e) f g = absurd (ground (arith, f, g, h))
    go (ok ip) (ok ips) f g = inr (ip, ips, f, g, ground (arith, f, g, h))

coerce_ip-err : (v : Inet) (e : Exn) → coerce_ip v ≡ err e → e ≡ value_error
unfolding coerce_ip
coerce_ip-err v e h = ground arith

pub used_ips-err : (routers : List Router) (e : Exn) → used_ips routers ≡ err e → e ≡ value_error
unfolding used_ips
used_ips-err [] e h = cc
used_ips-err (r ∷ rs) e h = go r.wg_overlay_ip (used_ips rs) (λ x. used_ips-err rs x) h
  where
    go :
        (v : Option Inet) (rest : Result (List ℕ))
        → ((x : Exn) → rest ≡ err x → x ≡ value_error)
        → (elim v [ none ↦ rest | some w ↦ (do ip ← coerce_ip w; ips ← rest; ok (ip ∷ ips)) ])
          ≡ err e
        → e ≡ value_error
    go none rest ih k = ih e k
    go (some w) rest ih k = ground (arith, coerce_ip-err w e, ih e)

contains-used_ips :
    (routers : List Router) (used : List ℕ) (ip : ℕ)
    → used_ips routers ≡ ok used
    → (contains ip used ≡ true) ↔ TakenBy routers ip
unfolding used_ips contains
contains-used_ips [] used ip h = (λ c. ground arith, λ t. absurd t)
contains-used_ips (r ∷ rs) used ip h = elim (used_ips-cons r.wg_overlay_ip (used_ips rs) used h) [
  | inl (n, e) ↦ ground (arith, contains-used_ips rs used ip e)
  | inr (u, us, o, e, x) ↦ ground (arith, contains-used_ips rs us ip e)
]

pub first_free-some :
    (n c : ℕ) (used : List ℕ) (ip : ℕ)
    → first_free n c used ≡ some ip
    → (c ≤ ip)
      × (ip < c + n)
      × (contains ip used ≡ false)
      × ((j : ℕ) → c ≤ j → j < ip → contains j used ≡ true)
unfolding first_free
first_free-some zero c used ip h = cc
first_free-some (suc n) c used ip h = elim (Bool-cases (contains c used)) [
  | inl e ↦
      let (a, b, f, all) = first_free-some n (c + 1) used ip (ground (arith, e, h)) in
      (
        omega arith,
        omega arith,
        f,
        λ j p q. elim (Bool-cases (j == c)) [
          | inl s ↦ let s' : j ≡ c = ground (arith, s) in rw s' e
          | inr s ↦ all j (ground (arith, s)) q
        ],
      )
  | inr e ↦
      let s : c ≡ ip = ground (arith, e, h) in
      (omega arith, omega arith, rw (← s) e, λ j p q. absurd (omega arith))
]

pub first_free-none :
    (n c : ℕ) (used : List ℕ)
    → first_free n c used ≡ none
    → (j : ℕ) → c ≤ j
    → j < c + n
    → contains j used ≡ true
unfolding first_free
first_free-none zero c used h j p q = absurd (omega arith)
first_free-none (suc n) c used h j p q = elim (Bool-cases (contains c used)) [
  | inl e ↦ elim (Bool-cases (j == c)) [
    | inl s ↦ let s' : j ≡ c = ground (arith, s) in rw s' e
    | inr s ↦
        first_free-none n (c + 1) used (ground (arith, e, h)) j (ground (arith, s)) (omega arith)
  ]
  | inr e ↦ absurd (ground (arith, e, h))
]

pub contains-Taken :
    (settings : Settings) (routers : List Router) (used : List ℕ) (server ip : ℕ)
    → parse_ipv4 settings.wg_server_ip ≡ some server
    → used_ips routers ≡ ok used
    → (contains ip (server ∷ used) ≡ true) ↔ Taken settings routers ip
unfolding contains
contains-Taken settings routers used server ip s u =
    ground (arith, contains-used_ips routers used ip u)
