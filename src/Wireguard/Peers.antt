-- ===== src/Wireguard/Peers.antt =====
-- `_coerce_ip` and `_fetch_active_peers`.
use mikrotik_cpe_cloud.Base.{
  ℕ, ◌^◌, ◌<◌, ◌≡◌, refl, sym, ap, ◌∙◌, ◌⊎◌, inl, inr, ◌↔◌, true, List, [], ◌∷◌, ◌++◌, Option, none,
  some, arith, In, In-branch, In-select, select-In, select,
}
use mikrotik_cpe_cloud.Base.Text.{Text}
use mikrotik_cpe_cloud.Base.Result.{Result, ok, err, >>=-returned}
use mikrotik_cpe_cloud.Models.{
  Inet, text, Router, Status, active, pending, decommissioned, quarantined,
}
use mikrotik_cpe_cloud.Ipv4.{ipv4_str}
use mikrotik_cpe_cloud.Ipv4.Print.{IsSuffix, before-ipv4_str, parse_ipv4-ipv4_str}
use mikrotik_cpe_cloud.Wireguard.{
  PeerRow, coerce_ip, is_peer, insert_by_ip, order_by_ip, peer_row, peer_rows, fetch_active_peers,
}

-- An address that was stored as its text is read back, with or without a prefix behind it.
pub coerce_ip-ipv4_str :
    (ip : ℕ) (suffix : Text)
    → ip < 2 ^ 32
    → IsSuffix suffix
    → coerce_ip (text (ipv4_str ip ++ suffix)) ≡ ok ip
unfolding coerce_ip
coerce_ip-ipv4_str ip suffix h k =
    rw (before-ipv4_str ip suffix h k, parse_ipv4-ipv4_str ip h, coerce_ip)

-- What a stanza is made from.
pub record Describes (r : Router) (p : PeerRow) : Type 0 where
  pub is_active : r.status ≡ active
  pub identity : p.identity ≡ r.identity
  pub public_key : r.wg_public_key ≡ some p.public_key
  pub stored : Inet
  pub has_address : r.wg_overlay_ip ≡ some stored
  pub ip : ℕ
  pub reads : coerce_ip stored ≡ ok ip
  pub overlay_ip : p.overlay_ip ≡ ipv4_str ip

peer_row-Describes :
    (r : Router) (p : PeerRow)
    → is_peer r ≡ true
    → peer_row r.identity r.wg_public_key r.wg_overlay_ip ≡ ok p
    → Describes r p
peer_row-Describes r p h e = go r.status r.wg_public_key r.wg_overlay_ip refl refl refl
  where
    go :
        (s : Status) (k : Option Text) (o : Option Inet)
        → r.status ≡ s
        → r.wg_public_key ≡ k
        → r.wg_overlay_ip ≡ o
        → Describes r p
    go active (some k) (some v) f g i = last (coerce_ip v) refl
      where
        last : (c : Result ℕ) → coerce_ip v ≡ c → Describes r p
        last (err x) j = absurd (ground (arith, f, g, i, j, e))
        last (ok ip) j = record {
          is_active = f;
          identity = ground (arith, f, g, i, j, e);
          public_key = ground (arith, f, g, i, j, e);
          stored = v;
          has_address = i;
          ip = ip;
          reads = j;
          overlay_ip = ground (arith, f, g, i, j, e);
        }
    go active (some k) none f g i = absurd (ground (arith, f, g, i, h))
    go active none o f g i = absurd (ground (arith, f, g, i, h))
    go pending k o f g i = absurd (ground (arith, f, g, i, h))
    go decommissioned k o f g i = absurd (ground (arith, f, g, i, h))
    go quarantined k o f g i = absurd (ground (arith, f, g, i, h))

In-insert_by_ip :
    (r : Router) (qs : List Router) (x : Router) → In x (insert_by_ip r qs) ↔ ((x ≡ r) ⊎ In x qs)
unfolding insert_by_ip
In-insert_by_ip r [] x = (λ m. m, λ m. m)
In-insert_by_ip r (q ∷ qs) x = In-branch _ r q qs _ x (In-insert_by_ip r qs x)

In-order_by_ip : (rs : List Router) (x : Router) → In x (order_by_ip rs) ↔ In x rs
unfolding order_by_ip
In-order_by_ip [] x = (λ m. m, λ m. m)
In-order_by_ip (r ∷ rs) x =
    let (from, into) = In-insert_by_ip r (order_by_ip rs) x in
    let (from', into') = In-order_by_ip rs x in
    (
      λ m. elim (from m) [ inl e ↦ inl e | inr n ↦ inr (from' n) ],
      λ m. elim m [ inl e ↦ into (inl e) | inr n ↦ into (inr (into' n)) ],
    )

peer_rows-cons :
    (r : Router) (rs : List Router) (peers : List PeerRow)
    → peer_rows (r ∷ rs) ≡ ok peers
    → (p : PeerRow) × (ps : List PeerRow) × (peer_row r.identity r.wg_public_key r.wg_overlay_ip
        ≡ ok p)
      × (peer_rows rs ≡ ok ps)
      × (peers ≡ p ∷ ps)
unfolding peer_rows
peer_rows-cons r rs peers h =
    let (p, e, k) = >>=-returned (peer_row r.identity r.wg_public_key r.wg_overlay_ip) _ h in
    let (ps, e', k') = >>=-returned (peer_rows rs) _ k in (p, ps, e, e', ground (arith, k'))

peer_rows_sound :
    (rs : List Router) (peers : List PeerRow) (p : PeerRow)
    → peer_rows rs ≡ ok peers
    → In p peers
    → (r : Router) × (In r rs) × (peer_row r.identity r.wg_public_key r.wg_overlay_ip ≡ ok p)
peer_rows_sound [] peers p h m =
    let e : peers ≡ [] = unfold peer_rows in ground (arith, h) in absurd (rw e at m)
peer_rows_sound (r ∷ rs) peers p h m =
    let (q, ps, e, e', s) = peer_rows-cons r rs peers h in
    elim (rw s at m) [
      | inl x ↦ (r, inl refl, e ∙ ap ok (sym x))
      | inr n ↦ let (r', i, e'') = peer_rows_sound rs ps p e' n in (r', inr i, e'')
    ]

peer_rows_complete :
    (rs : List Router) (peers : List PeerRow) (r : Router)
    → peer_rows rs ≡ ok peers
    → In r rs
    → (p : PeerRow) × (In p peers) × (peer_row r.identity r.wg_public_key r.wg_overlay_ip ≡ ok p)
peer_rows_complete [] peers r h m = absurd m
peer_rows_complete (q ∷ rs) peers r h m =
    let (p, ps, e, e', s) = peer_rows-cons q rs peers h in
    elim m [
      | inl x ↦ (p, rw s (inl refl), rw x e)
      | inr n ↦ let (p', i, e'') = peer_rows_complete rs ps r e' n in (p', rw s (inr i), e'')
    ]

-- Every peer that is found describes an active router of the table that has a key and an address,
-- and every such router is described by a peer that is found.
pub fetch_active_peers_lem :
    (routers : List Router) (peers : List PeerRow)
    → fetch_active_peers routers ≡ ok peers
    → ((p : PeerRow) → In p peers → (r : Router) × (In r routers) × Describes r p)
      × ((r : Router)
          → In r routers
          → is_peer r ≡ true
          → (p : PeerRow) × (In p peers) × Describes r p)
unfolding fetch_active_peers
fetch_active_peers_lem routers peers h = (
  λ p m.
      let (r, i, e) = peer_rows_sound (order_by_ip (select is_peer routers)) peers p h m in
      let (a, j) = In-select is_peer routers r ((In-order_by_ip (select is_peer routers) r).0 i) in
      (r, j, peer_row-Describes r p a e),
  λ r i a.
      let j = (In-order_by_ip (select is_peer routers) r).1 (select-In is_peer routers r a i) in
      let (p, m, e) = peer_rows_complete (order_by_ip (select is_peer routers)) peers r h j in
      (p, m, peer_row-Describes r p a e),
)
