-- ===== src/Wireguard/Reader.antt =====
-- A reader of the managed part of wg0.conf, independent of `_render_config` of app/services/wireguard.py:
-- what it finds in the stanzas.
use mathlib.Core.List.{append_assoc, append-nil}
use mikrotik_cpe_cloud.Base.{
  ℕ, zero, suc, ◌+◌, ◌≡◌, refl, sym, ap, ◌∙◌, not, Bool, true, ◌&&◌, List, [], ◌∷◌, ◌++◌, Option,
  none, some, arith, length, map, All, ◌==◌, ==_refl, if◌then◌else◌,
}
use mikrotik_cpe_cloud.Base.Text.{Text, codes, find, join, text_eq}
use mikrotik_cpe_cloud.Ipv4.{before, split}
use mikrotik_cpe_cloud.Wireguard.{PeerRow, newline, to_stanza, managed_marker}

-- The lines of a text.
abbrev pub lines : Text → List Text
lines s = split 10 s

-- What follows a prefix.
unfoldable pub strip_prefix : Text → Text → Option Text
strip_prefix [] s = some s
strip_prefix (c ∷ p) [] = none
strip_prefix (c ∷ p) (d ∷ s) = let rest = strip_prefix p s in if c == d then rest else none

-- The five lines of a peer.
abbrev pub peer_of : Option Text → Bool → Option Text → Option Text → Bool → Option PeerRow
peer_of (some identity) true (some key) (some address) true =
    some (record { identity = identity; public_key = key; overlay_ip = before b'/' address })
peer_of _ _ _ _ _ = none

abbrev pub and_more : Option PeerRow → Option (List PeerRow) → Option (List PeerRow)
and_more (some p) (some ps) = some (p ∷ ps)
and_more _ _ = none

unfoldable pub read_peers : List Text → Option (List PeerRow)
read_peers [] = some []
read_peers ([] ∷ rest) = read_peers rest
read_peers ((c ∷ comment) ∷ header ∷ key ∷ address ∷ keepalive ∷ rest) =
    and_more
      (peer_of (strip_prefix (codes "# ") (c ∷ comment)) (text_eq header (codes "[Peer]"))
        (strip_prefix (codes "PublicKey = ") key) (strip_prefix (codes "AllowedIPs = ") address)
        (text_eq keepalive (codes "PersistentKeepalive = 25")))
      (read_peers rest)
read_peers _ = none

abbrev pub drop : ℕ → Text → Text
drop zero s = s
drop (suc n) [] = []
drop (suc n) (c ∷ s) = drop n s

abbrev pub after_marker : Option ℕ → Text → Option (List PeerRow)
after_marker none file = none
after_marker (some n) file = read_peers (lines (drop (n + length managed_marker) file))

-- The peers after the marker.
unfoldable pub managed_peers : Text → Option (List PeerRow)
managed_peers file = after_marker (find managed_marker file) file

-- A text without a character.
unfoldable pub lacks : ℕ → Text → Bool
lacks d [] = true
lacks d (c ∷ s) = not (c == d) && lacks d s

-- The fields of a peer have no line breaks, and the address has no slash.
abbrev pub IsPlain : PeerRow → Type 0
IsPlain p =
    (lacks 10 p.identity ≡ true)
    × (lacks 10 p.public_key ≡ true)
    × (lacks 10 p.overlay_ip ≡ true)
    × (lacks b'/' p.overlay_ip ≡ true)

lines-append :
    (line rest : Text) → lacks 10 line ≡ true → lines (line ++ 10 ∷ rest) ≡ line ∷ lines rest
unfolding split lacks
lines-append [] rest h = refl
lines-append (c ∷ line) rest h = ground (arith, lines-append line rest)

lacks-append : (d : ℕ) (s t : Text) → lacks d s ≡ true → lacks d t ≡ true → lacks d (s ++ t) ≡ true
unfolding lacks
lacks-append d [] t h k = k
lacks-append d (c ∷ s) t h k = ground (arith, lacks-append d s t)

strip_prefix-append : (p s : Text) → strip_prefix p (p ++ s) ≡ some s
unfolding strip_prefix
strip_prefix-append [] s = refl
strip_prefix-append (c ∷ p) s = rw (==_refl c, strip_prefix-append p s) refl

before-append : (s : Text) → lacks b'/' s ≡ true → before b'/' (s ++ codes "/32") ≡ s
unfolding before lacks
before-append [] h = refl
before-append (c ∷ s) h = ground (arith, before-append s)

stanza_parts :
    (p : PeerRow) (rest : Text)
    → to_stanza p ++ rest
      ≡ (codes "# " ++ p.identity)
        ++ 10
          ∷ (codes "[Peer]"
              ++ 10
                ∷ ((codes "PublicKey = " ++ p.public_key)
                    ++ 10
                      ∷ ((codes "AllowedIPs = " ++ (p.overlay_ip ++ codes "/32"))
                          ++ 10 ∷ (codes "PersistentKeepalive = 25" ++ 10 ∷ rest))))
unfolding to_stanza
stanza_parts p rest = simp append_assoc

-- A stanza in front of a text, line by line.
stanza-lines :
    (p : PeerRow) (rest : Text)
    → IsPlain p
    → lines (to_stanza p ++ rest)
      ≡ (codes "# " ++ p.identity)
        ∷ codes "[Peer]"
        ∷ (codes "PublicKey = " ++ p.public_key)
        ∷ (codes "AllowedIPs = " ++ (p.overlay_ip ++ codes "/32"))
        ∷ codes "PersistentKeepalive = 25"
        ∷ lines rest
unfolding lacks
stanza-lines p rest (identity, key, address, _) =
    rw
      (
        stanza_parts p rest,
        lines-append (codes "# " ++ p.identity) _ identity,
        lines-append (codes "[Peer]") _ refl,
        lines-append (codes "PublicKey = " ++ p.public_key) _ key,
        lines-append (codes "AllowedIPs = " ++ (p.overlay_ip ++ codes "/32")) _
            (lacks-append 10 p.overlay_ip (codes "/32") address refl),
        lines-append (codes "PersistentKeepalive = 25") rest refl,
      )
      refl

read_peers-stanza :
    (p : PeerRow) (rest : List Text) (ps : List PeerRow)
    → IsPlain p
    → read_peers rest ≡ some ps
    → read_peers (
        (codes "# " ++ p.identity)
        ∷ codes "[Peer]"
        ∷ (codes "PublicKey = " ++ p.public_key)
        ∷ (codes "AllowedIPs = " ++ (p.overlay_ip ++ codes "/32"))
        ∷ codes "PersistentKeepalive = 25"
        ∷ rest)
      ≡ some (p ∷ ps)
unfolding read_peers text_eq
read_peers-stanza p rest ps (_, _, _, no_slash) e =
    rw
      (
        e,
        strip_prefix-append (codes "# ") p.identity,
        strip_prefix-append (codes "PublicKey = ") p.public_key,
        strip_prefix-append (codes "AllowedIPs = ") (p.overlay_ip ++ codes "/32"),
        before-append p.overlay_ip no_slash,
      )
      refl

-- The stanzas, joined by line breaks, are read as the peers.
pub read_peers-join :
    (ps : List PeerRow)
    → All IsPlain ps
    → read_peers (lines (join newline (map to_stanza ps))) ≡ some ps
unfolding join split read_peers
read_peers-join [] h = refl
read_peers-join (p ∷ []) (h, hs) =
    ap (λ t. read_peers (lines t)) (sym (append-nil (to_stanza p)))
    ∙ ap read_peers (stanza-lines p [] h)
    ∙ read_peers-stanza p (lines []) [] h refl
read_peers-join (p ∷ q ∷ ps) (h, hs) =
    ap read_peers (stanza-lines p (10 ∷ join newline (map to_stanza (q ∷ ps))) h)
    ∙ read_peers-stanza p (lines (10 ∷ join newline (map to_stanza (q ∷ ps)))) (q ∷ ps) h
        (read_peers-join (q ∷ ps) hs)
