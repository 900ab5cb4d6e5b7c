-- ===== src/Wireguard/Managed.antt =====
-- What the reader finds in a file that `_render_config` and `sync_from_db` of app/services/wireguard.py
-- have written.
use mathlib.Core.List.{append_assoc}
use mikrotik_cpe_cloud.Base.{
  ℕ, suc, ◌+◌, ◌≡◌, refl, sym, ap, ◌∙◌, List, [], ◌∷◌, ◌++◌, Option, some, arith, length, map, All,
}
use mikrotik_cpe_cloud.Base.Text.{Text, codes, join, rstrip, is_space}
use mikrotik_cpe_cloud.Base.Strip.{rstrip-append}
use mikrotik_cpe_cloud.Ipv4.{split}
use mikrotik_cpe_cloud.Base.Result.{ok}
use mikrotik_cpe_cloud.Models.{Router}
use mikrotik_cpe_cloud.Config.{Settings}
use mikrotik_cpe_cloud.Wireguard.File.{Dir, Fault}
use mikrotik_cpe_cloud.Wireguard.Sync.{sync_from_db-ok}
use mikrotik_cpe_cloud.Wireguard.{
  SyncSummary, sync_from_db, fetch_active_peers, PeerRow, newline, to_stanza, managed_marker,
  interface_block, render_config,
}
use mikrotik_cpe_cloud.Wireguard.Conf.{
  body, body-IsClean, tail, render_config-shape, rstrip-interface_block, find-marker,
}
use mikrotik_cpe_cloud.Wireguard.Reader.{
  lines, read_peers, drop, after_marker, managed_peers, IsPlain, read_peers-join,
}

-- A stanza before its last two characters.
stanza_init : PeerRow → Text
stanza_init p =
    codes "# "
    ++ (p.identity
        ++ (codes "\n[Peer]\nPublicKey = "
            ++ (p.public_key
                ++ (codes "\nAllowedIPs = "
                    ++ (p.overlay_ip ++ codes "/32\nPersistentKeepalive = 2")))))

to_stanza-end : (p : PeerRow) → to_stanza p ≡ stanza_init p ++ b'5' ∷ newline
unfolding to_stanza stanza_init
to_stanza-end p = simp append_assoc

join-end :
    (p : PeerRow) (ps : List PeerRow)
    → (s : Text) × (join newline (map to_stanza (p ∷ ps)) ≡ s ++ b'5' ∷ newline)
unfolding join
join-end p [] = (stanza_init p, to_stanza-end p)
join-end p (q ∷ ps) =
    let (s, e) = join-end q ps in
    (to_stanza p ++ (newline ++ s), ap (λ t. to_stanza p ++ (newline ++ t)) e ∙ simp append_assoc)

-- No line break but the last is taken off the end of the stanzas.
rstrip-stanzas :
    (p : PeerRow) (ps : List PeerRow)
    → rstrip (10 ∷ 10 ∷ join newline (map to_stanza (p ∷ ps))) ++ newline
      ≡ 10 ∷ 10 ∷ join newline (map to_stanza (p ∷ ps))
unfolding is_space rstrip
rstrip-stanzas p ps =
    let (s, e) = join-end p ps in
    ap (λ t. rstrip (10 ∷ 10 ∷ t) ++ newline) e
    ∙ ap (λ t. t ++ newline) (rstrip-append (10 ∷ 10 ∷ s) newline b'5' refl)
    ∙ ap (λ t. 10 ∷ 10 ∷ t) (append_assoc s (b'5' ∷ []) newline ∙ sym e)

read_peers-tail : (ps : List PeerRow) → All IsPlain ps → read_peers (lines (tail ps)) ≡ some ps
unfolding tail join split read_peers rstrip is_space
read_peers-tail [] h = refl
read_peers-tail (p ∷ ps) h =
    ap (λ t. read_peers (lines t)) (rstrip-stanzas p ps) ∙ read_peers-join (p ∷ ps) h

drop-marker :
    (b w : Text)
    → drop (length b + 2 + length managed_marker) (b ++ 10 ∷ (10 ∷ (managed_marker ++ w))) ≡ w
drop-marker [] w = refl
drop-marker (c ∷ b) w =
    let e : length (c ∷ b) + 2 + length managed_marker
        ≡ suc (length b + 2 + length managed_marker) =
      omega arith in
    rw e (drop-marker b w)

-- Whatever the file held: if no identity, key or address of the peers has a line break, and no address
-- a slash, then the peers that a reader finds after the marker of the rendered file are these peers, in
-- their order.
managed_peers-render_config :
    (content : Text) (peers : List PeerRow)
    → All IsPlain peers
    → managed_peers (render_config (interface_block content) peers) ≡ some peers
unfolding managed_peers
managed_peers-render_config content peers h =
    let file = body content ++ 10 ∷ (10 ∷ (managed_marker ++ tail peers)) in
    ap managed_peers (
      render_config-shape (interface_block content) peers
      ∙ ap (λ b. b ++ 10 ∷ (10 ∷ (managed_marker ++ tail peers))) (rstrip-interface_block content))
    ∙ ap (λ o. after_marker o file)
        (find-marker (body content) (tail peers) (body-IsClean content).no_marker)
    ∙ ap (λ t. read_peers (lines t)) (drop-marker (body content) (tail peers))
    ∙ read_peers-tail peers h

-- After `sync_from_db` has returned: if no identity, key or address of the active peers has a line
-- break, and no address a slash, then the peers that a reader finds in the file are the active peers of
-- the table, in their order, and their number is the summary's.
pub managed_peers-sync_from_db :
    (settings : Settings) (routers : List Router) (fault : Option Fault) (rc : ℕ) (dir : Dir)
    (summary : SyncSummary) (peers : List PeerRow)
    → fetch_active_peers routers ≡ ok peers
    → All IsPlain peers
    → (sync_from_db settings routers fault rc dir).0 ≡ ok summary
    → (file : Text) × ((sync_from_db settings routers fault rc dir).1.conf ≡ some file)
      × (managed_peers file ≡ some peers)
      × (summary.peers_synced ≡ length peers)
managed_peers-sync_from_db settings routers fault rc dir summary peers fetched plain returned =
    let (found, content, same, _, written, count) =
      sync_from_db-ok settings routers fault rc dir summary returned in
    let e : found ≡ peers = cc (same, fetched) in
    (
      render_config (interface_block content) peers,
      written ∙ ap (λ ps. some (render_config (interface_block content) ps)) e,
      managed_peers-render_config content peers plain,
      count ∙ ap length e,
    )
