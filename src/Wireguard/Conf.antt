-- ===== src/Wireguard/Conf.antt =====
-- `_read_interface_block` and `_render_config`: what a new file keeps of the old one.
use mathlib.Core.List.{append_assoc}
use mikrotik_cpe_cloud.Base.{
  ℕ, suc, ◌+◌, min, ◌≡◌, refl, sym, ap, ◌∙◌, true, List, [], ◌∷◌, ◌++◌, Option, none, some, arith,
  length, take, map,
}
use mikrotik_cpe_cloud.Base.Text.{Text, codes, find, join, rstrip, shift, is_space, starts_with}
use mikrotik_cpe_cloud.Base.Strip.{rstrip_idem, rstrip-append, rstrip-spaces, rstrip-take}
use mikrotik_cpe_cloud.Base.Search.{
  find-line, find-take-some, find-take-none, find-append_self, starts_with-append,
  starts_with_trans, starts_with_refl, starts_with-take_self,
}
use mikrotik_cpe_cloud.Wireguard.{
  PeerRow, newline, to_stanza, marker_rest, managed_marker, peer_header, cut_at, kept,
  interface_block, render_config,
}

-- Neither the marker nor a peer's header.
pub record IsClean (s : Text) : Type 0 where
  pub no_marker : find managed_marker s ≡ none
  pub no_header : find peer_header s ≡ none

kept-IsClean :
    (s : Text) (m h : Option ℕ)
    → find managed_marker s ≡ m
    → find peer_header s ≡ h
    → IsClean (kept (cut_at m h) s)
kept-IsClean s none none em eh = record { no_marker = em; no_header = eh }
kept-IsClean s none (some b) em eh = record {
  no_marker = find-take-none _ _ s b em;
  no_header = find-take-some _ _ s b b eh (omega arith);
}
kept-IsClean s (some a) none em eh = record {
  no_marker = find-take-some _ _ s a a em (omega arith);
  no_header = find-take-none _ _ s a eh;
}
kept-IsClean s (some a) (some b) em eh = record {
  no_marker = find-take-some _ _ s a (min a b) em (omega arith);
  no_header = find-take-some _ _ s b (min a b) eh (omega arith);
}

rstrip-IsClean : (s : Text) → IsClean s → IsClean (rstrip s)
rstrip-IsClean s h =
    let (n, e) = rstrip-take s in
    rw e (record {
      no_marker = find-take-none _ _ s n h.no_marker;
      no_header = find-take-none _ _ s n h.no_header;
    })

-- What is kept of a file, without the line break at its end.
unfoldable pub body : Text → Text
body content =
    rstrip (kept (cut_at (find managed_marker content) (find peer_header content)) content)

pub body-IsClean : (content : Text) → IsClean (body content)
unfolding body
body-IsClean content = rstrip-IsClean _ (kept-IsClean content _ _ refl refl)

rstrip-body : (content : Text) → rstrip (body content) ≡ body content
unfolding body
rstrip-body content = rstrip_idem _

-- What follows the marker in a rendered file.
unfoldable pub tail : List PeerRow → Text
tail peers = rstrip (10 ∷ join newline ([] ∷ map to_stanza peers)) ++ newline

-- The marker between its first character and its last.
abbrev marker_init : Text
marker_init = codes " --- managed peers (do not edit below; regenerated from Postgres) --"

rstrip-marker :
    (s r : Text) → rstrip (s ++ (managed_marker ++ r)) ≡ s ++ (managed_marker ++ rstrip r)
unfolding is_space
rstrip-marker s r =
    rstrip-append s (marker_rest ++ r) b'#' refl
    ∙ ap (λ t. s ++ b'#' ∷ t) (rstrip-append marker_init r b'-' refl)

-- A rendered file: the kept part, a blank line, the marker, and the rest.
pub render_config-shape :
    (block : Text) (peers : List PeerRow)
    → render_config block peers ≡ rstrip block ++ 10 ∷ (10 ∷ (managed_marker ++ tail peers))
unfolding render_config tail join
render_config-shape block peers =
    ap (λ t. t ++ newline)
      (ap rstrip (sym (append_assoc (rstrip block) (10 ∷ 10 ∷ []) _))
        ∙ rstrip-marker (rstrip block ++ 10 ∷ 10 ∷ []) _)
    ∙ simp append_assoc

pub find-marker :
    (b w : Text)
    → find managed_marker b ≡ none
    → find managed_marker (b ++ 10 ∷ (10 ∷ (managed_marker ++ w))) ≡ some (length b + 2)
find-marker b w h =
    rw
      (
        find-line b'#' marker_rest b _ 10 (omega arith) h,
        find-line b'#' marker_rest [] (managed_marker ++ w) 10 (omega arith) (unfold find in refl),
        find-append_self b'#' marker_rest w,
      )
      (ap some (omega arith))

find-header :
    (b w : Text)
    → find peer_header b ≡ none
    → find peer_header (b ++ 10 ∷ (10 ∷ w)) ≡ shift (length b + 1) (shift 1 (find peer_header w))
find-header b w h = rw (
  find-line b'[' (codes "Peer]") b _ 10 (omega arith) h,
  find-line b'[' (codes "Peer]") [] w 10 (omega arith) (unfold find in refl),
)

-- The cut of a rendered file is at its marker.
cut_at-shift :
    (n : ℕ) (o : Option ℕ) → cut_at (some (n + 2)) (shift (n + 1) (shift 1 o)) ≡ some (n + 2)
cut_at-shift n none = refl
cut_at-shift n (some k) = ap some (omega arith)

interface_block-eq-body : (content : Text) → interface_block content ≡ body content ++ newline
unfolding interface_block body
interface_block-eq-body content = refl

take-blank : (b r : Text) → take (length b + 2) (b ++ 10 ∷ (10 ∷ r)) ≡ b ++ 10 ∷ (10 ∷ [])
take-blank [] r = refl
take-blank (c ∷ b) r =
    let e : length (c ∷ b) + 2 ≡ suc (length b + 2) = omega arith in
    rw e (ap (λ t. c ∷ t) (take-blank b r))

-- The body of a file that begins with a clean text, a blank line and the marker is that text.
body-marker :
    (b w : Text) → IsClean b → rstrip b ≡ b → body (b ++ 10 ∷ (10 ∷ (managed_marker ++ w))) ≡ b
unfolding body is_space
body-marker b w h e =
    rw
      (
        find-marker b w h.no_marker,
        find-header b (managed_marker ++ w) h.no_header,
        cut_at-shift (length b) (find peer_header (managed_marker ++ w)),
      )
      (ap rstrip (take-blank b (managed_marker ++ w))
        ∙ rstrip-spaces b (10 ∷ 10 ∷ []) (refl, (refl, tt))
        ∙ e)

rstrip-newline : (s : Text) → rstrip (s ++ newline) ≡ rstrip s
unfolding is_space
rstrip-newline s = rstrip-spaces s newline (refl, tt)

pub rstrip-interface_block : (content : Text) → rstrip (interface_block content) ≡ body content
rstrip-interface_block content = rw (interface_block-eq-body, rstrip-newline) (rstrip-body content)

-- Whatever the file held, and for all peers, the part that is kept of a file is kept again, to the
-- character, of the file that is rendered from it.
pub interface_block-render_config :
    (content : Text) (peers : List PeerRow)
    → interface_block (render_config (interface_block content) peers) ≡ interface_block content
interface_block-render_config content peers =
    rw
      (
        interface_block-eq-body (render_config (interface_block content) peers),
        render_config-shape,
        rstrip-interface_block,
        body-marker _ _ (body-IsClean content) (rstrip-body content),
      )
      (sym (interface_block-eq-body content))

kept-prefix : (o : Option ℕ) (s : Text) → starts_with (kept o s) s ≡ true
kept-prefix none s = starts_with_refl s
kept-prefix (some n) s = starts_with-take_self s n

rstrip-prefix : (s : Text) → starts_with (rstrip s) s ≡ true
rstrip-prefix s = let (n, e) = rstrip-take s in rw e (starts_with-take_self s n)

body-prefix : (content : Text) → starts_with (body content) content ≡ true
unfolding body
body-prefix content =
    starts_with_trans _ (kept _ content) content (rstrip-prefix _) (kept-prefix _ content)

-- The part that is kept, less its last line break, stands at the start of the old file and at the
-- start of the new one, and holds no peer header and no marker.
pub interface_block_kept :
    (content : Text) (peers : List PeerRow)
    → let part = rstrip (interface_block content) in
      (starts_with part content ≡ true)
      × (starts_with part (render_config (interface_block content) peers) ≡ true)
      × (find peer_header part ≡ none)
      × (find managed_marker part ≡ none)
interface_block_kept content peers =
    rw (render_config-shape, rstrip-interface_block)
      (
        body-prefix content,
        starts_with-append (body content) _,
        (body-IsClean content).no_header,
        (body-IsClean content).no_marker,
      )
