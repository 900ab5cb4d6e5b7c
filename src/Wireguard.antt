-- ===== src/Wireguard.antt =====
-- app/services/wireguard.py: the overlay addresses, and the server's configuration file.
pub mod File
pub mod Peers
pub mod Used
pub mod Allocate
pub mod Conf
pub mod Sync
pub mod Inside
pub mod Reader
pub mod Managed
use mikrotik_cpe_cloud.Base.{
  ℕ, zero, suc, ◌+◌, ◌%◌, min, Bool, true, false, not, ◌&&◌, List, [], ◌∷◌, ◌++◌, Option, none,
  some, ltb, leb, ◌==◌, is_none, length, take, select, if◌then◌else◌, map,
}
use mikrotik_cpe_cloud.Base.Text.{Text, codes, find, join, rstrip}
use mikrotik_cpe_cloud.Base.Result.{Result, ok, err, value_error, runtime_error, os_error, ◌>>=◌}
use mikrotik_cpe_cloud.Models.{
  Inet, address, text, Router, Status, active, pending, decommissioned, quarantined,
}
use mikrotik_cpe_cloud.Config.{Settings}
use mikrotik_cpe_cloud.Ipv4.{Network, ipv4_str, parse_ipv4, before, first_host, host_count}
use File.{Dir, Fault, write_atomic}

pub record PeerRow : Type 0 where
  pub identity : Text
  pub public_key : Text
  pub overlay_ip : Text

abbrev pub newline : Text
newline = codes "\n"

-- `PeerRow.to_stanza`
unfoldable pub to_stanza : PeerRow → Text
to_stanza p =
    codes "# "
    ++ (p.identity
        ++ (codes "\n[Peer]\nPublicKey = "
            ++ (p.public_key
                ++ (codes "\nAllowedIPs = "
                    ++ (p.overlay_ip ++ codes "/32\nPersistentKeepalive = 25\n")))))

-- MANAGED_MARKER without its first character.
abbrev pub marker_rest : Text
marker_rest = codes " --- managed peers (do not edit below; regenerated from Postgres) ---"

abbrev pub managed_marker : Text
managed_marker = b'#' ∷ marker_rest

abbrev pub peer_header : Text
peer_header = codes "[Peer]"

-- `min(candidates)` of the two positions, where there is one.
abbrev pub cut_at : Option ℕ → Option ℕ → Option ℕ
cut_at none b = b
cut_at (some a) none = some a
cut_at (some a) (some b) = some (min a b)

abbrev pub kept : Option ℕ → Text → Text
kept none content = content
kept (some cut) content = take cut content

-- `_read_interface_block` on the content of the file.
unfoldable pub interface_block : Text → Text
interface_block content =
    rstrip (kept (cut_at (find managed_marker content) (find peer_header content)) content)
    ++ newline

-- `_read_interface_block`: a missing file is a RuntimeError.
unfoldable pub read_interface_block : Option Text → Result Text
unfolding interface_block
read_interface_block none = err runtime_error
read_interface_block (some content) = ok (interface_block content)

-- `_render_config`
unfoldable pub render_config : Text → List PeerRow → Text
render_config block peers =
    rstrip (join newline (rstrip block ∷ [] ∷ managed_marker ∷ [] ∷ map to_stanza peers)) ++ newline

-- `_coerce_ip`: an address is returned, of a text the prefix is cut off.
unfoldable pub coerce_ip : Inet → Result ℕ
unfolding parse_ipv4 before
coerce_ip (address ip) = ok ip
coerce_ip (text s) = elim (parse_ipv4 (before b'/' s)) [ none ↦ err value_error | some ip ↦ ok ip ]

-- The WHERE clauses of `_fetch_active_peers`.
abbrev pub is_active : Status → Bool
is_active active = true
is_active pending = false
is_active decommissioned = false
is_active quarantined = false

abbrev pub is_peer : Router → Bool
is_peer r = is_active r.status && not (is_none r.wg_public_key) && not (is_none r.wg_overlay_ip)

-- The order of an INET column.
inet_key : Option Inet → ℕ
inet_key none = 0
inet_key (some v) = elim (coerce_ip v) [ ok ip ↦ ip | err e ↦ 0 ]

insert_by_ip : Router → List Router → List Router
unfolding inet_key
insert_by_ip r [] = r ∷ []
insert_by_ip r (q ∷ qs) =
    if leb (inet_key r.wg_overlay_ip) (inet_key q.wg_overlay_ip)
    then r ∷ q ∷ qs
    else q ∷ insert_by_ip r qs

-- `ORDER BY wg_overlay_ip`
unfoldable pub order_by_ip : List Router → List Router
unfolding insert_by_ip
order_by_ip [] = []
order_by_ip (r ∷ rs) = insert_by_ip r (order_by_ip rs)

abbrev peer_row : Text → Option Text → Option Inet → Result PeerRow
peer_row identity (some key) (some ip) = do
  addr ← coerce_ip ip
  ok (record { identity = identity; public_key = key; overlay_ip = ipv4_str addr })
peer_row identity (some key) none = err value_error
peer_row identity none ip = err value_error

-- The loop of `_fetch_active_peers`.
unfoldable pub peer_rows : List Router → Result (List PeerRow)
peer_rows [] = ok []
peer_rows (r ∷ rs) = do
  p ← peer_row r.identity r.wg_public_key r.wg_overlay_ip
  ps ← peer_rows rs
  ok (p ∷ ps)

unfoldable pub fetch_active_peers : List Router → Result (List PeerRow)
unfolding peer_rows order_by_ip
fetch_active_peers routers = peer_rows (order_by_ip (select is_peer routers))

-- The set `used` before the server's own address is added; a bad value raises.
unfoldable pub used_ips : List Router → Result (List ℕ)
used_ips [] = ok []
used_ips (r ∷ rs) = elim r.wg_overlay_ip [
  | none ↦ used_ips rs
  | some v ↦ (do ip ← coerce_ip v; ips ← used_ips rs; ok (ip ∷ ips))
]

unfoldable pub contains : ℕ → List ℕ → Bool
contains ip [] = false
contains ip (u ∷ us) = if u == ip then true else contains ip us

-- `for candidate in network.hosts()`: `n` hosts are left, from `candidate` on.
unfoldable pub first_free : ℕ → ℕ → List ℕ → Option ℕ
unfolding contains
first_free zero candidate used = none
first_free (suc n) candidate used = elim (contains candidate used) [
  | true ↦ first_free n (candidate + 1) used
  | false ↦ some candidate
]

-- `allocate_overlay_ip`; an exhausted network is a RuntimeError, a bad address a ValueError.
unfoldable pub allocate_overlay_ip : Settings → List Router → Result ℕ
unfolding used_ips first_free
allocate_overlay_ip settings routers =
    let network = settings.overlay_network in
    elim (parse_ipv4 settings.wg_server_ip) [
      | none ↦ err value_error
      | some server_ip ↦ (do
        used ← used_ips routers
        elim (first_free (host_count network) (first_host network) (server_ip ∷ used)) [
          | none ↦ err runtime_error
          | some ip ↦ ok ip
        ])
    ]

-- `get_server_public_key`
unfoldable pub get_server_public_key : Settings → Result Text
get_server_public_key settings = elim settings.wg_server_public_key [
  | [] ↦ err runtime_error
  | c ∷ key ↦ ok (c ∷ key)
]

-- `_run_sync_helper`, with the exit status of the helper.
abbrev pub run_sync_helper : ℕ → Result (Unit {0})
run_sync_helper zero = ok tt
run_sync_helper (suc rc) = err runtime_error

pub record SyncSummary : Type 0 where
  pub peers_synced : ℕ
  pub config_path : Text

-- The end of `sync_from_db`: the write, and the helper.
abbrev pub write_and_reload :
    Settings → Option Fault → ℕ → Text → ℕ → Dir → Result SyncSummary × Dir
write_and_reload settings fault rc rendered count dir =
    let (written, dir') = write_atomic fault rendered dir in
    (
      (do
        done ← written
        reloaded ← run_sync_helper rc
        ok (record { peers_synced = count; config_path = settings.wg_config_path })),
      dir',
    )

-- `sync_from_db`, on the rows, the fault that the file system has and the helper's exit status. The
-- directory comes back beside an error too.
unfoldable pub sync_from_db :
    Settings → List Router → Option Fault → ℕ → Dir → Result SyncSummary × Dir
sync_from_db settings routers fault rc dir = elim (fetch_active_peers routers) [
  | err e ↦ (err e, dir)
  | ok peers ↦ elim (read_interface_block dir.conf) [
    | err e ↦ (err e, dir)
    | ok block ↦ write_and_reload settings fault rc (render_config block peers) (length peers) dir
  ]
]
