-- ===== src/Tests/Overlay.antt =====
-- Overlay addresses and the configuration file.
use mikrotik_cpe_cloud.Base.{
  ℕ, ◌+◌, ◌*◌, ◌^◌, ◌%◌, ◌≤◌, ◌<◌, ◌≡◌, ◌⊎◌, refl, List, [], ◌∷◌, none, some, arith, select, length,
}
use mikrotik_cpe_cloud.Base.Text.{Text, codes}
use mikrotik_cpe_cloud.Base.Result.{ok, err, os_error, runtime_error}
use mikrotik_cpe_cloud.Models.{Router}
use mikrotik_cpe_cloud.Config.{Settings}
use mikrotik_cpe_cloud.Ipv4.{ipv4_str, first_host, host_count}
use mikrotik_cpe_cloud.Wireguard.{
  PeerRow, SyncSummary, coerce_ip, managed_marker, peer_header, interface_block, render_config,
  is_peer, fetch_active_peers, allocate_overlay_ip, sync_from_db,
}
use mikrotik_cpe_cloud.Wireguard.File.{at_replace, write_atomic}
use mikrotik_cpe_cloud.Wireguard.Used.{Taken}
use mikrotik_cpe_cloud.Wireguard.Allocate.{allocate_fresh}
use mikrotik_cpe_cloud.Wireguard.Conf.{interface_block-render_config}
use mikrotik_cpe_cloud.Wireguard.Reader.{lacks, managed_peers}
use mikrotik_cpe_cloud.Wireguard.Managed.{managed_peers-sync_from_db}
use mikrotik_cpe_cloud.Wireguard.Sync.{write_atomic_lem, sync_twice}
use mikrotik_cpe_cloud.Tests.Data.{test_settings, conf_text, start, existing}

abbrev routers : List Router
routers = existing ∷ []

abbrev second_ip : ℕ
second_ip = 10 * 2 ^ 24 + 99 * 2 ^ 16 + 3

allocates : allocate_overlay_ip test_settings routers ≡ ok second_ip
unfolding allocate_overlay_ip mikrotik_cpe_cloud.Ipv4.parse_ipv4 coerce_ip host_count first_host
allocates = refl

allocate_fresh_example :
    (first_host test_settings.overlay_network ≤ second_ip)
    × (second_ip
        < first_host test_settings.overlay_network + host_count test_settings.overlay_network)
    × (¬ Taken test_settings routers second_ip)
    × ((j : ℕ)
        → first_host test_settings.overlay_network ≤ j
        → j < second_ip
        → Taken test_settings routers j)
allocate_fresh_example = allocate_fresh test_settings routers second_ip allocates

-- A network of two hosts.
abbrev small : Settings
small = record test_settings {
  overlay_network = record { network_address = 10 * 2 ^ 24 + 99 * 2 ^ 16; prefixlen = 30 };
}

-- In which both are taken.
allocates_none : allocate_overlay_ip small routers ≡ err runtime_error
unfolding allocate_overlay_ip mikrotik_cpe_cloud.Ipv4.parse_ipv4 coerce_ip host_count first_host
allocates_none = refl

abbrev peers : List PeerRow
peers =
    record { identity = codes "r1"; public_key = codes "key"; overlay_ip = codes "10.99.0.2" } ∷ []

interface_block-render_config_example :
    interface_block (render_config (interface_block conf_text) peers) ≡ interface_block conf_text
interface_block-render_config_example = interface_block-render_config conf_text peers

write_atomic_lem_example :
    let (result, dir') = write_atomic (some at_replace) (codes "new") start.dir in
    (((result ≡ ok tt) × (dir'.conf ≡ some (codes "new")) × (dir'.mode ≡ 33184 % 2 ^ 12))
      ⊎ ((result ≡ err os_error) × (dir'.conf ≡ some conf_text) × (dir'.mode ≡ 33184)))
    × (dir'.temp ≡ none)
write_atomic_lem_example = write_atomic_lem (some at_replace) (codes "new") start.dir refl

abbrev summary : SyncSummary
summary = record { peers_synced = 1; config_path = codes "/etc/wireguard/wg0.conf" }

syncs : (sync_from_db test_settings routers none 0 start.dir).0 ≡ ok summary
unfolding sync_from_db fetch_active_peers select coerce_ip
    mikrotik_cpe_cloud.Wireguard.read_interface_block write_atomic
syncs = refl

sync_twice_example :
    let dir' = (sync_from_db test_settings routers none 0 start.dir).1 in
    (sync_from_db test_settings routers (some at_replace) 1 dir').1.conf ≡ dir'.conf
sync_twice_example = sync_twice test_settings routers (some at_replace) 0 1 start.dir

abbrev found_peers : List PeerRow
found_peers =
    record {
      identity = codes "old name";
      public_key = codes "old key";
      overlay_ip = codes "10.99.0.2";
    }
    ∷ []

finds_peers : fetch_active_peers routers ≡ ok found_peers
unfolding fetch_active_peers select coerce_ip ipv4_str
finds_peers = refl

last_is_address : second_ip < 2 ^ 32
last_is_address = omega arith

managed_peers-sync_from_db_example :
    (file : Text) × ((sync_from_db test_settings routers none 0 start.dir).1.conf ≡ some file)
    × (managed_peers file ≡ some found_peers)
    × (1 ≡ length found_peers)
unfolding lacks
managed_peers-sync_from_db_example =
    managed_peers-sync_from_db test_settings routers none 0 start.dir summary found_peers
      finds_peers ((refl, refl, refl, refl), tt) syncs
