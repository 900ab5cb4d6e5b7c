-- ===== src/Tests/Startup.antt =====
-- Settings from an environment, and an address of their overlay.
use mikrotik_cpe_cloud.Base.{ℕ, ◌+◌, ◌*◌, ◌^◌, ◌<◌, ◌≡◌, refl, [], ◌∷◌, none, some}
use mikrotik_cpe_cloud.Base.Text.{codes}
use mikrotik_cpe_cloud.Base.Result.{ok}
use mikrotik_cpe_cloud.Models.{text}
use mikrotik_cpe_cloud.Config.{Environment, get_settings}
use mikrotik_cpe_cloud.Ipv4.{ipv4_str}
use mikrotik_cpe_cloud.Ipv4.Cidr.{parse_network}
use mikrotik_cpe_cloud.Wireguard.{allocate_overlay_ip, coerce_ip}
use mikrotik_cpe_cloud.Wireguard.Inside.{Inside, allocate-Inside}
use mikrotik_cpe_cloud.Tests.Data.{test_settings, existing}

abbrev env : Environment
env = record {
  influx_token = some (codes "influx");
  server_fqdn = some (codes "cpe.example");
  enrollment_url = some (codes "https://cpe.example/enroll");
  wg_overlay_cidr = some (codes "10.99.0.0/24");
  wg_server_ip = some (codes "10.99.0.1");
  wg_server_public_key = some (codes "srv");
  wg_config_path = none;
  provisioning_secret_current = some (codes "s3cret");
  provisioning_secret_previous = some (codes "before");
}

accepts : get_settings env ≡ ok test_settings
unfolding get_settings
accepts = refl

-- The forms of a netmask.
masks :
    (parse_network (codes "10.99.0.0/255.255.255.0") ≡ parse_network (codes "10.99.0.0/24"))
    × (parse_network (codes "10.99.0.0/0.0.0.255") ≡ parse_network (codes "10.99.0.0/24"))
    × (parse_network (codes "10.99.0.1/24") ≡ none)
    × (parse_network (codes "10.99.0.0/33") ≡ none)
unfolding parse_network
masks = (refl, refl, refl, refl)

abbrev second_ip : ℕ
second_ip = 10 * 2 ^ 24 + 99 * 2 ^ 16 + 3

allocates : allocate_overlay_ip test_settings (existing ∷ []) ≡ ok second_ip
unfolding allocate_overlay_ip mikrotik_cpe_cloud.Ipv4.parse_ipv4 coerce_ip
    mikrotik_cpe_cloud.Ipv4.host_count mikrotik_cpe_cloud.Ipv4.first_host
allocates = refl

allocate-Inside_example :
    Inside test_settings.overlay_network second_ip
    × (second_ip < 2 ^ 32)
    × (coerce_ip (text (ipv4_str second_ip)) ≡ ok second_ip)
allocate-Inside_example =
    allocate-Inside env test_settings (existing ∷ []) second_ip accepts allocates
