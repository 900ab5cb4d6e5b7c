-- ===== src/Config.antt =====
-- app/config.py: the settings that the services and the endpoints read.
use mikrotik_cpe_cloud.Base.{◌≡◌, refl, subst, Option, none, some, String}
use mikrotik_cpe_cloud.Base.Text.{Text, codes}
use mikrotik_cpe_cloud.Base.Result.{Result, ok, err, value_error, ok-injective}
use mikrotik_cpe_cloud.Ipv4.{Network}
use mikrotik_cpe_cloud.Ipv4.Cidr.{parse_network}

-- `overlay_network` is `wg_overlay_cidr` as a network: the validator has accepted the text.
pub record Settings : Type 0 where
  pub influx_token : Text
  pub server_fqdn : Text
  pub enrollment_url : Text
  pub wg_overlay_cidr : Text
  pub overlay_network : Network
  pub wg_server_ip : Text
  pub wg_server_public_key : Text
  pub wg_config_path : Text
  pub provisioning_secret_current : Text
  pub provisioning_secret_previous : Text

-- What the environment or the `.env` file has for each of them.
pub record Environment : Type 0 where
  pub influx_token : Option Text
  pub server_fqdn : Option Text
  pub enrollment_url : Option Text
  pub wg_overlay_cidr : Option Text
  pub wg_server_ip : Option Text
  pub wg_server_public_key : Option Text
  pub wg_config_path : Option Text
  pub provisioning_secret_current : Option Text
  pub provisioning_secret_previous : Option Text

abbrev or_default : Option Text → String → Text
or_default none default = codes default
or_default (some value) default = value

-- The settings, for the network of the overlay; `_validate_cidr` raises where there is none.
abbrev with_overlay : Environment → Text → Option Network → Result Settings
with_overlay env cidr none = err value_error
with_overlay env cidr (some net) = ok (record {
  influx_token = or_default env.influx_token "";
  server_fqdn = or_default env.server_fqdn "mcc.bradfordbroadband.com";
  enrollment_url =
      or_default env.enrollment_url "https://mcc.bradfordbroadband.com/api/v1/auto-enroll";
  wg_overlay_cidr = cidr;
  overlay_network = net;
  wg_server_ip = or_default env.wg_server_ip "10.100.0.1";
  wg_server_public_key = or_default env.wg_server_public_key "";
  wg_config_path = or_default env.wg_config_path "/etc/wireguard/wg0.conf";
  provisioning_secret_current = or_default env.provisioning_secret_current "";
  provisioning_secret_previous = or_default env.provisioning_secret_previous "";
})

abbrev cidr_of : Environment → Text
cidr_of env = or_default env.wg_overlay_cidr "10.100.0.0/22"

-- `get_settings`
unfoldable pub get_settings : Environment → Result Settings
unfolding parse_network
get_settings env = with_overlay env (cidr_of env) (parse_network (cidr_of env))

-- The overlay of accepted settings is that of their text.
pub get_settings-parse_network :
    (env : Environment) (settings : Settings)
    → get_settings env ≡ ok settings
    → parse_network settings.wg_overlay_cidr ≡ some settings.overlay_network
unfolding get_settings
get_settings-parse_network env settings h = go (parse_network (cidr_of env)) refl h
  where
    go :
        (o : Option Network)
        → parse_network (cidr_of env) ≡ o
        → with_overlay env (cidr_of env) o ≡ ok settings
        → parse_network settings.wg_overlay_cidr ≡ some settings.overlay_network
    go none e h = cc
    go (some net) e h =
        subst (λ (s : Settings). parse_network s.wg_overlay_cidr ≡ some s.overlay_network)
          (ok-injective h) e
