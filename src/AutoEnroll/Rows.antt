-- ===== src/AutoEnroll/Rows.antt =====
-- The rows that `auto_enroll` writes, and the UNIQUE constraints of app/models/router.py.
use mikrotik_cpe_cloud.Base.{
  ℕ, Bool, false, not, ◌&&◌, ◌||◌, List, [], ◌∷◌, Option, none, some, ◌==◌, is_none, if◌then◌else◌,
}
use mikrotik_cpe_cloud.Base.Text.{Text, text_eq}
use mikrotik_cpe_cloud.Base.Result.{Result, ok, err}
use mikrotik_cpe_cloud.Models.{Inet, text, Router, RouterToken}
use mikrotik_cpe_cloud.Ipv4.{ipv4_str}
use mikrotik_cpe_cloud.Wireguard.{coerce_ip}
use mikrotik_cpe_cloud.AutoEnroll.Identity.{initial_status_for, parse_ros_major}
use mikrotik_cpe_cloud.AutoEnroll.Request.{AutoEnrollRequest}

-- `Router(…)`
unfoldable pub new_router : ℕ → ℕ → ℕ → AutoEnrollRequest → Router
new_router id overlay_ip now payload = record {
  id = id;
  identity = payload.identity;
  serial_number = payload.serial;
  mac_address = payload.mac;
  model = some payload.model;
  ros_version = some payload.ros_version;
  ros_major = parse_ros_major payload.ros_version;
  wifi_stack = some payload.wifi_stack;
  wg_public_key = some payload.router_public_key;
  wg_overlay_ip = some (text (ipv4_str overlay_ip));
  enrolled_at = some now;
  last_seen_at = none;
  status = initial_status_for payload.identity;
}

-- The assignments of a re-enrollment.
unfoldable pub renewed : ℕ → AutoEnrollRequest → Router → Router
renewed now payload existing = record existing {
  identity = payload.identity;
  mac_address = payload.mac;
  model = some payload.model;
  ros_version = some payload.ros_version;
  ros_major = parse_ros_major payload.ros_version;
  wifi_stack = some payload.wifi_stack;
  wg_public_key = some payload.router_public_key;
  enrolled_at = some now;
}

abbrev pub has_serial : Text → Router → Bool
has_serial serial r = text_eq r.serial_number serial

-- `token.revoked_at = now` for the active tokens of a router.
unfoldable pub revoke_router_tokens : ℕ → ℕ → List RouterToken → List RouterToken
revoke_router_tokens now router_id [] = []
revoke_router_tokens now router_id (t ∷ ts) =
    (if t.router_id == router_id && is_none t.revoked_at
      then record t { revoked_at = some now }
      else t)
    ∷ revoke_router_tokens now router_id ts

-- Two values of a nullable text column that may not both stand.
abbrev pub same_text : Option Text → Option Text → Bool
same_text none k = false
same_text (some j) none = false
same_text (some j) (some k) = text_eq j k

abbrev pub same_ip : Result ℕ → Result ℕ → Bool
same_ip (err e) b = false
same_ip (ok i) (err e) = false
same_ip (ok i) (ok j) = i == j

-- Two values of the INET column.
abbrev pub same_inet : Option Inet → Option Inet → Bool
same_inet none w = false
same_inet (some v) none = false
same_inet (some v) (some w) = same_ip (coerce_ip v) (coerce_ip w)

-- Two rows that a UNIQUE constraint keeps apart.
unfoldable pub clashes : Router → Router → Bool
clashes r q =
    text_eq r.identity q.identity
    || text_eq r.serial_number q.serial_number
    || text_eq r.mac_address q.mac_address
    || same_text r.wg_public_key q.wg_public_key
    || same_inet r.wg_overlay_ip q.wg_overlay_ip

-- A row of the table other than the one with the same primary key clashes.
unfoldable pub violates_unique : Router → List Router → Bool
violates_unique row [] = false
violates_unique row (r ∷ rs) = (not (r.id == row.id) && clashes row r) || violates_unique row rs
