-- ===== src/Tests/Data.antt =====
-- A server with its settings, a request and its surroundings.
use mikrotik_cpe_cloud.Base.{
  ℕ, zero, suc, ◌+◌, ◌*◌, ◌^◌, Bool, true, false, List, [], ◌∷◌, Option, none, some,
}
use mikrotik_cpe_cloud.Base.Text.{Text, codes}
use mikrotik_cpe_cloud.Base.Result.{Exn, err, runtime_error}
use mikrotik_cpe_cloud.Models.{Db, Router, RouterToken, AdminFetchToken, text, active}
use mikrotik_cpe_cloud.Factory.{Installer, Times}
use mikrotik_cpe_cloud.Config.{Settings}
use mikrotik_cpe_cloud.Server.{Server, Readings}
use mikrotik_cpe_cloud.Influx.Write.{Written}
use mikrotik_cpe_cloud.AutoEnroll.Request.{AutoEnrollRequest}
use mikrotik_cpe_cloud.AutoEnroll.Flush.{Surroundings, Provision}

-- The function that stands for SHA-256 has no collisions.
abbrev pub hash : Text → Text
hash s = s

abbrev pub fill : ℕ → ℕ → List ℕ
fill zero b = []
fill (suc n) b = b ∷ fill n b

abbrev pub test_settings : Settings
test_settings = record {
  influx_token = codes "influx";
  server_fqdn = codes "cpe.example";
  enrollment_url = codes "https://cpe.example/enroll";
  wg_overlay_cidr = codes "10.99.0.0/24";
  overlay_network = record { network_address = 10 * 2 ^ 24 + 99 * 2 ^ 16; prefixlen = 24 };
  wg_server_ip = codes "10.99.0.1";
  wg_server_public_key = codes "srv";
  wg_config_path = codes "/etc/wireguard/wg0.conf";
  provisioning_secret_current = codes "s3cret";
  provisioning_secret_previous = codes "before";
}

abbrev pub empty_db : Db
empty_db = record {
  routers = [];
  router_tokens = [];
  admin_fetch_tokens = [];
  audit_log = [];
  next_router = 1;
  next_router_token = 1;
  next_fetch_token = 1;
  next_audit = 1;
}

abbrev pub conf_text : Text
conf_text = codes "[Interface]\nPort = 1\n"

abbrev pub start : Server
start = record {
  db = empty_db;
  buckets = [];
  dir = record { conf = some conf_text; mode = 33184; temp = none };
  client = false;
  delivered = [];
}

abbrev pub at_time : ℕ → Readings
at_time t = record { created = t; now = t }

abbrev pub around : Surroundings
around = record {
  ip_readings = at_time 1;
  serial_readings = at_time 2;
  enrolled = 100;
  revoked = 101;
  stored = 102;
  audited = 103;
  generated = 104;
  random = fill 48 7;
  fault = none;
  rc = 0;
}

abbrev pub request : AutoEnrollRequest
request = record {
  serial = codes "HC12";
  mac = codes "AA:BB:CC:DD:EE:FF";
  model = codes "hAP";
  identity = codes "hAP A - B, C";
  ros_version = codes "7.15";
  wifi_stack = codes "wifi";
  router_public_key = codes "AQEBAQEBAQEBAQEBAQEBAQEBAQEBAQEBAQEBAQEBAQE=";
}

abbrev pub storable : Router → Bool
storable r = true

abbrev pub describe : Exn → Text
describe e = codes "error"

abbrev pub render : Provision → Text
render p = p.telemetry_token

abbrev pub header : Option Text
header = some (codes "s3cret")

abbrev pub peer : Option Text
peer = some (codes "10.0.0.9")

abbrev pub Beat : Type 0
Beat = Unit

abbrev pub beat : Beat
beat = tt

abbrev pub writes : Router → Beat → Bool → Written
writes r b client = record { result = err runtime_error; client = client; batches = [] }

abbrev pub render_installer : Installer → Text
render_installer i = i.provisioning_secret

abbrev pub times : Times
times = record { looked_up = 500; used = 501; generated = 502 }

-- A router that has enrolled before.
abbrev pub existing : Router
existing = record {
  id = 1;
  identity = codes "old name";
  serial_number = codes "HC12";
  mac_address = codes "AA:BB:CC:DD:EE:00";
  model = none;
  ros_version = none;
  ros_major = none;
  wifi_stack = none;
  wg_public_key = some (codes "old key");
  wg_overlay_ip = some (text (codes "10.99.0.2/32"));
  enrolled_at = some 50;
  last_seen_at = none;
  status = active;
}

abbrev pub raw_beat : Text
raw_beat = codes "telemetry-token-1"

abbrev pub raw_fetch : Text
raw_fetch = codes "fetch-token-0123456"

abbrev pub owned_token : RouterToken
owned_token = record {
  id = 1;
  router_id = 1;
  token_hash = raw_beat;
  token_prefix = codes "telemetr";
  created_at = 50;
  revoked_at = none;
}

abbrev pub old_token : RouterToken
old_token = record owned_token { id = 2; token_hash = codes "gone"; revoked_at = some 60 }

abbrev pub fetch_row : AdminFetchToken
fetch_row = record {
  id = 1;
  label = codes "bench";
  token_hash = raw_fetch;
  token_prefix = codes "fetch-to";
  issued_by = none;
  expires_at = 1000;
  revoked_at = none;
  use_count = 0;
  last_used_at = none;
  created_at = 10;
}

abbrev pub with_router : Server
with_router = record start {
  db = record empty_db {
    routers = existing ∷ [];
    router_tokens = owned_token ∷ old_token ∷ [];
    admin_fetch_tokens = fetch_row ∷ [];
    next_router = 2;
    next_router_token = 3;
    next_fetch_token = 2;
  };
}
