-- ===== src/Telemetry/Validate.antt =====
-- The validation of a heartbeat by the models of app/routers/telemetry.py; an error is the 422.
use mikrotik_cpe_cloud.Base.{Bool, true, List, [], ◌∷◌, Option, none}
use mikrotik_cpe_cloud.Base.Text.{Text, codes}
use mikrotik_cpe_cloud.Base.Int.{ℤ, pos, negsuc}
use mikrotik_cpe_cloud.Base.Result.{Result, ok, err, value_error, ◌>>=◌}
use mikrotik_cpe_cloud.AutoEnroll.Request.{has_length, is_wifi_stack}
use mikrotik_cpe_cloud.Influx.Value.{
  Value, null, int, real, flag, string, list, dict, Values, nil, cons, Entries, get,
}
use mikrotik_cpe_cloud.Telemetry.Payload.{
  Coercions, TelemetrySystem, Counters, TelemetryEthernet, TelemetryWirelessIf, TelemetryWifiIf,
  TelemetryHeartbeat, in_range, is_count, at_most, is_mac, to_text, present, optional, required,
  extras,
}

abbrev pub any : {A : Type 0} → A → Bool
any a = true

abbrev pub counter_keys : List Text
counter_keys = codes "rx_bytes" ∷ codes "tx_bytes" ∷ codes "rx_packets" ∷ codes "tx_packets" ∷ []

-- A nested model: null, or a dict that validates.
abbrev pub nested : {A : Type 0} → (Entries → Result A) → Value → Result (Option A)
nested validate null = ok none
nested validate (dict es) = present (validate es)
nested validate (int n) = err value_error
nested validate (real x) = err value_error
nested validate (flag b) = err value_error
nested validate (string s) = err value_error
nested validate (list vs) = err value_error

-- The members of an array, each of which has to validate.
unfoldable pub members : {A : Type 0} → (Entries → Result A) → Values → Result (List A)
members validate nil = ok []
members validate (cons (dict es) rest) = do
  a ← validate es
  more ← members validate rest
  ok (a ∷ more)
members validate (cons null rest) = err value_error
members validate (cons (int n) rest) = err value_error
members validate (cons (real x) rest) = err value_error
members validate (cons (flag b) rest) = err value_error
members validate (cons (string s) rest) = err value_error
members validate (cons (list vs) rest) = err value_error

abbrev pub array : {A : Type 0} → (Entries → Result A) → Value → Result (Option (List A))
array validate null = ok none
array validate (list vs) = present (members validate vs)
array validate (int n) = err value_error
array validate (real x) = err value_error
array validate (flag b) = err value_error
array validate (string s) = err value_error
array validate (dict es) = err value_error

module _ (co : Coercions) where
  abbrev pub count_at : Text → Entries → Result (Option ℤ)
  count_at key es = optional co.to_int is_count (get key es)

  unfoldable pub validate_system : Entries → Result TelemetrySystem
  validate_system es = do
    uptime ← optional to_text (has_length 1 32) (get (codes "uptime") es)
    cpu_load_pct ← optional co.to_int (in_range 0 100) (get (codes "cpu_load_pct") es)
    free_memory_bytes ← count_at (codes "free_memory_bytes") es
    total_memory_bytes ← count_at (codes "total_memory_bytes") es
    temperature_c ←
        optional co.to_float (co.within (negsuc 19) (pos 120)) (get (codes "temperature_c") es)
    voltage_v ← optional co.to_float (co.within (pos 0) (pos 60)) (get (codes "voltage_v") es)
    ok (record {
      uptime = uptime;
      cpu_load_pct = cpu_load_pct;
      free_memory_bytes = free_memory_bytes;
      total_memory_bytes = total_memory_bytes;
      temperature_c = temperature_c;
      voltage_v = voltage_v;
      extra =
          extras
            (codes "uptime"
              ∷ codes "cpu_load_pct"
              ∷ codes "free_memory_bytes"
              ∷ codes "total_memory_bytes"
              ∷ codes "temperature_c"
              ∷ codes "voltage_v"
              ∷ [])
            es;
    })

  unfoldable pub validate_counters : Entries → Result Counters
  validate_counters es = do
    rx_bytes ← count_at (codes "rx_bytes") es
    tx_bytes ← count_at (codes "tx_bytes") es
    rx_packets ← count_at (codes "rx_packets") es
    tx_packets ← count_at (codes "tx_packets") es
    ok (record {
      rx_bytes = rx_bytes;
      tx_bytes = tx_bytes;
      rx_packets = rx_packets;
      tx_packets = tx_packets;
    })

  unfoldable pub validate_ethernet : Entries → Result TelemetryEthernet
  validate_ethernet es = do
    name ← required to_text (has_length 1 32) (get (codes "name") es)
    running ← optional co.to_bool any (get (codes "running") es)
    counters ← validate_counters es
    ok (record {
      name = name;
      running = running;
      counters = counters;
      extra = extras (codes "name" ∷ codes "running" ∷ counter_keys) es;
    })

  unfoldable pub validate_wireless : Entries → Result TelemetryWirelessIf
  validate_wireless es = do
    name ← required to_text (has_length 1 32) (get (codes "name") es)
    ssid ← optional to_text (at_most 64) (get (codes "ssid") es)
    band ← optional to_text (at_most 32) (get (codes "band") es)
    frequency ← optional co.to_int (in_range 0 8000) (get (codes "frequency") es)
    channel_width ← optional to_text (at_most 32) (get (codes "channel_width") es)
    tx_power ← optional to_text (at_most 16) (get (codes "tx_power") es)
    disabled ← optional co.to_bool any (get (codes "disabled") es)
    mode ← optional to_text (at_most 32) (get (codes "mode") es)
    counters ← validate_counters es
    ok (record {
      name = name;
      ssid = ssid;
      band = band;
      frequency = frequency;
      channel_width = channel_width;
      tx_power = tx_power;
      disabled = disabled;
      mode = mode;
      counters = counters;
      extra =
          extras
            (codes "name"
              ∷ codes "ssid"
              ∷ codes "band"
              ∷ codes "frequency"
              ∷ codes "channel_width"
              ∷ codes "tx_power"
              ∷ codes "disabled"
              ∷ codes "mode"
              ∷ counter_keys)
            es;
    })

  unfoldable pub validate_wifi : Entries → Result TelemetryWifiIf
  validate_wifi es = do
    name ← required to_text (has_length 1 32) (get (codes "name") es)
    ssid ← optional to_text (at_most 64) (get (codes "ssid") es)
    channel ← optional to_text (at_most 32) (get (codes "channel") es)
    disabled ← optional co.to_bool any (get (codes "disabled") es)
    configuration ← optional to_text (at_most 64) (get (codes "configuration") es)
    counters ← validate_counters es
    ok (record {
      name = name;
      ssid = ssid;
      channel = channel;
      disabled = disabled;
      configuration = configuration;
      counters = counters;
      extra =
          extras
            (codes "name"
              ∷ codes "ssid"
              ∷ codes "channel"
              ∷ codes "disabled"
              ∷ codes "configuration"
              ∷ counter_keys)
            es;
    })

  abbrev pub heartbeat_keys : List Text
  heartbeat_keys =
      codes "schema_version"
      ∷ codes "identity"
      ∷ codes "wifi_stack"
      ∷ codes "serial"
      ∷ codes "mac"
      ∷ codes "board"
      ∷ codes "ros_version"
      ∷ codes "uptime"
      ∷ codes "system"
      ∷ codes "ethernet"
      ∷ codes "wireless_interfaces"
      ∷ codes "wifi_interfaces"
      ∷ []

  unfoldable pub validate_heartbeat : Entries → Result TelemetryHeartbeat
  validate_heartbeat es = do
    schema_version ← optional co.to_int (in_range 1 100) (get (codes "schema_version") es)
    identity ← required to_text (has_length 1 128) (get (codes "identity") es)
    wifi_stack ← required to_text is_wifi_stack (get (codes "wifi_stack") es)
    serial ← optional to_text (has_length 4 64) (get (codes "serial") es)
    mac ← optional to_text is_mac (get (codes "mac") es)
    board ← optional to_text (has_length 1 64) (get (codes "board") es)
    ros_version ← optional to_text (has_length 1 32) (get (codes "ros_version") es)
    uptime ← optional to_text (has_length 1 32) (get (codes "uptime") es)
    system ← nested validate_system (get (codes "system") es)
    ethernet ← array validate_ethernet (get (codes "ethernet") es)
    wireless_interfaces ← array validate_wireless (get (codes "wireless_interfaces") es)
    wifi_interfaces ← array validate_wifi (get (codes "wifi_interfaces") es)
    ok (record {
      schema_version = schema_version;
      identity = identity;
      wifi_stack = wifi_stack;
      serial = serial;
      mac = mac;
      board = board;
      ros_version = ros_version;
      uptime = uptime;
      system = system;
      ethernet = ethernet;
      wireless_interfaces = wireless_interfaces;
      wifi_interfaces = wifi_interfaces;
      extra = extras heartbeat_keys es;
    })
