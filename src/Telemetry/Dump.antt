-- ===== src/Telemetry/Dump.antt =====
-- `payload.model_dump()` of app/routers/telemetry.py: the fields in their order, None for the missing
-- ones, and then what was kept beside them.
use mikrotik_cpe_cloud.Base.{Bool, List, [], ◌∷◌, Option, none, some}
use mikrotik_cpe_cloud.Base.Text.{Text, codes}
use mikrotik_cpe_cloud.Base.Int.{ℤ}
use mikrotik_cpe_cloud.Influx.Value.{
  Real, Value, null, int, real, flag, string, list, dict, Values, nil, cons, Entries, entry,
}
use mikrotik_cpe_cloud.Telemetry.Payload.{
  TelemetrySystem, Counters, TelemetryEthernet, TelemetryWirelessIf, TelemetryWifiIf,
  TelemetryHeartbeat,
}

abbrev pub text_value : Option Text → Value
text_value none = null
text_value (some s) = string s

abbrev pub int_value : Option ℤ → Value
int_value none = null
int_value (some n) = int n

abbrev pub real_value : Option Real → Value
real_value none = null
real_value (some x) = real x

abbrev pub flag_value : Option Bool → Value
flag_value none = null
flag_value (some b) = flag b

abbrev pub dump_system : TelemetrySystem → Entries
dump_system s = entry (codes "uptime") (text_value s.uptime) (
    entry (codes "cpu_load_pct") (int_value s.cpu_load_pct) (
      entry (codes "free_memory_bytes") (int_value s.free_memory_bytes) (
        entry (codes "total_memory_bytes") (int_value s.total_memory_bytes) (
          entry (codes "temperature_c") (real_value s.temperature_c)
            (entry (codes "voltage_v") (real_value s.voltage_v) s.extra)))))

abbrev pub dump_counters : Counters → Entries → Entries
dump_counters c rest = entry (codes "rx_bytes") (int_value c.rx_bytes) (
    entry (codes "tx_bytes") (int_value c.tx_bytes) (
      entry (codes "rx_packets") (int_value c.rx_packets)
        (entry (codes "tx_packets") (int_value c.tx_packets) rest)))

abbrev pub dump_ethernet : TelemetryEthernet → Entries
dump_ethernet i =
    entry (codes "name") (string i.name)
      (entry (codes "running") (flag_value i.running) (dump_counters i.counters i.extra))

abbrev pub dump_wireless : TelemetryWirelessIf → Entries
dump_wireless i = entry (codes "name") (string i.name) (
    entry (codes "ssid") (text_value i.ssid) (
      entry (codes "band") (text_value i.band) (
        entry (codes "frequency") (int_value i.frequency) (
          entry (codes "channel_width") (text_value i.channel_width) (
            entry (codes "tx_power") (text_value i.tx_power) (
              entry (codes "disabled") (flag_value i.disabled)
                (entry (codes "mode") (text_value i.mode) (dump_counters i.counters i.extra))))))))

abbrev pub dump_wifi : TelemetryWifiIf → Entries
dump_wifi i = entry (codes "name") (string i.name) (
    entry (codes "ssid") (text_value i.ssid) (
      entry (codes "channel") (text_value i.channel) (
        entry (codes "disabled") (flag_value i.disabled) (
          entry (codes "configuration") (text_value i.configuration)
            (dump_counters i.counters i.extra)))))

unfoldable pub dump_all : {A : Type 0} → (A → Entries) → List A → Values
dump_all dump [] = nil
dump_all dump (a ∷ more) = cons (dict (dump a)) (dump_all dump more)

abbrev pub dump_array : {A : Type 0} → (A → Entries) → Option (List A) → Value
dump_array dump none = null
dump_array dump (some interfaces) = list (dump_all dump interfaces)

abbrev pub dump_nested : Option TelemetrySystem → Value
dump_nested none = null
dump_nested (some s) = dict (dump_system s)

unfoldable pub model_dump : TelemetryHeartbeat → Entries
unfolding dump_all
model_dump hb = entry (codes "schema_version") (int_value hb.schema_version) (
    entry (codes "identity") (string hb.identity) (
      entry (codes "wifi_stack") (string hb.wifi_stack) (
        entry (codes "serial") (text_value hb.serial) (
          entry (codes "mac") (text_value hb.mac) (
            entry (codes "board") (text_value hb.board) (
              entry (codes "ros_version") (text_value hb.ros_version) (
                entry (codes "uptime") (text_value hb.uptime) (
                  entry (codes "system") (dump_nested hb.system) (
                    entry (codes "ethernet") (dump_array dump_ethernet hb.ethernet) (
                      entry (codes "wireless_interfaces")
                        (dump_array dump_wireless hb.wireless_interfaces)
                        (entry (codes "wifi_interfaces") (dump_array dump_wifi hb.wifi_interfaces)
                          hb.extra)))))))))))
