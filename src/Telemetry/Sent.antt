-- ===== src/Telemetry/Sent.antt =====
-- An account of what a validated heartbeat of app/routers/telemetry.py sends to the time series, from
-- the metrics of its models, without the dicts and the type tests of app/services/influx.py.
use mikrotik_cpe_cloud.Base.{ℕ, Bool, List, [], ◌∷◌, ◌++◌, Option, none, some}
use mikrotik_cpe_cloud.Base.Text.{Text, codes}
use mikrotik_cpe_cloud.Base.Int.{ℤ}
use mikrotik_cpe_cloud.Base.Decimal.{str}
use mikrotik_cpe_cloud.Models.{Router}
use mikrotik_cpe_cloud.Influx.Value.{Real}
use mikrotik_cpe_cloud.Influx.Point.{
  int_field, float_field, bool_field, text_field, PointFields, Point, Kind, ethernet, wireless,
  wifi, kind_name,
}
use mikrotik_cpe_cloud.Telemetry.Payload.{
  TelemetrySystem, Counters, TelemetryEthernet, TelemetryWirelessIf, TelemetryWifiIf,
  TelemetryHeartbeat,
}

-- A metric that was sent, and one that was not.
abbrev pub sent_int : Text → Option ℤ → PointFields → PointFields
sent_int name none rest = rest
sent_int name (some n) rest = (name, int_field n) ∷ rest

abbrev pub sent_real : Text → Option Real → PointFields → PointFields
sent_real name none rest = rest
sent_real name (some x) rest = (name, float_field x) ∷ rest

abbrev pub sent_flag : Text → Option Bool → PointFields → PointFields
sent_flag name none rest = rest
sent_flag name (some b) rest = (name, bool_field b) ∷ rest

abbrev pub sent_text : Text → Option Text → PointFields → PointFields
sent_text name none rest = rest
sent_text name (some []) rest = rest
sent_text name (some (c ∷ s)) rest = (name, text_field (c ∷ s)) ∷ rest

abbrev pub sent_system : Option TelemetrySystem → PointFields
sent_system none = []
sent_system (some s) =
    sent_int (codes "cpu_load_pct") s.cpu_load_pct (
      sent_int (codes "free_memory_bytes") s.free_memory_bytes
        (sent_int (codes "total_memory_bytes") s.total_memory_bytes []))
    ++ sent_real (codes "temperature_c") s.temperature_c
        (sent_real (codes "voltage_v") s.voltage_v [])

abbrev pub sent_counters : Counters → PointFields
sent_counters c = sent_int (codes "rx_bytes") c.rx_bytes (
    sent_int (codes "tx_bytes") c.tx_bytes
      (sent_int (codes "rx_packets") c.rx_packets (sent_int (codes "tx_packets") c.tx_packets [])))

abbrev pub sent_ethernet : TelemetryEthernet → PointFields
sent_ethernet i = sent_counters i.counters ++ (sent_flag (codes "running") i.running [] ++ [])

abbrev pub sent_wireless : TelemetryWirelessIf → PointFields
sent_wireless i =
    sent_counters i.counters
    ++ (sent_flag (codes "disabled") i.disabled []
        ++ (sent_int (codes "frequency") i.frequency []
            ++ sent_text (codes "ssid") i.ssid (
                sent_text (codes "band") i.band (
                  sent_text (codes "channel_width") i.channel_width (
                    sent_text (codes "tx_power") i.tx_power
                      (sent_text (codes "mode") i.mode []))))))

abbrev pub sent_wifi : TelemetryWifiIf → PointFields
sent_wifi i =
    sent_counters i.counters
    ++ (sent_flag (codes "disabled") i.disabled []
        ++ sent_text (codes "ssid") i.ssid (
            sent_text (codes "channel") i.channel
              (sent_text (codes "configuration") i.configuration [])))

module _ (router : Router) (ts : ℕ) where
  -- A point with a name and a field, or none.
  abbrev pub typed_point : Kind → Text → PointFields → Option Point
  typed_point kind [] fs = none
  typed_point kind (c ∷ name) [] = none
  typed_point kind (c ∷ name) (f ∷ fs) = some (record {
    measurement = codes "interface";
    tags =
        (codes "router_id", str router.id)
        ∷ (codes "interface_name", c ∷ name)
        ∷ (codes "kind", kind_name kind)
        ∷ [];
    fields = f ∷ fs;
    time = ts;
  })

  abbrev pub kept : Option Point → List Point → List Point
  kept none points = points
  kept (some p) points = p ∷ points

  abbrev pub kept_points : {A : Type 0} → (A → Option Point) → List A → List Point
  kept_points point [] = []
  kept_points point (a ∷ more) = kept (point a) (kept_points point more)

  abbrev pub kept_array : {A : Type 0} → (A → Option Point) → Option (List A) → List Point
  kept_array point none = []
  kept_array point (some interfaces) = kept_points point interfaces

  abbrev pub ethernet_point : TelemetryEthernet → Option Point
  ethernet_point i = typed_point ethernet i.name (sent_ethernet i)

  abbrev pub wireless_point : TelemetryWirelessIf → Option Point
  wireless_point i = typed_point wireless i.name (sent_wireless i)

  abbrev pub wifi_point : TelemetryWifiIf → Option Point
  wifi_point i = typed_point wifi i.name (sent_wifi i)

  abbrev pub sent_points : TelemetryHeartbeat → List Point
  sent_points hb =
      kept_array ethernet_point hb.ethernet
      ++ (kept_array wireless_point hb.wireless_interfaces
          ++ kept_array wifi_point hb.wifi_interfaces)
