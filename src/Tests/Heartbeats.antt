-- ===== src/Tests/Heartbeats.antt =====
-- A heartbeat from its body to its points, the buckets of two clients, and two rows.
use mikrotik_cpe_cloud.Base.{ℕ, ◌≡◌, refl, Bool, true, List, [], ◌∷◌, Option, none, some}
use mikrotik_cpe_cloud.Base.Text.{Text, codes, text_eq}
use mikrotik_cpe_cloud.Base.Int.{ℤ, pos}
use mikrotik_cpe_cloud.Base.Result.{Result, ok, err, os_error}
use mikrotik_cpe_cloud.Influx.Value.{
  Real, Value, int, real, flag, string, list, dict, nil, cons, Entries, end, entry, get,
}
use mikrotik_cpe_cloud.Influx.Point.{Point, build_interface_points}
use mikrotik_cpe_cloud.Influx.Write.{records}
use mikrotik_cpe_cloud.Telemetry.Payload.{Coercions, TelemetryHeartbeat, optional, required, extras}
use mikrotik_cpe_cloud.Telemetry.Validate.{
  validate_heartbeat, validate_system, validate_ethernet, validate_counters, members,
}
use mikrotik_cpe_cloud.Telemetry.Dump.{model_dump}
use mikrotik_cpe_cloud.Telemetry.Sent.{sent_points}
use mikrotik_cpe_cloud.Telemetry.Series.{build_interface_points-model_dump}
use mikrotik_cpe_cloud.Telemetry.Bounds.{PointsInBounds, records-InBounds}
use mikrotik_cpe_cloud.RateLimit.Window.{Call}
use mikrotik_cpe_cloud.RateLimit.Refine.{answers, bucket_answers, calls_of, answers-bucket_answers}
use mikrotik_cpe_cloud.RateLimit.{lookup}
use mikrotik_cpe_cloud.Tests.Data.{test_settings, existing}

abbrev read_int : Value → Option ℤ
read_int (int n) = some n
read_int _ = none

abbrev read_real : Value → Option Real
read_real (real x) = some x
read_real _ = none

abbrev read_flag : Value → Option Bool
read_flag (flag b) = some b
read_flag _ = none

abbrev pub co : Coercions
co = record {
  to_int = read_int;
  to_float = read_real;
  to_bool = read_flag;
  within = λ lo hi x. true;
}

abbrev pub body : Entries
body = entry (codes "identity") (string (codes "hAP A - B, C")) (
    entry (codes "wifi_stack") (string (codes "wifi")) (
      entry (codes "system") (dict (entry (codes "cpu_load_pct") (int (pos 42)) end)) (
        entry (codes "ethernet")
          (list (
            cons
              (dict (
                entry (codes "name") (string (codes "ether1"))
                  (entry (codes "rx_bytes") (int (pos 7)) end)))
              nil))
          end)))

abbrev pub heartbeat : TelemetryHeartbeat
heartbeat = record {
  schema_version = none;
  identity = codes "hAP A - B, C";
  wifi_stack = codes "wifi";
  serial = none;
  mac = none;
  board = none;
  ros_version = none;
  uptime = none;
  system = some (record {
    uptime = none;
    cpu_load_pct = some (pos 42);
    free_memory_bytes = none;
    total_memory_bytes = none;
    temperature_c = none;
    voltage_v = none;
    extra = end;
  });
  ethernet = some (
      record {
        name = codes "ether1";
        running = none;
        counters = record {
          rx_bytes = some (pos 7);
          tx_bytes = none;
          rx_packets = none;
          tx_packets = none;
        };
        extra = end;
      }
      ∷ []);
  wireless_interfaces = none;
  wifi_interfaces = none;
  extra = end;
}

pub validated : validate_heartbeat co body ≡ ok heartbeat
unfolding validate_heartbeat optional get text_eq required validate_system members validate_ethernet
    validate_counters extras
validated = refl

abbrev pub truncate : Real → ℤ
truncate x = x.mantissa

abbrev pub read : Text → Option Real
read s = none

abbrev pub show_value : Value → Text
show_value v = []

abbrev pub fails : List Point → Result (Unit {0})
fails batch = err os_error

records-InBounds_example :
    (points : List Point) × (records truncate read show_value
        (ok tt)
        fails
        test_settings
        existing
        (model_dump heartbeat)
        5
      ≡ ok points)
    × PointsInBounds co points
records-InBounds_example =
    records-InBounds co existing 5 truncate read show_value (ok tt) fails test_settings body
      heartbeat validated

build_interface_points-model_dump_example :
    build_interface_points truncate read existing (model_dump heartbeat) 5
    ≡ sent_points existing 5 heartbeat
build_interface_points-model_dump_example =
    build_interface_points-model_dump existing 5 truncate read heartbeat

abbrev call : Text → ℕ → Call
call key t = record { scope = codes "fetch"; key = key; created = t; now = t }

abbrev calls : List Call
calls = call (codes "a") 0 ∷ call (codes "b") 1 ∷ call (codes "a") 2 ∷ []

answers-bucket_answers_example :
    answers (codes "fetch", codes "a") [] calls
    ≡ bucket_answers
        (lookup (codes "fetch", codes "a") [])
        (calls_of (codes "fetch", codes "a") calls)
answers-bucket_answers_example = answers-bucket_answers (codes "fetch", codes "a") [] calls
