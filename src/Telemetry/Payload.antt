-- ===== src/Telemetry/Payload.antt =====
-- The payload of a heartbeat: the models of app/routers/telemetry.py, their validation, and
-- `model_dump`. A missing field and a null are both None. The body is the parsed JSON; what pydantic
-- makes of a value where an int, a float or a bool is wanted is a parameter.
use mikrotik_cpe_cloud.Base.{
  ℕ, zero, suc, Bool, true, false, ◌&&◌, ◌||◌, List, [], ◌∷◌, Option, none, some, leb, ◌==◌, length,
  if◌then◌else◌,
}
use mikrotik_cpe_cloud.Base.Text.{Text, text_eq}
use mikrotik_cpe_cloud.Base.Int.{ℤ, pos, negsuc}
use mikrotik_cpe_cloud.Base.Result.{Result, ok, err, value_error}
use mikrotik_cpe_cloud.Ipv4.{is_digit}
use mikrotik_cpe_cloud.Influx.Value.{Real, Value, string, Entries, end, entry, is_null}

-- pydantic's reading of a value, and the comparison of a float with two bounds.
pub record Coercions : Type 0 where
  pub to_int : Value → Option ℤ
  pub to_float : Value → Option Real
  pub to_bool : Value → Option Bool
  pub within : ℤ → ℤ → Real → Bool

pub record TelemetrySystem : Type 0 where
  pub uptime : Option Text
  pub cpu_load_pct : Option ℤ
  pub free_memory_bytes : Option ℤ
  pub total_memory_bytes : Option ℤ
  pub temperature_c : Option Real
  pub voltage_v : Option Real
  pub extra : Entries

-- The counters that the three kinds of interface share.
pub record Counters : Type 0 where
  pub rx_bytes : Option ℤ
  pub tx_bytes : Option ℤ
  pub rx_packets : Option ℤ
  pub tx_packets : Option ℤ

pub record TelemetryEthernet : Type 0 where
  pub name : Text
  pub running : Option Bool
  pub counters : Counters
  pub extra : Entries

pub record TelemetryWirelessIf : Type 0 where
  pub name : Text
  pub ssid : Option Text
  pub band : Option Text
  pub frequency : Option ℤ
  pub channel_width : Option Text
  pub tx_power : Option Text
  pub disabled : Option Bool
  pub mode : Option Text
  pub counters : Counters
  pub extra : Entries

pub record TelemetryWifiIf : Type 0 where
  pub name : Text
  pub ssid : Option Text
  pub channel : Option Text
  pub disabled : Option Bool
  pub configuration : Option Text
  pub counters : Counters
  pub extra : Entries

pub record TelemetryHeartbeat : Type 0 where
  pub schema_version : Option ℤ
  pub identity : Text
  pub wifi_stack : Text
  pub serial : Option Text
  pub mac : Option Text
  pub board : Option Text
  pub ros_version : Option Text
  pub uptime : Option Text
  pub system : Option TelemetrySystem
  pub ethernet : Option (List TelemetryEthernet)
  pub wireless_interfaces : Option (List TelemetryWirelessIf)
  pub wifi_interfaces : Option (List TelemetryWifiIf)
  pub extra : Entries

-- `ge=lo, le=hi`
abbrev pub in_range : ℕ → ℕ → ℤ → Bool
in_range lo hi (pos n) = leb lo n && leb n hi
in_range lo hi (negsuc n) = false

-- `ge=0`
abbrev pub is_count : ℤ → Bool
is_count (pos n) = true
is_count (negsuc n) = false

abbrev pub at_most : ℕ → Text → Bool
at_most hi s = leb (length s) hi

abbrev pub is_hex : ℕ → Bool
is_hex c = is_digit c || (leb b'A' c && leb c b'F') || (leb b'a' c && leb c b'f')

abbrev pub hex_pairs : ℕ → Text → Bool
hex_pairs zero s = false
hex_pairs (suc zero) (a ∷ b ∷ []) = is_hex a && is_hex b
hex_pairs (suc zero) _ = false
hex_pairs (suc (suc n)) (a ∷ b ∷ c ∷ s) =
    let rest = hex_pairs (suc n) s in is_hex a && is_hex b && c == b':' && rest
hex_pairs (suc (suc n)) _ = false

-- `^[0-9A-Fa-f]{2}(:[0-9A-Fa-f]{2}){5}$`
abbrev pub is_mac : Text → Bool
is_mac s = hex_pairs 6 s

abbrev pub to_text : Value → Option Text
to_text (string s) = some s
to_text _ = none

abbrev pub checked {ℓ} : {A : Type ℓ} → (A → Bool) → Option A → Result A
checked check none = err value_error
checked check (some a) = if check a then ok a else err value_error

abbrev pub present {ℓ} : {A : Type ℓ} → Result A → Result (Option A)
present (ok a) = ok (some a)
present (err e) = err e

-- A field with the default None, and one without a default.
unfoldable pub optional : {A : Type 0} → (Value → Option A) → (A → Bool) → Value → Result (Option A)
optional coerce check v = if is_null v then ok none else present (checked check (coerce v))

unfoldable pub required : {A : Type 0} → (Value → Option A) → (A → Bool) → Value → Result A
required coerce check v = checked check (coerce v)

-- The keys that are no field, which `extra="allow"` keeps.
abbrev pub is_field : List Text → Text → Bool
is_field [] k = false
is_field (name ∷ names) k = text_eq name k || is_field names k

unfoldable pub extras : List Text → Entries → Entries
extras names end = end
extras names (entry k v rest) =
    let others = extras names rest in if is_field names k then others else entry k v others
