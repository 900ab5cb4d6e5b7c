-- ===== src/Influx/Point.antt =====
-- The point builders of app/services/influx.py. A point is recorded as what the builder is told:
-- the measurement, the tags and the fields in the order of the calls, and the time.
use mikrotik_cpe_cloud.Base.{ℕ, Bool, List, [], ◌∷◌, ◌++◌, Option, none, some, if◌then◌else◌}
use mikrotik_cpe_cloud.Base.Text.{Text, codes}
use mikrotik_cpe_cloud.Base.Int.{ℤ, pos}
use mikrotik_cpe_cloud.Base.Decimal.{str}
use mikrotik_cpe_cloud.Base.Result.{Result, ok, err, ◌>>=◌}
use mikrotik_cpe_cloud.Models.{Router}
use mikrotik_cpe_cloud.Influx.Value.{
  Real, Value, flag, string, list, dict, Values, nil, cons, Entries, end, entry, get, is_null,
  int_of, float_of,
}

pub data FieldValue : Type 0 where
  int_field : ℤ → FieldValue
  float_field : Real → FieldValue
  bool_field : Bool → FieldValue
  text_field : Text → FieldValue

abbrev pub PointFields : Type 0
PointFields = List (Text × FieldValue)

pub record Point : Type 0 where
  pub measurement : Text
  pub tags : List (Text × Text)
  pub fields : PointFields
  pub time : ℕ

pub data Kind : Type 0 where
  ethernet wireless wifi : Kind

abbrev pub kind_name : Kind → Text
kind_name ethernet = codes "ethernet"
kind_name wireless = codes "wireless"
kind_name wifi = codes "wifi"

-- `value or "unknown"`
abbrev pub or_unknown : Option Text → Text
or_unknown none = codes "unknown"
or_unknown (some []) = codes "unknown"
or_unknown (some (c ∷ s)) = c ∷ s

-- A field of a value that can be converted; where it cannot, the exception is passed over.
abbrev pub converted : Text → Result ℤ → PointFields → PointFields
converted name (ok n) rest = (name, int_field n) ∷ rest
converted name (err e) rest = rest

-- `if isinstance(val, str) and val`
abbrev pub text_or_none : Text → Value → PointFields → PointFields
text_or_none name (string (c ∷ s)) rest = (name, text_field (c ∷ s)) ∷ rest
text_or_none name _ rest = rest

unfoldable pub text_fields : List Text → Entries → PointFields
unfolding get
text_fields [] es = []
text_fields (name ∷ names) es = text_or_none name (get name es) (text_fields names es)

-- `if isinstance(running, bool)`
abbrev pub flag_field : Text → Value → PointFields
flag_field name (flag b) = (name, bool_field b) ∷ []
flag_field name _ = []

abbrev pub state_field : Kind → Entries → PointFields
state_field ethernet es = flag_field (codes "running") (get (codes "running") es)
state_field wireless es = flag_field (codes "disabled") (get (codes "disabled") es)
state_field wifi es = flag_field (codes "disabled") (get (codes "disabled") es)

-- `_INTERFACE_COUNTER_FIELDS`
abbrev pub counter_names : List Text
counter_names = codes "rx_bytes" ∷ codes "tx_bytes" ∷ codes "rx_packets" ∷ codes "tx_packets" ∷ []

module _ (truncate : Real → ℤ) (read : Text → Option Real) where
  -- The loop over integer fields of an interface.
  unfoldable pub counter_fields : List Text → Entries → PointFields
  unfolding get int_of
  counter_fields [] es = []
  counter_fields (name ∷ names) es =
      let rest = counter_fields names es in
      if is_null (get name es) then rest else converted name (int_of truncate (get name es)) rest

  abbrev pub metadata_fields : Kind → Entries → PointFields
  metadata_fields ethernet es = []
  metadata_fields wireless es =
      counter_fields (codes "frequency" ∷ []) es
      ++ text_fields
          (codes "ssid"
            ∷ codes "band"
            ∷ codes "channel_width"
            ∷ codes "tx_power"
            ∷ codes "mode"
            ∷ [])
          es
  metadata_fields wifi es =
      text_fields (codes "ssid" ∷ codes "channel" ∷ codes "configuration" ∷ []) es

  abbrev pub interface_fields : Kind → Entries → PointFields
  interface_fields kind es =
      counter_fields counter_names es ++ (state_field kind es ++ metadata_fields kind es)

  -- `if not has_field: return None`
  abbrev pub point_or_none : Router → Kind → Text → ℕ → PointFields → Option Point
  point_or_none router kind name ts [] = none
  point_or_none router kind name ts (f ∷ fs) = some (record {
    measurement = codes "interface";
    tags =
        (codes "router_id", str router.id)
        ∷ (codes "interface_name", name)
        ∷ (codes "kind", kind_name kind)
        ∷ [];
    fields = f ∷ fs;
    time = ts;
  })

  abbrev pub named_point : Router → Kind → Entries → ℕ → Value → Option Point
  named_point router kind es ts (string (c ∷ s)) =
      point_or_none router kind (c ∷ s) ts (interface_fields kind es)
  named_point router kind es ts _ = none

  -- `_build_one_interface_point`
  unfoldable pub build_one_interface_point : Router → Kind → Entries → ℕ → Option Point
  unfolding counter_fields text_fields get
  build_one_interface_point router kind es ts =
      named_point router kind es ts (get (codes "name") es)

  abbrev pub add_point : Option Point → List Point → List Point
  add_point none points = points
  add_point (some p) points = p ∷ points

  -- The loop over one array; an entry that is no dict is passed over.
  unfoldable pub points_of : Router → Kind → ℕ → Values → List Point
  unfolding build_one_interface_point
  points_of router kind ts nil = []
  points_of router kind ts (cons (dict es) rest) =
      add_point (build_one_interface_point router kind es ts) (points_of router kind ts rest)
  points_of router kind ts (cons _ rest) = points_of router kind ts rest

  -- `if isinstance(eth, list)`
  abbrev pub array_points : Router → Kind → ℕ → Value → List Point
  array_points router kind ts (list vs) = points_of router kind ts vs
  array_points router kind ts _ = []

  -- `_build_interface_points`
  unfoldable pub build_interface_points : Router → Entries → ℕ → List Point
  unfolding points_of get
  build_interface_points router payload ts =
      array_points router ethernet ts (get (codes "ethernet") payload)
      ++ (array_points router wireless ts (get (codes "wireless_interfaces") payload)
          ++ array_points router wifi ts (get (codes "wifi_interfaces") payload))

  -- The loops over the fields of `system`; an exception goes on to the writer.
  unfoldable pub system_ints : List Text → Entries → Result PointFields
  unfolding get int_of
  system_ints [] es = ok []
  system_ints (name ∷ names) es =
      let rest = system_ints names es in
      if is_null (get name es)
      then rest
      else (do n ← int_of truncate (get name es); fs ← rest; ok ((name, int_field n) ∷ fs))

  unfoldable pub system_floats : List Text → Entries → Result PointFields
  unfolding get float_of
  system_floats [] es = ok []
  system_floats (name ∷ names) es =
      let rest = system_floats names es in
      if is_null (get name es)
      then rest
      else (do x ← float_of read (get name es); fs ← rest; ok ((name, float_field x) ∷ fs))

  abbrev pub system_fields : Option Entries → Result PointFields
  system_fields none = ok []
  system_fields (some end) = ok []
  system_fields (some (entry k v es)) = do
    ints ←
        system_ints
          (codes "cpu_load_pct" ∷ codes "free_memory_bytes" ∷ codes "total_memory_bytes" ∷ [])
          (entry k v es)
    floats ← system_floats (codes "temperature_c" ∷ codes "voltage_v" ∷ []) (entry k v es)
    ok (ints ++ floats)

  -- `_build_system_point`
  unfoldable pub build_system_point : Router → ℕ → Option Entries → ℕ → Result Point
  unfolding system_ints system_floats
  build_system_point router uptime_sec system ts = do
    fs ← system_fields system
    ok (record {
      measurement = codes "system";
      tags =
          (codes "router_id", str router.id)
          ∷ (codes "model", or_unknown router.model)
          ∷ (codes "wifi_stack", or_unknown router.wifi_stack)
          ∷ [];
      fields = (codes "uptime_sec", int_field (pos uptime_sec)) ∷ fs;
      time = ts;
    })
