-- ===== src/Telemetry/Series.antt =====
-- What a validated heartbeat becomes in the time series: the point builders of
-- app/services/influx.py on `model_dump` give what `Sent` says.
use mikrotik_cpe_cloud.Base.{
  ℕ, ◌≡◌, refl, ap, ◌∙◌, Bool, List, [], ◌∷◌, Option, none, some, arith, if◌then◌else◌,
}
use mikrotik_cpe_cloud.Base.Text.{Text, codes, text_eq}
use mikrotik_cpe_cloud.Base.Int.{ℤ, pos}
use mikrotik_cpe_cloud.Base.Decimal.{str}
use mikrotik_cpe_cloud.Base.Result.{ok}
use mikrotik_cpe_cloud.Models.{Router}
use mikrotik_cpe_cloud.Influx.Value.{Real, string, Entries, get, is_null, int_of, float_of}
use mikrotik_cpe_cloud.Influx.Point.{
  int_field, PointFields, Point, Kind, ethernet, wireless, wifi, converted, text_or_none,
  flag_field, or_unknown, counter_fields, text_fields, point_or_none, named_point, add_point,
  interface_fields, build_one_interface_point, points_of, array_points, build_interface_points,
  system_ints, system_floats, system_fields, build_system_point,
}
use mikrotik_cpe_cloud.Influx.Write.{as_dict}
use mikrotik_cpe_cloud.Telemetry.Payload.{
  TelemetrySystem, TelemetryEthernet, TelemetryWirelessIf, TelemetryWifiIf, TelemetryHeartbeat,
}
use mikrotik_cpe_cloud.Telemetry.Dump.{
  dump_ethernet, dump_wireless, dump_wifi, dump_all, dump_array, dump_nested, model_dump, int_value,
  text_value, flag_value,
}
use mikrotik_cpe_cloud.Telemetry.Sent.{
  sent_int, sent_flag, sent_text, sent_system, sent_ethernet, sent_wireless, sent_wifi, typed_point,
  kept_points, kept_array, ethernet_point, wireless_point, wifi_point, sent_points,
}

module _ (router : Router) (ts : ℕ) (truncate : Real → ℤ) (read : Text → Option Real) where
  sent_int_lem :
      (name : Text) (v : Option ℤ) (rest : PointFields)
      → (if is_null (int_value v)
          then rest
          else converted name (int_of truncate (int_value v)) rest)
        ≡ sent_int name v rest
  unfolding int_of
  sent_int_lem name none rest = refl
  sent_int_lem name (some n) rest = refl

  sent_text_lem :
      (name : Text) (v : Option Text) (rest : PointFields)
      → text_or_none name (text_value v) rest ≡ sent_text name v rest
  sent_text_lem name none rest = refl
  sent_text_lem name (some []) rest = refl
  sent_text_lem name (some (c ∷ s)) rest = refl

  sent_flag_lem :
      (name : Text) (v : Option Bool) → flag_field name (flag_value v) ≡ sent_flag name v []
  sent_flag_lem name none = refl
  sent_flag_lem name (some b) = refl

  ethernet_dumped :
      (i : TelemetryEthernet)
      → interface_fields truncate read ethernet (dump_ethernet i) ≡ sent_ethernet i
  unfolding counter_fields text_fields get text_eq int_of
  ethernet_dumped i = simp (sent_int_lem, sent_flag_lem)

  wireless_dumped :
      (i : TelemetryWirelessIf)
      → interface_fields truncate read wireless (dump_wireless i) ≡ sent_wireless i
  unfolding counter_fields text_fields get text_eq int_of
  wireless_dumped i = simp (sent_int_lem, sent_text_lem, sent_flag_lem)

  wifi_dumped :
      (i : TelemetryWifiIf) → interface_fields truncate read wifi (dump_wifi i) ≡ sent_wifi i
  unfolding counter_fields text_fields get text_eq int_of
  wifi_dumped i = simp (sent_int_lem, sent_text_lem, sent_flag_lem)

  named_point_typed :
      (kind : Kind) (es : Entries) (name : Text) (fs : PointFields)
      → interface_fields truncate read kind es ≡ fs
      → named_point truncate read router kind es ts (string name)
        ≡ typed_point router ts kind name fs
  named_point_typed kind es [] fs e = refl
  named_point_typed kind es (c ∷ name) fs e =
      ap (point_or_none truncate read router kind (c ∷ name) ts) e ∙ point_or_none_typed fs
    where
      point_or_none_typed :
          (fs : PointFields)
          → point_or_none truncate read router kind (c ∷ name) ts fs
            ≡ typed_point router ts kind (c ∷ name) fs
      point_or_none_typed [] = refl
      point_or_none_typed (f ∷ fs) = refl

  ethernet_built :
      (i : TelemetryEthernet)
      → build_one_interface_point truncate read router ethernet (dump_ethernet i) ts
        ≡ ethernet_point router ts i
  unfolding build_one_interface_point get text_eq
  ethernet_built i =
      named_point_typed ethernet (dump_ethernet i) i.name (sent_ethernet i) (ethernet_dumped i)

  wireless_built :
      (i : TelemetryWirelessIf)
      → build_one_interface_point truncate read router wireless (dump_wireless i) ts
        ≡ wireless_point router ts i
  unfolding build_one_interface_point get text_eq
  wireless_built i =
      named_point_typed wireless (dump_wireless i) i.name (sent_wireless i) (wireless_dumped i)

  wifi_built :
      (i : TelemetryWifiIf)
      → build_one_interface_point truncate read router wifi (dump_wifi i) ts
        ≡ wifi_point router ts i
  unfolding build_one_interface_point get text_eq
  wifi_built i = named_point_typed wifi (dump_wifi i) i.name (sent_wifi i) (wifi_dumped i)

  added_point :
      {A : Type 0} (point : A → Option Point) (a : A) (more : List A)
      → add_point truncate read (point a) (kept_points router ts point more)
        ≡ kept_points router ts point (a ∷ more)
  added_point point a more = ground arith

  points_of_dumped :
      {A : Type 0} (kind : Kind) (dump : A → Entries) (point : A → Option Point)
      → ((a : A) → build_one_interface_point truncate read router kind (dump a) ts ≡ point a)
      → (interfaces : List A)
      → points_of truncate read router kind ts (dump_all dump interfaces)
        ≡ kept_points router ts point interfaces
  unfolding points_of dump_all
  points_of_dumped kind dump point built [] = refl
  points_of_dumped kind dump point built (a ∷ more) =
      ap
        (λ p.
          add_point truncate read p (points_of truncate read router kind ts (dump_all dump more)))
        (built a)
      ∙ (ap (add_point truncate read (point a)) (points_of_dumped kind dump point built more)
          ∙ added_point point a more)

  array_points_dumped :
      {A : Type 0} (kind : Kind) (dump : A → Entries) (point : A → Option Point)
      → ((a : A) → build_one_interface_point truncate read router kind (dump a) ts ≡ point a)
      → (interfaces : Option (List A))
      → array_points truncate read router kind ts (dump_array dump interfaces)
        ≡ kept_array router ts point interfaces
  array_points_dumped kind dump point built none = refl
  array_points_dumped kind dump point built (some interfaces) =
      points_of_dumped kind dump point built interfaces

  system_fields_dumped :
      (s : Option TelemetrySystem)
      → system_fields truncate read (as_dict (dump_nested s)) ≡ ok (sent_system s)
  unfolding system_ints system_floats get text_eq int_of float_of
  system_fields_dumped s = ground arith

  -- The system point of a validated heartbeat is always made, with the uptime and the metrics
  -- that were sent and no others; the conversions raise nothing.
  pub build_system_point-model_dump :
      (uptime_sec : ℕ) (hb : TelemetryHeartbeat)
      → build_system_point truncate read router uptime_sec
          (as_dict (get (codes "system") (model_dump hb)))
          ts
        ≡ ok (record {
          measurement = codes "system";
          tags =
              (codes "router_id", str router.id)
              ∷ (codes "model", or_unknown router.model)
              ∷ (codes "wifi_stack", or_unknown router.wifi_stack)
              ∷ [];
          fields = (codes "uptime_sec", int_field (pos uptime_sec)) ∷ sent_system hb.system;
          time = ts;
        })
  unfolding build_system_point model_dump get text_eq
  build_system_point-model_dump uptime_sec hb = rw (system_fields_dumped hb.system)

  -- The interface points of a validated heartbeat are, in the order of the arrays, one for each
  -- interface of which a metric was sent: its fields are the metrics that were sent.
  pub build_interface_points-model_dump :
      (hb : TelemetryHeartbeat)
      → build_interface_points truncate read router (model_dump hb) ts ≡ sent_points router ts hb
  unfolding build_interface_points model_dump get text_eq
  build_interface_points-model_dump hb = simp (
    array_points_dumped ethernet dump_ethernet (ethernet_point router ts) ethernet_built
        hb.ethernet,
    array_points_dumped wireless dump_wireless (wireless_point router ts) wireless_built
        hb.wireless_interfaces,
    array_points_dumped wifi dump_wifi (wifi_point router ts) wifi_built hb.wifi_interfaces,
  )
