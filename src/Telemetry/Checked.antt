-- ===== src/Telemetry/Checked.antt =====
-- What the validation by the models of app/routers/telemetry.py makes sure of: the metrics of a
-- heartbeat that it returns are in their ranges.
use mikrotik_cpe_cloud.Base.{List, [], ◌++◌, Option, none, some, All}
use mikrotik_cpe_cloud.Base.Text.{codes, text_eq}
use mikrotik_cpe_cloud.Base.Result.{Result, ok, err}
use mikrotik_cpe_cloud.Influx.Value.{
  Value, null, int, real, flag, string, list, dict, Values, nil, cons, Entries, get,
}
use mikrotik_cpe_cloud.Telemetry.Payload.{Coercions, present, TelemetryHeartbeat, in_range, at_most}
use mikrotik_cpe_cloud.Telemetry.Validate.{
  nested, members, array, validate_system, validate_ethernet, validate_wireless, validate_wifi,
  validate_heartbeat,
}
use mikrotik_cpe_cloud.Telemetry.Sent.{
  sent_int, sent_flag, sent_system, sent_counters, sent_ethernet, sent_wireless, sent_wifi,
}
use mikrotik_cpe_cloud.Telemetry.Ranges.{
  Returns, >>=-Returns, optional-Returns, AllInBounds, sent_int_bounds, sent_text_bounds,
  sent_flag_bounds, range_bound, both_bounds, validate_system-Returns, counters-Returns,
  required-Returns,
}

members-Returns :
    {A : Type 0} (P : A → Type 0) (validate : Entries → Result A)
    → ((es : Entries) → Returns P (validate es))
    → (vs : Values) → Returns (All P) (members validate vs)
unfolding members
members-Returns P validate h nil = tt
members-Returns P validate h (cons (dict es) rest) =
    >>=-Returns P (All P) (validate es) _ (h es) (λ a p.
      >>=-Returns (All P) (All P) (members validate rest) _ (members-Returns P validate h rest)
        (λ more q. (p, q)))
members-Returns P validate h (cons null rest) = tt
members-Returns P validate h (cons (int n) rest) = tt
members-Returns P validate h (cons (real x) rest) = tt
members-Returns P validate h (cons (flag b) rest) = tt
members-Returns P validate h (cons (string s) rest) = tt
members-Returns P validate h (cons (list vs) rest) = tt

-- What holds of the members of an optional array, and of an optional model.
abbrev pub AllOf : {A : Type 0} → (A → Type 0) → Option (List A) → Type 0
AllOf P none = Unit
AllOf P (some xs) = All P xs

abbrev pub OfSome : {A : Type 0} → (A → Type 0) → Option A → Type 0
OfSome P none = Unit
OfSome P (some a) = P a

present-Returns :
    {A : Type 0} (P : A → Type 0) (r : Result A) → Returns P r → Returns (OfSome P) (present r)
present-Returns P (ok a) p = p
present-Returns P (err e) p = tt

present-members :
    {A : Type 0} (P : A → Type 0) (r : Result (List A))
    → Returns (All P) r
    → Returns (AllOf P) (present r)
present-members P (ok a) p = p
present-members P (err e) p = tt

nested-Returns :
    {A : Type 0} (P : A → Type 0) (validate : Entries → Result A)
    → ((es : Entries) → Returns P (validate es))
    → (v : Value) → Returns (OfSome P) (nested validate v)
nested-Returns P validate h null = tt
nested-Returns P validate h (dict es) = present-Returns P (validate es) (h es)
nested-Returns P validate h (int n) = tt
nested-Returns P validate h (real x) = tt
nested-Returns P validate h (flag b) = tt
nested-Returns P validate h (string s) = tt
nested-Returns P validate h (list vs) = tt

array-Returns :
    {A : Type 0} (P : A → Type 0) (validate : Entries → Result A)
    → ((es : Entries) → Returns P (validate es))
    → (v : Value) → Returns (AllOf P) (array validate v)
array-Returns P validate h null = tt
array-Returns P validate h (list vs) =
    present-members P (members validate vs) (members-Returns P validate h vs)
array-Returns P validate h (int n) = tt
array-Returns P validate h (real x) = tt
array-Returns P validate h (flag b) = tt
array-Returns P validate h (string s) = tt
array-Returns P validate h (dict es) = tt

module _ (co : Coercions) where
  validate_ethernet-Returns :
      (es : Entries) → Returns (λ i. AllInBounds co (sent_ethernet i)) (validate_ethernet co es)
  unfolding validate_ethernet
  validate_ethernet-Returns es = required-Returns _ _ _ _ _ (λ name _.
      optional-Returns _ _ _ _ _ (λ running _. counters-Returns co _ es _ (λ c p.
        both_bounds co (sent_counters c) (sent_flag (codes "running") running [] ++ []) p (
          both_bounds co (sent_flag (codes "running") running []) []
            (sent_flag_bounds co (codes "running") running) tt))))

  validate_wireless-Returns :
      (es : Entries) → Returns (λ i. AllInBounds co (sent_wireless i)) (validate_wireless co es)
  unfolding validate_wireless text_eq
  validate_wireless-Returns es = required-Returns _ _ _ _ _ (λ name _.
      optional-Returns _ _ _ _ _ (λ ssid p. optional-Returns _ _ _ _ _ (λ band q.
        optional-Returns _ _ _ _ _ (λ frequency f. optional-Returns _ _ _ _ _ (λ channel_width w.
          optional-Returns _ _ _ _ _ (λ tx_power t. optional-Returns _ _ _ _ _ (λ disabled _.
            optional-Returns _ _ _ _ _ (λ mode m. counters-Returns co _ es _ (λ c counted.
              both_bounds co (sent_counters c) _ counted (
                both_bounds co (sent_flag (codes "disabled") disabled []) _
                  (sent_flag_bounds co (codes "disabled") disabled)
                  (both_bounds co (sent_int (codes "frequency") frequency []) _
                    (sent_int_bounds co (codes "frequency") (in_range 0 8000) frequency []
                      (λ n. range_bound co 8000 n (codes "frequency") (λ m h. h)) f tt)
                    (sent_text_bounds co (codes "ssid") (at_most 64) ssid _ (λ s h. h) p
                      (sent_text_bounds co (codes "band") (at_most 32) band _ (λ s h. h) q
                        (sent_text_bounds co (codes "channel_width") (at_most 32) channel_width _
                          (λ s h. h) w
                          (sent_text_bounds co (codes "tx_power") (at_most 16) tx_power _ (λ s h. h)
                            t
                            (sent_text_bounds co (codes "mode") (at_most 32) mode [] (λ s h. h) m
                              tt))))))))))))))))

  validate_wifi-Returns :
      (es : Entries) → Returns (λ i. AllInBounds co (sent_wifi i)) (validate_wifi co es)
  unfolding validate_wifi text_eq
  validate_wifi-Returns es = required-Returns _ _ _ _ _ (λ name _.
      optional-Returns _ _ _ _ _ (λ ssid p. optional-Returns _ _ _ _ _ (λ channel q.
        optional-Returns _ _ _ _ _ (λ disabled _. optional-Returns _ _ _ _ _ (λ configuration r.
          counters-Returns co _ es _ (λ c counted. both_bounds co (sent_counters c) _ counted (
            both_bounds co (sent_flag (codes "disabled") disabled []) _
              (sent_flag_bounds co (codes "disabled") disabled)
              (sent_text_bounds co (codes "ssid") (at_most 64) ssid _ (λ s h. h) p
                (sent_text_bounds co (codes "channel") (at_most 32) channel _ (λ s h. h) q
                  (sent_text_bounds co (codes "configuration") (at_most 64) configuration []
                    (λ s h. h) r tt))))))))))

  -- The metrics of a heartbeat are in their ranges.
  abbrev pub MetricsInBounds : TelemetryHeartbeat → Type 0
  MetricsInBounds hb =
      OfSome (λ s. AllInBounds co (sent_system (some s))) hb.system
      × AllOf (λ i. AllInBounds co (sent_ethernet i)) hb.ethernet
      × AllOf (λ i. AllInBounds co (sent_wireless i)) hb.wireless_interfaces
      × AllOf (λ i. AllInBounds co (sent_wifi i)) hb.wifi_interfaces

  pub validate_heartbeat-Returns :
      (es : Entries) → Returns MetricsInBounds (validate_heartbeat co es)
  unfolding validate_heartbeat
  validate_heartbeat-Returns es = optional-Returns _ _ _ _ _ (λ schema_version _.
      required-Returns _ _ _ _ _ (λ identity _. required-Returns _ _ _ _ _ (λ wifi_stack _.
        optional-Returns _ _ _ _ _ (λ serial _. optional-Returns _ _ _ _ _ (λ mac _.
          optional-Returns _ _ _ _ _ (λ board _. optional-Returns _ _ _ _ _ (λ ros_version _.
            optional-Returns _ _ _ _ _ (λ uptime _.
              >>=-Returns _ _ (nested (validate_system co) (get (codes "system") es)) _
                (nested-Returns _ (validate_system co) (validate_system-Returns co) _)
                (λ system p.
                  >>=-Returns _ _ (array (validate_ethernet co) (get (codes "ethernet") es)) _
                    (array-Returns _ (validate_ethernet co) validate_ethernet-Returns _)
                    (λ ethernet q.
                      >>=-Returns _ _
                        (array (validate_wireless co) (get (codes "wireless_interfaces") es)) _
                        (array-Returns _ (validate_wireless co) validate_wireless-Returns _)
                        (λ wireless r.
                          >>=-Returns _ _
                            (array (validate_wifi co) (get (codes "wifi_interfaces") es)) _
                            (array-Returns _ (validate_wifi co) validate_wifi-Returns _)
                            (λ wifi s. (p, q, r, s)))))))))))))
