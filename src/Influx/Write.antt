-- ===== src/Influx/Write.antt =====
-- The client's life and `write_telemetry` of app/services/influx.py. `connect` is what making a client
-- for the settings does, `write` what the client does with a batch, and `show_value` is `str` of a
-- value that is no text.
use mikrotik_cpe_cloud.Base.{ℕ, Bool, true, false, List, [], ◌∷◌, Option, none, some, if◌then◌else◌}
use mikrotik_cpe_cloud.Base.Text.{Text, codes}
use mikrotik_cpe_cloud.Base.Int.{ℤ}
use mikrotik_cpe_cloud.Base.Result.{Result, ok, err, ◌>>=◌}
use mikrotik_cpe_cloud.Models.{Router}
use mikrotik_cpe_cloud.Config.{Settings}
use mikrotik_cpe_cloud.Influx.Uptime.{parse_uptime}
use mikrotik_cpe_cloud.Influx.Value.{Real, Value, string, dict, Entries, get, is_true}
use mikrotik_cpe_cloud.Influx.Point.{Point, build_system_point, build_interface_points}

-- `get_client`: whether there is a client, and `_client` afterwards; a failed connection raises.
unfoldable pub get_client : Settings → Result (Unit {0}) → Bool → Result Bool × Bool
get_client settings connect true = (ok true, true)
get_client settings connect false = elim settings.influx_token [
  | [] ↦ (ok false, false)
  | c ∷ token ↦ elim connect [ ok done ↦ (ok true, true) | err e ↦ (err e, false) ]
]

-- `close_client`: an exception of the client is passed over.
unfoldable pub close_client : Result (Unit {0}) → Bool → Result (Unit {0}) × Bool
close_client closed false = (ok tt, false)
close_client (ok done) true = (ok tt, false)
close_client (err e) true = (ok tt, false)

abbrev pub as_dict : Value → Option Entries
as_dict (dict es) = some es
as_dict _ = none

-- What a call leaves: its result, `_client`, and the batches that the client was given.
pub record Written : Type 0 where
  pub result : Result (Unit {0})
  pub client : Bool
  pub batches : List (List Point)

module _ (truncate : Real → ℤ) (read : Text → Option Real) (show_value : Value → Text)
    (connect : Result (Unit {0})) (write : List Point → Result (Unit {0}))
    (settings : Settings) where
  abbrev pub text_of : Value → Text
  text_of (string s) = s
  text_of v = show_value v

  abbrev pub flat_uptime : Value → Text
  flat_uptime flat = if is_true flat then text_of flat else []

  abbrev pub nested_or_flat : Value → Value → Text
  nested_or_flat (dict es) flat =
      if is_true (get (codes "uptime") es)
      then text_of (get (codes "uptime") es)
      else flat_uptime flat
  nested_or_flat _ flat = flat_uptime flat

  -- `_extract_uptime_string`
  unfoldable pub extract_uptime_string : Entries → Text
  unfolding get
  extract_uptime_string payload =
      nested_or_flat (get (codes "system") payload) (get (codes "uptime") payload)

  -- The records of a heartbeat, in the `try`.
  unfoldable pub records : Router → Entries → ℕ → Result (List Point)
  unfolding build_system_point build_interface_points parse_uptime extract_uptime_string
  records router payload ts = do
    system_point ←
        build_system_point truncate read router (parse_uptime (extract_uptime_string payload))
          (as_dict (get (codes "system") payload)) ts
    ok (system_point ∷ build_interface_points truncate read router payload ts)

  -- `write_api.write(…)`, whose exception is passed over.
  abbrev pub send : List Point → Written
  send batch = elim (write batch) [
    | ok done ↦ record { result = ok tt; client = true; batches = batch ∷ [] }
    | err e ↦ record { result = ok tt; client = true; batches = batch ∷ [] }
  ]

  -- `write_telemetry`
  unfoldable pub write_telemetry : Router → Entries → ℕ → Bool → Written
  unfolding get_client records
  write_telemetry router payload ts client =
      let (found, client') = get_client settings connect client in
      elim found [
        | err e ↦ record { result = err e; client = client'; batches = [] }
        | ok false ↦ record { result = ok tt; client = client'; batches = [] }
        | ok true ↦ elim (records router payload ts) [
          | err e ↦ record { result = ok tt; client = client'; batches = [] }
          | ok batch ↦ send batch
        ]
      ]
