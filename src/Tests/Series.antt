-- ===== src/Tests/Series.antt =====
-- Uptimes, points and writes.
use mikrotik_cpe_cloud.Base.{
  ◌+◌, ◌*◌, ◌≡◌, ◌⊎◌, refl, true, false, List, [], ◌∷◌, Option, none, some, length,
}
use mikrotik_cpe_cloud.Base.Text.{Text, codes, text_eq}
use mikrotik_cpe_cloud.Base.Result.{Result, ok, err, os_error}
use mikrotik_cpe_cloud.Base.Int.{ℤ, pos}
use mikrotik_cpe_cloud.Influx.Uptime.{parse_uptime}
use mikrotik_cpe_cloud.Influx.Parse.{uptime, parse_uptime-uptime}
use mikrotik_cpe_cloud.Influx.Value.{
  Real, Value, int, flag, string, list, dict, nil, cons, Entries, end, entry, get,
}
use mikrotik_cpe_cloud.Influx.Point.{Point, build_interface_points, build_system_point}
use mikrotik_cpe_cloud.Influx.Batch.{written, write_telemetry_lem}
use mikrotik_cpe_cloud.Influx.Write.{as_dict, extract_uptime_string}
use mikrotik_cpe_cloud.Tests.Data.{test_settings, existing}

parse_uptime-uptime_example :
    parse_uptime (uptime (some 2) (some 1) none (some 23) (some 12))
    ≡ 2 * 604800 + (1 * 86400 + (0 + (23 * 60 + 12 * 1)))
parse_uptime-uptime_example = parse_uptime-uptime (some 2) (some 1) none (some 23) (some 12)

abbrev truncate : Real → ℤ
truncate x = x.mantissa

abbrev read : Text → Option Real
read s = none

abbrev port : Entries
port = entry (codes "name") (string (codes "ether1")) (
    entry (codes "running") (flag true) (
      entry (codes "rx_bytes") (int (pos 7)) (
        entry (codes "tx_bytes") (string (codes "8"))
          (entry (codes "rx_packets") (string (codes "x")) end))))

abbrev payload : Entries
payload =
    entry (codes "uptime") (string (codes "5s"))
      (entry (codes "ethernet") (list (cons (dict port) (cons (dict end) nil))) end)

-- One of the two entries gives a point.
builds_one : length (build_interface_points truncate read existing payload 5) ≡ 1
unfolding build_interface_points text_eq
builds_one = refl

abbrev show_value : Value → Text
show_value v = []

abbrev fails : List Point → Result (Unit {0})
fails batch = err os_error

write_telemetry_lem_example :
    let done =
      written truncate read show_value (ok tt) fails test_settings existing payload 5 false in
    (done.result ≡ ok tt)
    × ((done.batches ≡ [])
        ⊎ ((system_point : Point) × (build_system_point truncate read existing
                (parse_uptime (
                  extract_uptime_string truncate read show_value
                    (ok tt)
                    fails
                    test_settings
                    payload))
                (as_dict (get (codes "system") payload))
                5
              ≡ ok system_point)
            × (done.batches
                ≡ (system_point ∷ build_interface_points truncate read existing payload 5) ∷ [])))
    × (test_settings.influx_token ≡ [] → false ≡ false → done.batches ≡ [])
write_telemetry_lem_example =
    write_telemetry_lem truncate read show_value (ok tt) fails test_settings existing payload 5
      false refl
