-- ===== src/Influx/Batch.antt =====
-- What `write_telemetry` gives to the client, and that its errors stay inside.
use mikrotik_cpe_cloud.Base.{
  ℕ, ◌≡◌, ◌≢◌, refl, ◌∙◌, ◌⊎◌, Bool, false, List, [], ◌∷◌, Option, none, some, arith, All,
  All-append,
}
use mikrotik_cpe_cloud.Base.Text.{Text, codes}
use mikrotik_cpe_cloud.Base.Int.{ℤ}
use mikrotik_cpe_cloud.Base.Decimal.{str}
use mikrotik_cpe_cloud.Base.Result.{Result, ok}
use mikrotik_cpe_cloud.Models.{Router}
use mikrotik_cpe_cloud.Config.{Settings}
use mikrotik_cpe_cloud.Influx.Uptime.{parse_uptime}
use mikrotik_cpe_cloud.Influx.Value.{
  Real, Value, null, int, real, flag, string, list, dict, Values, nil, cons, Entries, get,
}
use mikrotik_cpe_cloud.Influx.Point.{
  PointFields, Point, Kind, ethernet, wireless, wifi, kind_name, interface_fields, point_or_none,
  named_point, build_one_interface_point, add_point, points_of, array_points,
  build_interface_points, build_system_point,
}
use mikrotik_cpe_cloud.Influx.Write.{
  Written, get_client, as_dict, extract_uptime_string, records, write_telemetry,
}

module _ (truncate : Real → ℤ) (read : Text → Option Real) where
  -- A point that the database takes: it has a field, and it is told apart by its tags.
  pub record IsUsable (router : Router) (p : Point) : Type 0 where
    pub has_field : p.fields ≢ []
    pub kind : Kind
    pub name : Text
    pub has_name : name ≢ []
    pub entry_of : Entries
    pub fields_are : p.fields ≡ interface_fields truncate read kind entry_of
    pub name_is : get (codes "name") entry_of ≡ string name
    pub tags_are :
        p.tags
        ≡ (codes "router_id", str router.id)
          ∷ (codes "interface_name", name)
          ∷ (codes "kind", kind_name kind)
          ∷ []

  point_or_none-IsUsable :
      (router : Router) (kind : Kind) (name : Text) (es : Entries) (ts : ℕ) (fs : PointFields)
      → name ≢ []
      → get (codes "name") es ≡ string name
      → fs ≡ interface_fields truncate read kind es
      → (p : Point) → point_or_none truncate read router kind name ts fs ≡ some p
      → IsUsable router p
  point_or_none-IsUsable router kind name es ts [] n g e p h = cc
  point_or_none-IsUsable router kind name es ts (f ∷ fs) n g e p h =
      let same : p.fields ≡ f ∷ fs = ground (arith, h) in
      record {
        has_field = λ z. cc (same, z);
        kind = kind;
        name = name;
        has_name = n;
        entry_of = es;
        fields_are = same ∙ e;
        name_is = g;
        tags_are = ground (arith, h);
      }

  named_point-IsUsable :
      (router : Router) (kind : Kind) (es : Entries) (ts : ℕ) (v : Value)
      → get (codes "name") es ≡ v
      → (p : Point) → named_point truncate read router kind es ts v ≡ some p
      → IsUsable router p
  named_point-IsUsable router kind es ts (string (c ∷ s)) g p h =
      point_or_none-IsUsable router kind (c ∷ s) es ts _ (λ z. cc) g refl p h
  named_point-IsUsable router kind es ts (string []) g p h = cc
  named_point-IsUsable router kind es ts null g p h = cc
  named_point-IsUsable router kind es ts (int n) g p h = cc
  named_point-IsUsable router kind es ts (real x) g p h = cc
  named_point-IsUsable router kind es ts (flag b) g p h = cc
  named_point-IsUsable router kind es ts (list vs) g p h = cc
  named_point-IsUsable router kind es ts (dict fs) g p h = cc

  add_point-All :
      (router : Router) (o : Option Point) (ps : List Point)
      → ((p : Point) → o ≡ some p → IsUsable router p)
      → All (IsUsable router) ps
      → All (IsUsable router) (add_point truncate read o ps)
  add_point-All router none ps h k = k
  add_point-All router (some p) ps h k = (h p refl, k)

  points_of-All :
      (router : Router) (kind : Kind) (ts : ℕ) (vs : Values)
      → All (IsUsable router) (points_of truncate read router kind ts vs)
  unfolding points_of build_one_interface_point
  points_of-All router kind ts nil = tt
  points_of-All router kind ts (cons (dict es) rest) =
      add_point-All router _ _ (λ p h. named_point-IsUsable router kind es ts _ refl p h)
        (points_of-All router kind ts rest)
  points_of-All router kind ts (cons null rest) = points_of-All router kind ts rest
  points_of-All router kind ts (cons (int n) rest) = points_of-All router kind ts rest
  points_of-All router kind ts (cons (real x) rest) = points_of-All router kind ts rest
  points_of-All router kind ts (cons (flag b) rest) = points_of-All router kind ts rest
  points_of-All router kind ts (cons (string s) rest) = points_of-All router kind ts rest
  points_of-All router kind ts (cons (list us) rest) = points_of-All router kind ts rest

  array_points-All :
      (router : Router) (kind : Kind) (ts : ℕ) (v : Value)
      → All (IsUsable router) (array_points truncate read router kind ts v)
  array_points-All router kind ts (list vs) = points_of-All router kind ts vs
  array_points-All router kind ts null = tt
  array_points-All router kind ts (int n) = tt
  array_points-All router kind ts (real x) = tt
  array_points-All router kind ts (flag b) = tt
  array_points-All router kind ts (string s) = tt
  array_points-All router kind ts (dict es) = tt

  -- Each interface point that is built has a field, and stands for an entry whose name is a text that
  -- is not empty, with the fields of that entry and with the tags of the router, the name and the kind.
  pub build_interface_points-All :
      (router : Router) (payload : Entries) (ts : ℕ)
      → All (IsUsable router) (build_interface_points truncate read router payload ts)
  unfolding build_interface_points
  build_interface_points-All router payload ts =
      All-append _ _ _ (array_points-All router ethernet ts (get (codes "ethernet") payload)) (
        All-append _ _ _
          (array_points-All router wireless ts (get (codes "wireless_interfaces") payload))
          (array_points-All router wifi ts (get (codes "wifi_interfaces") payload)))

module _ (truncate : Real → ℤ) (read : Text → Option Real) (show_value : Value → Text)
    (connect : Result (Unit {0})) (write : List Point → Result (Unit {0})) (settings : Settings)
    (router : Router) (payload : Entries) (ts : ℕ) (client : Bool) where
  abbrev pub written : Written
  written = write_telemetry truncate read show_value connect write settings router payload ts client

  -- If a client can be made, `write_telemetry` returns, whatever the payload is and whatever the
  -- client does with the batch. It gives the client no batch, or one, which is the system point of
  -- the payload with its uptime and then the interface points; and none where there is no client yet
  -- and no token is set.
  pub write_telemetry_lem :
      connect ≡ ok tt
      → (written.result ≡ ok tt)
        × ((written.batches ≡ [])
            ⊎ ((system_point : Point) × (build_system_point truncate read router
                    (parse_uptime (
                      extract_uptime_string truncate read show_value connect write settings
                        payload))
                    (as_dict (get (codes "system") payload))
                    ts
                  ≡ ok system_point)
                × (written.batches
                    ≡ (system_point ∷ build_interface_points truncate read router payload ts)
                      ∷ [])))
        × (settings.influx_token ≡ [] → client ≡ false → written.batches ≡ [])
  unfolding write_telemetry get_client records
  write_telemetry_lem h = (ground arith, ground arith, λ a b. ground arith)
