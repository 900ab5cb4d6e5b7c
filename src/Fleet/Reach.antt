-- ===== src/Fleet/Reach.antt =====
-- The writers of the tables as a step relation: the three endpoints and the two administrative
-- operations on fetch tokens, in any order and with any arguments.
use mikrotik_cpe_cloud.Base.{
  ℕ, ◌+◌, ◌≡◌, refl, ◌∙◌, ◌⊎◌, inl, inr, Bool, List, [], ◌∷◌, Option, some, arith, All-In, All-map,
  first_sound, ◌==◌, ==_iff, Bool-cases,
}
use mikrotik_cpe_cloud.Base.Text.{Text}
use mikrotik_cpe_cloud.Base.Int.{ℤ}
use mikrotik_cpe_cloud.Base.Result.{Exn}
use mikrotik_cpe_cloud.Models.{Db, Router, RouterToken, AdminFetchToken}
use mikrotik_cpe_cloud.Config.{Settings}
use mikrotik_cpe_cloud.Tokens.{
  issue_admin_fetch_token, revoke_admin_fetch_token, MintedFetchToken, ok,
}
use mikrotik_cpe_cloud.Influx.Write.{Written}
use mikrotik_cpe_cloud.Server.{Server, Response, Readings, get_router, put_router}
use mikrotik_cpe_cloud.AutoEnroll.Request.{AutoEnrollRequest}
use mikrotik_cpe_cloud.AutoEnroll.Rows.{violates_unique, clashes}
use mikrotik_cpe_cloud.AutoEnroll.Flush.{Surroundings, Provision}
use mikrotik_cpe_cloud.AutoEnroll.{auto_enroll}
use mikrotik_cpe_cloud.Telemetry.{push_telemetry}
use mikrotik_cpe_cloud.Telemetry.Push.{push_telemetry_passed, push_telemetry_rejected}
use mikrotik_cpe_cloud.Factory.{Installer, Times, factory_installer, set_fetch_tokens}
use mikrotik_cpe_cloud.Fleet.Unique.{All-put_router, put_router-Distinct, Distinct-violates_unique}
use mikrotik_cpe_cloud.Fleet.Kept.{
  WellFormed, Same, Same-WellFormed, Known-put_router, auto_enroll-WellFormed,
}

-- The commit of `issue_admin_fetch_token` by its caller.
abbrev pub with_fetch_tokens : Server → List AdminFetchToken → ℕ → Server
with_fetch_tokens s table next = record s {
  db = record s.db { admin_fetch_tokens = table; next_fetch_token = next };
}

-- The time of the last heartbeat is under no constraint.
same_row :
    (row : Router) (now : ℕ) (rs : List Router)
    → violates_unique (record row { last_seen_at = some now }) rs ≡ violates_unique row rs
unfolding violates_unique clashes
same_row row now [] = refl
same_row row now (r ∷ rs) = rw (same_row row now rs) refl

module _ (Payload : Type 0) (sha256 : Text → Text) (storable : Router → Bool)
    (describe : Exn → Text) (render : Provision → Text) (render_installer : Installer → Text)
    (settings : Settings) where
  -- One committed operation.
  pub data Step : Server → Server → Type 0 where
    enrolls :
        (around : Surroundings) (client : Option Text) (request : AutoEnrollRequest)
        (header : Option Text) (s : Server)
        → Step s
            (auto_enroll sha256 storable describe render settings around client request header s).1
    beats :
        (write_telemetry : Router → Payload → Bool → Written)
        (ip_readings router_readings : Readings) (now : ℕ) (client authorization : Option Text)
        (payload : Payload) (s : Server)
        → Step s
            (push_telemetry sha256 write_telemetry ip_readings router_readings now client
              authorization payload s).1
    fetches :
        (readings : Readings) (times : Times) (client : Option Text) (t : Text) (s : Server)
        → Step s (factory_installer sha256 render_installer settings readings times client t s).1
    issues :
        (created now : ℕ) (random : List ℕ) (label : Text) (ttl_hours : ℤ) (issued_by : Option Text)
        (minted : MintedFetchToken) (table : List AdminFetchToken) (s : Server)
        → issue_admin_fetch_token sha256 s.db.admin_fetch_tokens s.db.next_fetch_token created now
            random label ttl_hours issued_by
          ≡ ok (minted, table)
        → Step s (with_fetch_tokens s table (s.db.next_fetch_token + 1))
    revokes :
        (now : ℕ) (ident : Text) (s : Server)
        → Step s (set_fetch_tokens s (revoke_admin_fetch_token now ident s.db.admin_fetch_tokens).0)

  -- Any number of operations.
  pub data Reach : Server → Server → Type 0 where
    here : (s : Server) → Reach s s
    on : (s t u : Server) → Reach s t → Step t u → Reach s u

  module _ (write_telemetry : Router → Payload → Bool → Written)
      (ip_readings router_readings : Readings) (now : ℕ) (client authorization : Option Text)
      (payload : Payload) (s : Server) where
    abbrev pub beaten : Db
    beaten =
        (push_telemetry sha256 write_telemetry ip_readings router_readings now client authorization
          payload s).1.db

    abbrev replied : Response
    replied =
        (push_telemetry sha256 write_telemetry ip_readings router_readings now client authorization
          payload s).0

    -- A heartbeat leaves the tables, or dates one row of them.
    pub push_telemetry_tables :
        (beaten ≡ s.db)
        ⊎ ((id : ℕ) × (row : Router) × (get_router id s.db.routers ≡ some row)
            × (beaten ≡ record s.db {
              routers = put_router (record row { last_seen_at = some now }) s.db.routers;
            }))
    push_telemetry_tables = elim (Bool-cases (replied.status_code == 204)) [
      | inl e ↦
          let P =
            push_telemetry_passed sha256 write_telemetry ip_readings router_readings now client
              authorization payload s ((==_iff replied.status_code 204).0 e) in
          inr (P.token_row.router_id, P.row, P.has_router, P.db_after)
      | inr e ↦ inl (
          push_telemetry_rejected sha256 write_telemetry ip_readings router_readings now client
            authorization payload s (ground (arith, e)))
    ]

  -- A fetch leaves the rows that well-formedness is about.
  pub factory_installer_tables :
      (readings : Readings) (times : Times) (client : Option Text) (t : Text) (s : Server)
      → let after =
          (factory_installer sha256 render_installer settings readings times client t s).1.db in
        Same after s.db × (after.audit_log ≡ s.db.audit_log)
  unfolding factory_installer
  factory_installer_tables readings times client t s = ground arith

  -- The row that a heartbeat dates keeps its place beside the others.
  dated-WellFormed :
      (db : Db) (now id : ℕ) (row : Router)
      → WellFormed db
      → get_router id db.routers ≡ some row
      → WellFormed
          (record db { routers = put_router (record row { last_seen_at = some now }) db.routers })
  unfolding get_router
  dated-WellFormed db now id row w g =
      let (key, member) = first_sound (λ (r : Router). r.id == id) db.routers {x = row} g in
      let dated : Router = record row { last_seen_at = some now } in
      record {
        distinct = put_router-Distinct dated db.routers w.distinct (
            same_row row now db.routers
            ∙ Distinct-violates_unique row db.routers w.distinct member);
        below = All-put_router _ dated db.routers (All-In _ db.routers row w.below member) w.below;
        owned =
            All-map _ _ (λ (t : RouterToken) k. Known-put_router dated db.routers t.router_id k)
              db.router_tokens w.owned;
      }

  Step-WellFormed : {s t : Server} → Step s t → WellFormed s.db → WellFormed t.db
  Step-WellFormed (enrolls around client request header s) w =
      auto_enroll-WellFormed sha256 storable describe render settings around client request header s
        w
  Step-WellFormed (beats write i r now client authorization payload s) w =
      elim (push_telemetry_tables write i r now client authorization payload s) [
        | inl e ↦ rw e w
        | inr (id, row, g, e) ↦ rw e (dated-WellFormed s.db now id row w g)
      ]
  Step-WellFormed (fetches readings times client t s) w =
      Same-WellFormed (factory_installer_tables readings times client t s).0 w
  Step-WellFormed (issues created now random label ttl by minted table s h) w = record {
    distinct = w.distinct;
    below = w.below;
    owned = w.owned;
  }
  Step-WellFormed (revokes now ident s) w = record {
    distinct = w.distinct;
    below = w.below;
    owned = w.owned;
  }

  -- Every state that the operations reach from one with well-formed tables has well-formed tables:
  -- no two routers share a primary key, an identity, a serial number, a MAC address, a WireGuard key
  -- or an overlay address, each primary key is below the next, and each telemetry token belongs to a
  -- router of the table.
  pub Reach-WellFormed : {s t : Server} → Reach s t → WellFormed s.db → WellFormed t.db
  Reach-WellFormed (here s) w = w
  Reach-WellFormed (on s t u r step) w = Step-WellFormed step (Reach-WellFormed r w)
