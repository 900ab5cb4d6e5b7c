-- ===== src/Fleet/Session.antt =====
-- From an enrollment to the first heartbeat of the router.
use mikrotik_cpe_cloud.Base.{
  ℕ, ◌≤◌, ◌≡◌, ◌≢◌, refl, sym, ap, ◌∙◌, inl, inr, Bool, true, false, List, [], ◌++◌, Option, none,
  some, arith, All, All-In, All-map, first, first_sound, length, Option-cases, if◌then◌else◌,
}
use mikrotik_cpe_cloud.Base.Text.{Text, codes, text_eq_iff}
use mikrotik_cpe_cloud.Base.Result.{Exn, ok}
use mikrotik_cpe_cloud.Models.{Db, Router, RouterToken, active, pending}
use mikrotik_cpe_cloud.Config.{Settings}
use mikrotik_cpe_cloud.Tokens.{find_valid_router_token}
use mikrotik_cpe_cloud.Tokens.Mint.{length-mint, mint_telemetry_token-HasNoSpace}
use mikrotik_cpe_cloud.Influx.Write.{Written}
use mikrotik_cpe_cloud.Server.{Server, Response, Readings, get_router, put_router}
use mikrotik_cpe_cloud.AutoEnroll.Request.{AutoEnrollRequest}
use mikrotik_cpe_cloud.AutoEnroll.Rows.{has_serial, new_router, renewed}
use mikrotik_cpe_cloud.AutoEnroll.Identity.{initial_status_for, matches, identity_pattern}
use mikrotik_cpe_cloud.AutoEnroll.Flush.{Surroundings, Provision, Flushed, flush_router}
use mikrotik_cpe_cloud.AutoEnroll.Outcome.{answered, raw_token, auto_enroll_enrolled}
use mikrotik_cpe_cloud.AutoEnroll.Reenroll.{get_router-put_router}
use mikrotik_cpe_cloud.Telemetry.{token, extract_bearer, is_barred, push_telemetry}
use mikrotik_cpe_cloud.Telemetry.Header.{extract_bearer_lem}
use mikrotik_cpe_cloud.Fleet.Kept.{WellFormed, new_parts, old_parts}
use mikrotik_cpe_cloud.Fleet.Minted.{
  Fresh, Fresh-revoke, get_router-append, find_valid_router_token-add_token,
}

-- No router with this serial number is decommissioned or quarantined.
abbrev pub Welcome : Text → List Router → Type 0
Welcome serial routers = All (λ r. has_serial serial r ≡ true → is_barred r.status ≡ false) routers

initial_status_for-open : (identity : Text) → is_barred (initial_status_for identity) ≡ false
unfolding initial_status_for
initial_status_for-open identity = either (matches identity_pattern identity)
  where
    either : (b : Bool) → is_barred (if b then active else pending) ≡ false
    either true = refl
    either false = refl

module _ (storable : Router → Bool) (settings : Settings) (around : Surroundings)
    (payload : AutoEnrollRequest) where
  -- What the first heartbeat meets in the tables.
  record Ready (sha256 : Text → Text) (raw : Text) (flushed : Flushed) : Type 0 where
    found : get_router flushed.row.id flushed.db.routers ≡ some flushed.row
    serial : flushed.row.serial_number ≡ payload.serial
    fresh : Fresh sha256 raw flushed.db.router_tokens
    open_gate : is_barred flushed.row.status ≡ false

  new_row :
      (db : Db) (flushed : Flushed)
      → first (has_serial payload.serial) db.routers ≡ none
      → flush_router storable settings around payload db ≡ ok flushed
      → (flushed.row.serial_number ≡ payload.serial)
        × (flushed.row.status ≡ initial_status_for payload.identity)
  unfolding flush_router new_router
  new_row db flushed f h = ground arith

  old_row :
      (db : Db) (flushed : Flushed) (existing : Router)
      → first (has_serial payload.serial) db.routers ≡ some existing
      → flush_router storable settings around payload db ≡ ok flushed
      → (flushed.row.serial_number ≡ existing.serial_number)
        × (flushed.row.status ≡ existing.status)
  unfolding flush_router renewed
  old_row db flushed existing f h = ground arith

  flush_router-Ready :
      (sha256 : Text → Text) (raw : Text) (db : Db) (flushed : Flushed)
      → WellFormed db
      → Fresh sha256 raw db.router_tokens
      → Welcome payload.serial db.routers
      → flush_router storable settings around payload db ≡ ok flushed
      → Ready sha256 raw flushed
  flush_router-Ready sha256 raw db flushed w fresh welcome h =
      elim (Option-cases (first (has_serial payload.serial) db.routers)) [
        | inl f ↦
            let (id, routers, tokens, next, apart) =
              new_parts storable settings around payload db flushed f h in
            let (serial, status) = new_row db flushed f h in
            record {
              found = rw routers (
                  get_router-append flushed.row db.routers
                    (All-map _ _ (λ (r : Router) b. ground (arith, b, id)) db.routers w.below));
              serial = serial;
              fresh = rw tokens fresh;
              open_gate = ap is_barred status ∙ initial_status_for-open payload.identity;
            }
        | inr (existing, f) ↦
            let (id, routers, tokens, next, apart) =
              old_parts storable settings around payload db flushed existing f h in
            let (serial, status) = old_row db flushed existing f h in
            let (has, member) =
              first_sound (has_serial payload.serial) db.routers {x = existing} f in
            record {
              found =
                  rw routers
                    (get_router-put_router flushed.row db.routers existing member (sym id));
              serial = serial ∙ (text_eq_iff existing.serial_number payload.serial).0 has;
              fresh =
                  rw tokens
                    (Fresh-revoke sha256 raw around.revoked existing.id db.router_tokens fresh);
              open_gate = ap is_barred status ∙ All-In _ db.routers existing welcome member has;
            }
      ]

-- A heartbeat with what it needs, if no limit is met.
push_telemetry-granted :
    {Payload : Type 0} (sha256 : Text → Text) (write_telemetry : Router → Payload → Bool → Written)
    (ip_readings router_readings : Readings) (now : ℕ) (client authorization : Option Text)
    (payload : Payload) (s : Server) (raw : Text) (t : RouterToken) (row : Router)
    → extract_bearer authorization ≡ token raw
    → find_valid_router_token sha256 s.db.router_tokens raw ≡ some t
    → get_router t.router_id s.db.routers ≡ some row
    → is_barred row.status ≡ false
    → let (reply, s') =
        push_telemetry sha256 write_telemetry ip_readings router_readings now client authorization
          payload s in
      reply.status_code ≢ 429
      → (reply.status_code ≡ 204)
        × (s'.db ≡ record s.db {
          routers = put_router (record row { last_seen_at = some now }) s.db.routers;
        })
unfolding push_telemetry
push_telemetry-granted sha256 w i r now client authorization payload s raw t row a b c d h =
    ground arith

module _ (sha256 : Text → Text) (storable : Router → Bool) (describe : Exn → Text)
    (render : Provision → Text) (settings : Settings) (around : Surroundings) (client : Option Text)
    (payload : AutoEnrollRequest) (header : Option Text) (s : Server) where
  abbrev enrollment : Response × Server
  enrollment = answered sha256 storable describe render settings around client payload header s

  -- From well-formed tables, after an enrollment that was answered with 200, with a telemetry token
  -- of 48 random bytes whose hash no token had and for a serial number that is not barred, a
  -- heartbeat with that token as its bearer token is answered with 204, unless it is answered with
  -- 429, and it dates the row of a router with that serial number.
  pub heartbeat_after_enrollment :
      {Beat : Type 0} (write_telemetry : Router → Beat → Bool → Written)
      (ip_readings router_readings : Readings) (now : ℕ) (peer : Option Text) (beat : Beat)
      → WellFormed s.db
      → Fresh sha256 (raw_token around) s.db.router_tokens
      → Welcome payload.serial s.db.routers
      → 48 ≤ length around.random
      → enrollment.0.status_code ≡ 200
      → let (reply, s') =
          push_telemetry sha256 write_telemetry ip_readings router_readings now peer
            (some (codes "Bearer " ++ raw_token around))
            beat
            enrollment.1 in
        reply.status_code ≢ 429
        → (reply.status_code ≡ 204)
          × ((row : Router) × (row.serial_number ≡ payload.serial)
              × (s'.db.routers
                  ≡ put_router (record row { last_seen_at = some now }) enrollment.1.db.routers))
  heartbeat_after_enrollment write_telemetry i r now peer beat w fresh welcome long h limit =
      let E =
        auto_enroll_enrolled sha256 storable describe render settings around client payload header s
          h in
      let R =
        flush_router-Ready storable settings around payload sha256 (raw_token around) s.db E.flushed
          w fresh welcome E.has_row in
      let size : length (raw_token around) ≡ 64 = (length-mint around.random long).1 in
      let (t, found, owner) =
        find_valid_router_token-add_token sha256 around (raw_token around) E.flushed.row.id
          E.flushed.db R.fresh (omega (arith, size)) in
      let (done, after) =
        push_telemetry-granted sha256 write_telemetry i r now peer
          (some (codes "Bearer " ++ raw_token around)) beat enrollment.1 (raw_token around) t
          E.flushed.row
          (extract_bearer_lem (raw_token around) (not_empty (raw_token around) size)
            (mint_telemetry_token-HasNoSpace around.random))
          (rw E.tokens_after found) (rw (owner, E.routers_after) R.found) R.open_gate limit in
      (done, (E.flushed.row, R.serial, ap (λ (d : Db). d.routers) after))
    where
      not_empty : (x : Text) → length x ≡ 64 → x ≢ []
      not_empty x e n = absurd (ground (arith, e, n))
