-- ===== src/Telemetry/Push.antt =====
-- `push_telemetry`: who is let in, what is written, and that the telemetry writer has no say.
use mikrotik_cpe_cloud.Base.{
  Bool, ℕ, ◌≡◌, ◌≢◌, ◌⊎◌, inl, inr, ◌++◌, false, Option, some, arith, In, ◌==◌, ==_iff, Bool-cases,
}
use mikrotik_cpe_cloud.Base.Text.{Text}
use mikrotik_cpe_cloud.Models.{Router, RouterToken, Status, decommissioned, quarantined}
use mikrotik_cpe_cloud.Tokens.{find_valid_router_token}
use mikrotik_cpe_cloud.Tokens.Lookup.{IsValidRouter, find_valid_router_token_lem, FindsRouter}
use mikrotik_cpe_cloud.Influx.Write.{Written}
use mikrotik_cpe_cloud.Server.{Server, Response, Readings, get_router, put_router}
use mikrotik_cpe_cloud.Telemetry.{token, extract_bearer, is_barred, push_telemetry}

not_barred_status :
    (status : Status)
    → is_barred status ≡ false
    → (status ≢ decommissioned) × (status ≢ quarantined)
not_barred_status status h = ground arith

module _ {Payload : Type 0} (sha256 : Text → Text)
    (write_telemetry : Router → Payload → Bool → Written) (ip_readings router_readings : Readings)
    (now : ℕ) (client authorization : Option Text) (payload : Payload) (s : Server) where
  abbrev pub pushed : Response × Server
  pushed =
      push_telemetry sha256 write_telemetry ip_readings router_readings now client authorization
        payload s

  -- The rows that a heartbeat has gone through when it is answered with 204.
  pub record Passed : Type 0 where
    pub raw : Text
    pub token_row : RouterToken
    pub row : Router
    pub has_bearer : extract_bearer authorization ≡ token raw
    pub is_valid : IsValidRouter sha256 raw token_row
    pub is_stored : In token_row s.db.router_tokens
    pub has_router : get_router token_row.router_id s.db.routers ≡ some row
    pub not_barred : (row.status ≢ decommissioned) × (row.status ≢ quarantined)
    pub db_after :
        pushed.1.db
        ≡ record s.db { routers = put_router (record row { last_seen_at = some now }) s.db.routers }
    pub delivered_after :
        pushed.1.delivered
        ≡ s.delivered
          ++ (write_telemetry (record row { last_seen_at = some now }) payload s.client).batches

  -- A heartbeat that is not answered with 204 changes no table.
  pub push_telemetry_rejected : pushed.0.status_code ≢ 204 → pushed.1.db ≡ s.db
  unfolding push_telemetry
  push_telemetry_rejected h = ground arith

  -- Nor does it deliver a batch.
  pub rejected_delivered : pushed.0.status_code ≢ 204 → pushed.1.delivered ≡ s.delivered
  unfolding push_telemetry
  rejected_delivered h = ground arith

  passed_parts :
      pushed.0.status_code ≡ 204
      → (raw : Text) × (token_row : RouterToken) × (row : Router) × (extract_bearer authorization
          ≡ token raw)
        × (find_valid_router_token sha256 s.db.router_tokens raw ≡ some token_row)
        × (get_router token_row.router_id s.db.routers ≡ some row)
        × (is_barred row.status ≡ false)
        × (pushed.1.db ≡ record s.db {
          routers = put_router (record row { last_seen_at = some now }) s.db.routers;
        })
        × (pushed.1.delivered
            ≡ s.delivered
              ++ (write_telemetry
                  (record row { last_seen_at = some now })
                  payload
                  s.client).batches)
  unfolding push_telemetry
  passed_parts h = ground arith

  -- A heartbeat that is answered with 204 carries, as its bearer token, the raw form of a telemetry
  -- token of the table that is valid, for a router of the table that is neither decommissioned nor
  -- quarantined; and all that it changes in the tables is that router's `last_seen_at`, to the
  -- present. The batches that the writer delivers for that router are added to the delivered ones.
  pub push_telemetry_passed : pushed.0.status_code ≡ 204 → Passed
  push_telemetry_passed h =
      let (raw, token_row, row, bearer, found, stored, open_gate, after, sent) = passed_parts h in
      let (valid, member) : FindsRouter sha256 s.db.router_tokens raw (some token_row) =
        rw found at (find_valid_router_token_lem sha256 s.db.router_tokens raw) in
      record {
        raw = raw;
        token_row = token_row;
        row = row;
        has_bearer = bearer;
        is_valid = valid;
        is_stored = member;
        has_router = stored;
        not_barred = not_barred_status row.status open_gate;
        db_after = after;
        delivered_after = sent;
      }

  -- The delivered batches are those from before, or with those of one call of the writer.
  pub pushed_delivered :
      (pushed.1.delivered ≡ s.delivered)
      ⊎ ((row : Router) × (pushed.1.delivered
            ≡ s.delivered ++ (write_telemetry row payload s.client).batches))
  pushed_delivered = elim (Bool-cases (pushed.0.status_code == 204)) [
    | inl e ↦
        let P = push_telemetry_passed ((==_iff pushed.0.status_code 204).0 e) in
        inr (record P.row { last_seen_at = some now }, P.delivered_after)
    | inr e ↦ inl (rejected_delivered (ground (arith, e)))
  ]

-- What the telemetry writer does, an exception included, changes neither the response nor the tables,
-- the buckets and the directory.
pub push_telemetry_writer :
    {Payload : Type 0} (sha256 : Text → Text)
    (write_telemetry write_telemetry' : Router → Payload → Bool → Written)
    (ip_readings router_readings : Readings) (now : ℕ) (client authorization : Option Text)
    (payload : Payload) (s : Server)
    → let (reply, after) =
        push_telemetry sha256 write_telemetry ip_readings router_readings now client authorization
          payload s in
      let (reply', after') =
        push_telemetry sha256 write_telemetry' ip_readings router_readings now client authorization
          payload s in
      (reply ≡ reply')
      × (after.db ≡ after'.db)
      × (after.buckets ≡ after'.buckets)
      × (after.dir ≡ after'.dir)
unfolding push_telemetry
push_telemetry_writer sha256 w w' i r now client authorization payload s = ground arith
