-- ===== src/Telemetry.antt =====
-- app/routers/telemetry.py: the heartbeat endpoint. `Payload` is the validated heartbeat, and
-- `write_telemetry` the writer of app/services/influx.py, which may raise.
pub mod Payload
pub mod Validate
pub mod Dump
pub mod Sent
pub mod Series
pub mod Ranges
pub mod Checked
pub mod Bounds
pub mod Header
pub mod Push
pub mod Deliver
use mikrotik_cpe_cloud.Base.{
  ℕ, ◌+◌, Bool, true, false, not, ◌&&◌, ◌||◌, List, [], ◌∷◌, ◌++◌, Option, none, some, leb, ◌==◌,
  if◌then◌else◌, String,
}
use mikrotik_cpe_cloud.Base.Text.{Text, text_eq, codes, is_space, lstrip, strip, lower}
use mikrotik_cpe_cloud.Base.Decimal.{str}
use mikrotik_cpe_cloud.Base.Result.{Result, ok, err}
use mikrotik_cpe_cloud.Models.{
  Db, Router, RouterToken, Status, active, pending, decommissioned, quarantined,
}
use mikrotik_cpe_cloud.RateLimit.{check_rate_limit}
use mikrotik_cpe_cloud.Tokens.{find_valid_router_token}
use mikrotik_cpe_cloud.Influx.Write.{Written}
use mikrotik_cpe_cloud.Server.{Server, Response, Readings, host_or, get_router, put_router}

-- The first word of a text that begins with none of the spaces, and what follows it.
unfoldable pub span_word : Text → Text × Text
span_word [] = ([], [])
span_word (c ∷ s) =
    let (word, rest) = span_word s in if is_space c then ([], c ∷ s) else (c ∷ word, rest)

abbrev parts_of : Text → Text → List Text
parts_of word [] = word ∷ []
parts_of word (c ∷ rest) = word ∷ (c ∷ rest) ∷ []

abbrev split_stripped : Text → List Text
split_stripped [] = []
split_stripped (c ∷ s) = let (word, rest) = span_word (c ∷ s) in parts_of word (lstrip rest)

-- `s.split(None, 1)`
unfoldable pub split_once : Text → List Text
unfolding span_word lstrip
split_once s = split_stripped (lstrip s)

-- What `_extract_bearer` returns or raises.
pub data Bearer : Type 0 where
  missing malformed : Bearer
  token : Text → Bearer

abbrev credentials_of : Text → Bearer
credentials_of [] = malformed
credentials_of (c ∷ s) = token (c ∷ s)

abbrev bearer_of : List Text → Bearer
bearer_of (scheme ∷ credentials ∷ []) =
    if text_eq (lower scheme) (codes "bearer")
    then credentials_of (strip credentials)
    else malformed
bearer_of _ = malformed

-- `_extract_bearer`
unfoldable pub extract_bearer : Option Text → Bearer
unfolding split_once lower strip
extract_bearer none = missing
extract_bearer (some []) = missing
extract_bearer (some (c ∷ s)) = bearer_of (split_once (c ∷ s))

-- `router_row.status in ("decommissioned", "quarantined")`
abbrev pub is_barred : Status → Bool
is_barred active = false
is_barred pending = false
is_barred decommissioned = true
is_barred quarantined = true

-- The HTTPException with a status.
abbrev pub reject : ℕ → String → Response
reject status_code detail = record { status_code = status_code; body = codes detail }

-- The statuses' names, in the detail of the 403.
abbrev pub status_name : Status → Text
status_name active = codes "active"
status_name pending = codes "pending"
status_name decommissioned = codes "decommissioned"
status_name quarantined = codes "quarantined"

abbrev pub set_routers : Server → List Router → Server
set_routers s table = record s { db = record s.db { routers = table } }

module _ {Payload : Type 0} (sha256 : Text → Text)
    (write_telemetry : Router → Payload → Bool → Written) where
  -- `try: await write_telemetry(…) except Exception`, and the 204.
  abbrev pub finish : Router → Payload → Server → Response × Server
  finish row payload s =
      let written = write_telemetry row payload s.client in
      let s' = record s { client = written.client; delivered = s.delivered ++ written.batches } in
      elim written.result [
        | ok done ↦ (record { status_code = 204; body = [] }, s')
        | err e ↦ (record { status_code = 204; body = [] }, s')
      ]

  -- From the state gate on, for the row of the token's router.
  abbrev pub gate : ℕ → Payload → Option Router → Server → Response × Server
  gate now payload none s = (reject 401 "invalid or revoked telemetry token", s)
  gate now payload (some row) s =
      if is_barred row.status
      then (record { status_code = 403; body = codes "router is " ++ status_name row.status }, s)
      else let row' = record row { last_seen_at = some now } in
        finish row' payload (set_routers s (put_router row' s.db.routers))

  -- From the token lookup on.
  abbrev pub authenticated :
      Readings → ℕ → Payload → Option RouterToken → Server → Response × Server
  authenticated readings now payload none s = (reject 401 "invalid or revoked telemetry token", s)
  authenticated readings now payload (some token_row) s =
      let (granted, buckets) =
        check_rate_limit readings.created readings.now (codes "telemetry-router")
          (str token_row.router_id) s.buckets in
      let s' = record s { buckets = buckets } in
      if not granted
      then (reject 429 "rate limit exceeded", s')
      else gate now payload (get_router token_row.router_id s'.db.routers) s'

  -- `push_telemetry`: the readings of the two rate-limit checks, the UTC time of the update, the
  -- client's address and the header.
  unfoldable pub push_telemetry :
      Readings → Readings → ℕ → Option Text → Option Text → Payload → Server → Response × Server
  push_telemetry ip_readings router_readings now client authorization payload s =
      let source_ip = host_or (codes "unknown") client in
      elim (extract_bearer authorization) [
        | missing ↦ (reject 401 "missing Authorization header", s)
        | malformed ↦ (reject 401 "malformed Authorization header, expected 'Bearer <token>'", s)
        | token raw ↦
            let (granted, buckets) =
              check_rate_limit ip_readings.created ip_readings.now (codes "telemetry-ip") source_ip
                s.buckets in
            let s' = record s { buckets = buckets } in
            if not granted
            then (reject 429 "rate limit exceeded", s')
            else authenticated router_readings now payload
                (find_valid_router_token sha256 s'.db.router_tokens raw) s'
      ]
