-- ===== src/App/Authority.antt =====
-- Which requests to the application of app/main.py change anything: the secret of app/config.py, and
-- the tokens of the tables.
use mikrotik_cpe_cloud.Base.{
  ℕ, ◌≡◌, ◌≢◌, refl, ◌⊎◌, inl, inr, Bool, [], ◌∷◌, Option, none, some, arith, In, ◌==◌, ==_iff,
  Bool-cases,
}
use mikrotik_cpe_cloud.Base.Text.{Text}
use mikrotik_cpe_cloud.Base.Int.{ℤ}
use mikrotik_cpe_cloud.Base.Result.{Exn, Result, ok, err}
use mikrotik_cpe_cloud.Models.{Router, RouterToken, AdminFetchToken}
use mikrotik_cpe_cloud.Config.{Settings}
use mikrotik_cpe_cloud.Tokens.Lookup.{IsValidRouter, IsValidAdmin}
use mikrotik_cpe_cloud.Influx.Value.{Real, Value}
use mikrotik_cpe_cloud.Influx.Write.{Written}
use mikrotik_cpe_cloud.Server.{Server, Response, Readings}
use mikrotik_cpe_cloud.AutoEnroll.Secret.{
  Slot, current, previous, verify_provisioning_secret, Opens, verify_provisioning_secret_lem,
}
use mikrotik_cpe_cloud.AutoEnroll.Request.{AutoEnrollRequest}
use mikrotik_cpe_cloud.AutoEnroll.Flush.{Surroundings, Provision, audit}
use mikrotik_cpe_cloud.AutoEnroll.{auto_enroll}
use mikrotik_cpe_cloud.Factory.{Installer, Times, factory_installer}
use mikrotik_cpe_cloud.Factory.Serve.{served, factory_installer_served, factory_installer_rejected}
use mikrotik_cpe_cloud.Telemetry.{token, extract_bearer, push_telemetry}
use mikrotik_cpe_cloud.Telemetry.Payload.{Coercions, TelemetryHeartbeat}
use mikrotik_cpe_cloud.Telemetry.Validate.{validate_heartbeat}
use mikrotik_cpe_cloud.Telemetry.Push.{
  pushed, push_telemetry_passed, push_telemetry_rejected, rejected_delivered,
}
use mikrotik_cpe_cloud.Telemetry.Deliver.{write_heartbeat, answer, telemetry_endpoint}
use mikrotik_cpe_cloud.App.{
  Call, healthz_call, readyz_call, enroll_call, factory_call, auto_enroll_call, telemetry_call,
  handle,
}

-- The routers, the tokens of both kinds, the directory of wg0.conf and the delivered batches are as
-- they were; the buckets may have changed, and the audit log.
abbrev pub Unchanged : Server → Server → Type 0
Unchanged s t =
    (t.db.routers ≡ s.db.routers)
    × (t.db.router_tokens ≡ s.db.router_tokens)
    × (t.db.admin_fetch_tokens ≡ s.db.admin_fetch_tokens)
    × (t.dir ≡ s.dir)
    × (t.delivered ≡ s.delivered)

-- The header has a secret that has the hash of one of the two that are set.
abbrev pub OpensSlot : (Text → Text) → Settings → Option Text → Type 0
OpensSlot sha256 settings header =
    (secret : Text) × (header ≡ some secret)
    × (Opens sha256 secret settings.provisioning_secret_current
        ⊎ Opens sha256 secret settings.provisioning_secret_previous)

module _ (sha256 : Text → Text) (settings : Settings) where
  opened :
      (secret : Text) (slot : Slot)
      → verify_provisioning_secret sha256 secret settings ≡ some slot
      → OpensSlot sha256 settings (some secret)
  opened secret current h =
      (secret, refl, inl ((verify_provisioning_secret_lem sha256 secret settings).0.0 h))
  opened secret previous h =
      (secret, refl, inr ((verify_provisioning_secret_lem sha256 secret settings).1.0 h).0)

  module _ (storable : Router → Bool) (describe : Exn → Text) (render : Provision → Text)
      (around : Surroundings) (client : Option Text) (payload : AutoEnrollRequest)
      (s : Server) where
    abbrev after : Option Text → Server
    after header =
        (auto_enroll sha256 storable describe render settings around client payload header s).1

    no_header : Unchanged s (after none)
    unfolding auto_enroll audit
    no_header = ground arith

    empty_header : Unchanged s (after (some []))
    unfolding auto_enroll audit
    empty_header = ground arith

    bad_secret :
        (c : ℕ) (secret : Text)
        → verify_provisioning_secret sha256 (c ∷ secret) settings ≡ none
        → Unchanged s (after (some (c ∷ secret)))
    unfolding auto_enroll audit
    bad_secret c secret h = ground arith

    enroll_authority :
        (header : Option Text) → Unchanged s (after header) ⊎ OpensSlot sha256 settings header
    enroll_authority none = inl no_header
    enroll_authority (some []) = inl empty_header
    enroll_authority (some (c ∷ secret)) =
        go (verify_provisioning_secret sha256 (c ∷ secret) settings) refl
      where
        go :
            (o : Option Slot)
            → verify_provisioning_secret sha256 (c ∷ secret) settings ≡ o
            → Unchanged s (after (some (c ∷ secret)))
              ⊎ OpensSlot sha256 settings (some (c ∷ secret))
        go none e = inl (bad_secret c secret e)
        go (some slot) e = inr (opened (c ∷ secret) slot e)

  module _ (render_installer : Installer → Text) (readings : Readings) (times : Times)
      (client : Option Text) (t : Text) (s : Server) where
    abbrev fetched : Response × Server
    fetched = served sha256 render_installer settings readings times client t s

    fetch_rest : (fetched.1.dir ≡ s.dir) × (fetched.1.delivered ≡ s.delivered)
    unfolding factory_installer
    fetch_rest = ground arith

    factory_authority :
        Unchanged s fetched.1
        ⊎ ((row : AdminFetchToken) × IsValidAdmin sha256 times.looked_up t row
            × In row s.db.admin_fetch_tokens)
    factory_authority = elim (Bool-cases (fetched.0.status_code == 200)) [
      | inl e ↦
          let S =
            factory_installer_served sha256 render_installer settings readings times client t s
              ((==_iff fetched.0.status_code 200).0 e) in
          inr (S.row, S.is_valid, S.is_stored)
      | inr e ↦
          let same =
            factory_installer_rejected sha256 render_installer settings readings times client t s
              (ground (arith, e)) in
          inl (rw same refl, rw same refl, rw same refl, fetch_rest.0, fetch_rest.1)
    ]

module _ {Payload : Type 0} (sha256 : Text → Text)
    (write_telemetry : Router → Payload → Bool → Written) (i r : Readings) (now : ℕ)
    (client authorization : Option Text) (payload : Payload) (s : Server) where
  abbrev beaten : Response × Server
  beaten = pushed sha256 write_telemetry i r now client authorization payload s

  beat_dir : beaten.1.dir ≡ s.dir
  unfolding push_telemetry
  beat_dir = ground arith

  beat_authority :
      Unchanged s beaten.1
      ⊎ ((raw : Text) × (row : RouterToken) × (extract_bearer authorization ≡ token raw)
          × IsValidRouter sha256 raw row
          × In row s.db.router_tokens)
  beat_authority = elim (Bool-cases (beaten.0.status_code == 204)) [
    | inl e ↦
        let P =
          push_telemetry_passed sha256 write_telemetry i r now client authorization payload s
            ((==_iff beaten.0.status_code 204).0 e) in
        inr (P.raw, P.token_row, P.has_bearer, P.is_valid, P.is_stored)
    | inr e ↦
        let rejected : beaten.0.status_code ≢ 204 = ground (arith, e) in
        let same =
          push_telemetry_rejected sha256 write_telemetry i r now client authorization payload s
            rejected in
        inl (
          rw same refl,
          rw same refl,
          rw same refl,
          beat_dir,
          rejected_delivered sha256 write_telemetry i r now client authorization payload s rejected,
        )
  ]

-- What the request shows: an enrollment a secret that is set, a fetch a valid fetch token, and a
-- heartbeat a valid telemetry token.
abbrev pub Authorised : (Text → Text) → Settings → Server → Call → Type 0
Authorised sha256 settings s (auto_enroll_call around client payload header) =
    OpensSlot sha256 settings header
Authorised sha256 settings s (factory_call readings times client t) =
    (row : AdminFetchToken) × IsValidAdmin sha256 times.looked_up t row
    × In row s.db.admin_fetch_tokens
Authorised sha256 settings s (telemetry_call i r now client authorization body connect write ts) =
    (raw : Text) × (row : RouterToken) × (extract_bearer authorization ≡ token raw)
    × IsValidRouter sha256 raw row
    × In row s.db.router_tokens
Authorised sha256 settings s _ = ⊥

module _ (sha256 : Text → Text) (co : Coercions) (truncate : Real → ℤ) (read : Text → Option Real)
    (show_value : Value → Text) (storable : Router → Bool) (describe : Exn → Text)
    (render : Provision → Text) (render_installer : Installer → Text) (settings : Settings) where
  -- A request leaves the routers, the tokens, the directory of wg0.conf and the delivered batches as
  -- they are, or it shows a secret that is set, a fetch token that is valid when it is looked up, or a
  -- valid telemetry token, as its route asks for.
  pub handle-Authorised :
      (call : Call) (s : Server)
      → Unchanged s
          (handle sha256 co truncate read show_value storable describe render render_installer
            settings call s).1
        ⊎ Authorised sha256 settings s call
  unfolding handle telemetry_endpoint
  handle-Authorised healthz_call s = inl (refl, refl, refl, refl, refl)
  handle-Authorised readyz_call s = inl (refl, refl, refl, refl, refl)
  handle-Authorised enroll_call s = inl (refl, refl, refl, refl, refl)
  handle-Authorised (factory_call readings times client t) s =
      factory_authority sha256 settings render_installer readings times client t s
  handle-Authorised (auto_enroll_call around client payload header) s =
      enroll_authority sha256 settings storable describe render around client payload s header
  handle-Authorised (telemetry_call i r now client authorization body connect write ts) s =
      go (validate_heartbeat co body)
    where
      go :
          (v : Result TelemetryHeartbeat)
          → Unchanged s
              (answer sha256 co truncate read show_value connect write settings ts i r now client
                authorization s v).1
            ⊎ Authorised sha256 settings s
                (telemetry_call i r now client authorization body connect write ts)
      go (err e) = inl (refl, refl, refl, refl, refl)
      go (ok hb) =
          beat_authority sha256
            (write_heartbeat sha256 co truncate read show_value connect write settings ts) i r now
            client authorization hb s
