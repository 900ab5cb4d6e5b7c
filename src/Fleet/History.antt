-- ===== src/Fleet/History.antt =====
-- What no operation undoes: revocations of telemetry tokens, and the audit log.
use mikrotik_cpe_cloud.Base.{
  ℕ, ◌≡◌, ◌≢◌, refl, sym, ap, ◌∙◌, inl, inr, Bool, ◌&&◌, List, [], ◌∷◌, ◌++◌, Option, none, some,
  arith, zero, suc, length, take, take-append, In, first, ◌==◌, Option-cases, is_none,
  if◌then◌else◌,
}
use mikrotik_cpe_cloud.Base.Text.{Text}
use mikrotik_cpe_cloud.Base.Result.{Exn, ok}
use mikrotik_cpe_cloud.Models.{Db, Router, RouterToken, AuditLog}
use mikrotik_cpe_cloud.Config.{Settings}
use mikrotik_cpe_cloud.Server.{Server}
use mikrotik_cpe_cloud.AutoEnroll.Request.{AutoEnrollRequest}
use mikrotik_cpe_cloud.AutoEnroll.Rows.{has_serial, revoke_router_tokens}
use mikrotik_cpe_cloud.AutoEnroll.Flush.{
  Surroundings, Provision, Flushed, flush_router, add_token, audit,
}
use mikrotik_cpe_cloud.AutoEnroll.{auto_enroll}
use mikrotik_cpe_cloud.AutoEnroll.Outcome.{answered}
use mikrotik_cpe_cloud.Factory.{Installer}
use mikrotik_cpe_cloud.Fleet.Kept.{new_parts, old_parts, auto_enroll_tables, In-append_left}
use mikrotik_cpe_cloud.Fleet.Reach.{
  Step, enrolls, beats, fetches, issues, revokes, Reach, here, on, push_telemetry_tables,
  factory_installer_tables,
}

take-length : {A : Type 0} (xs : List A) → take (length xs) xs ≡ xs
take-length [] = refl
take-length (x ∷ xs) = ap (λ t. x ∷ t) (take-length xs)

take-cut : {A : Type 0} (n : ℕ) (ys : List A) → (more : List A) × (ys ≡ take n ys ++ more)
take-cut zero ys = (ys, refl)
take-cut (suc n) [] = ([], refl)
take-cut (suc n) (y ∷ ys) = let (more, e) = take-cut n ys in (more, ap (λ t. y ∷ t) e)

append_nil : {A : Type 0} (xs : List A) → xs ++ [] ≡ xs
append_nil [] = refl
append_nil (x ∷ xs) = ap (λ t. x ∷ t) (append_nil xs)

append_assoc : {A : Type 0} (xs ys zs : List A) → (xs ++ ys) ++ zs ≡ xs ++ (ys ++ zs)
append_assoc [] ys zs = refl
append_assoc (x ∷ xs) ys zs = ap (λ t. x ∷ t) (append_assoc xs ys zs)

-- A revoked token is not touched by a revocation.
revoked_kept :
    (now id : ℕ) (ts : List RouterToken) (t : RouterToken)
    → t.revoked_at ≢ none
    → In t ts
    → In t (revoke_router_tokens now id ts)
unfolding revoke_router_tokens
revoked_kept now id [] t h m = absurd m
revoked_kept now id (q ∷ ts) t h (inr m) = inr (revoked_kept now id ts t h m)
revoked_kept now id (q ∷ ts) t h (inl e) =
    inl (e ∙ sym (untouched q (λ z. h (ap (λ (x : RouterToken). x.revoked_at) e ∙ z))))
  where
    untouched :
        (q : RouterToken)
        → q.revoked_at ≢ none
        → (if q.router_id == id && is_none q.revoked_at
            then record q { revoked_at = some now }
            else q)
          ≡ q
    untouched q n = ground (arith, n)

module _ (sha256 : Text → Text) (storable : Router → Bool) (describe : Exn → Text)
    (render : Provision → Text) (settings : Settings) (around : Surroundings) (client : Option Text)
    (payload : AutoEnrollRequest) (header : Option Text) (s : Server) where
  abbrev enrolled : Db
  enrolled = (answered sha256 storable describe render settings around client payload header s).1.db

  -- An enrollment keeps each revoked token.
  flushed_kept :
      (flushed : Flushed) (t : RouterToken)
      → flush_router storable settings around payload s.db ≡ ok flushed
      → t.revoked_at ≢ none
      → In t s.db.router_tokens
      → In t flushed.db.router_tokens
  flushed_kept flushed t h n m =
      elim (Option-cases (first (has_serial payload.serial) s.db.routers)) [
        | inl f ↦
            let (id, routers, tokens, next, apart) =
              new_parts storable settings around payload s.db flushed f h in
            rw tokens m
        | inr (existing, f) ↦
            let (id, routers, tokens, next, apart) =
              old_parts storable settings around payload s.db flushed existing f h in
            rw tokens (revoked_kept around.revoked existing.id s.db.router_tokens t n m)
      ]

  enrolled_kept :
      (t : RouterToken)
      → t.revoked_at ≢ none
      → In t s.db.router_tokens
      → In t enrolled.router_tokens
  unfolding add_token
  enrolled_kept t n m =
      elim (auto_enroll_tables sha256 storable describe render settings around client payload header
        s) [
          | inl same ↦ rw same.router_tokens m
          | inr (flushed, h, same) ↦
              rw same.router_tokens
                (In-append_left flushed.db.router_tokens _ t (flushed_kept flushed t h n m))
        ]

  enrolled_prefix : take (length s.db.audit_log) enrolled.audit_log ≡ s.db.audit_log
  unfolding auto_enroll audit add_token flush_router
  enrolled_prefix = grind (arith, take-length, take-append)

  -- An enrollment writes at the end of the audit log, or not at all.
  enrolled_log : (more : List AuditLog) × (enrolled.audit_log ≡ s.db.audit_log ++ more)
  enrolled_log =
      let (more, e) = take-cut (length s.db.audit_log) enrolled.audit_log in
      (more, e ∙ ap (λ z. z ++ more) enrolled_prefix)

module _ (Payload : Type 0) (sha256 : Text → Text) (storable : Router → Bool)
    (describe : Exn → Text) (render : Provision → Text) (render_installer : Installer → Text)
    (settings : Settings) where
  abbrev OneStep : Server → Server → Type 0
  OneStep = Step Payload sha256 storable describe render render_installer settings

  abbrev pub Run : Server → Server → Type 0
  Run = Reach Payload sha256 storable describe render render_installer settings

  step_kept :
      {s u : Server}
      → OneStep s u
      → (t : RouterToken) → t.revoked_at ≢ none
      → In t s.db.router_tokens
      → In t u.db.router_tokens
  step_kept (enrolls around client request header s) t n m =
      enrolled_kept sha256 storable describe render settings around client request header s t n m
  step_kept (beats write i r now client authorization payload s) t n m =
      elim (push_telemetry_tables Payload sha256 storable describe render render_installer settings
        write i r now client authorization payload s) [
          | inl e ↦ rw e m
          | inr (id, row, g, e) ↦ rw e m
        ]
  step_kept (fetches readings times client q s) t n m =
      rw
        (factory_installer_tables Payload sha256 storable describe render render_installer settings
          readings times client q s).0.router_tokens
        m
  step_kept (issues created now random label ttl by minted table s h) t n m = m
  step_kept (revokes now ident s) t n m = m

  -- A telemetry token that is revoked stays in the table, revoked at the same time, whatever
  -- operations follow.
  pub reach_revoked :
      {s u : Server}
      → Run s u
      → (t : RouterToken) → t.revoked_at ≢ none
      → In t s.db.router_tokens
      → In t u.db.router_tokens
  reach_revoked (here s) t n m = m
  reach_revoked (on s q u r step) t n m = step_kept step t n (reach_revoked r t n m)

  step_log :
      {s u : Server}
      → OneStep s u
      → (more : List AuditLog) × (u.db.audit_log ≡ s.db.audit_log ++ more)
  step_log (enrolls around client request header s) =
      enrolled_log sha256 storable describe render settings around client request header s
  step_log (beats write i r now client authorization payload s) =
      elim (push_telemetry_tables Payload sha256 storable describe render render_installer settings
        write i r now client authorization payload s) [
          | inl e ↦ ([], rw (e, append_nil) refl)
          | inr (id, row, g, e) ↦ ([], rw (e, append_nil) refl)
        ]
  step_log (fetches readings times client q s) = (
    [],
    rw
        (
          (factory_installer_tables Payload sha256 storable describe render render_installer
              settings readings times client q s).1,
          append_nil,
        )
        refl,
  )
  step_log (issues created now random label ttl by minted table s h) = ([], rw append_nil refl)
  step_log (revokes now ident s) = ([], rw append_nil refl)

  -- The audit log is only written at its end: after any operations, what was in it is in it, in
  -- order and unchanged, before what they have added.
  pub reach_log :
      {s u : Server} → Run s u → (more : List AuditLog) × (u.db.audit_log ≡ s.db.audit_log ++ more)
  reach_log (here s) = ([], rw append_nil refl)
  reach_log (on s q u r step) =
      let (first_part, e) = reach_log r in
      let (last_part, f) = step_log step in
      (
        first_part ++ last_part,
        f ∙ ap (λ z. z ++ last_part) e ∙ append_assoc s.db.audit_log first_part last_part,
      )
