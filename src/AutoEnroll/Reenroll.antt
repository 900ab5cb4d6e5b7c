-- ===== src/AutoEnroll/Reenroll.antt =====
-- A router that enrolls again.
use mikrotik_cpe_cloud.Base.{
  ℕ, ◌≡◌, refl, ap, ◌⊎◌, inl, inr, Bool, List, [], ◌∷◌, Option, none, some, arith, In, All,
  All-append, first, first_sound,
}
use mikrotik_cpe_cloud.Base.Text.{Text, text_eq_iff}
use mikrotik_cpe_cloud.Base.Result.{Exn, ok}
use mikrotik_cpe_cloud.Models.{Db, Router, RouterToken}
use mikrotik_cpe_cloud.Config.{Settings}
use mikrotik_cpe_cloud.Server.{Server, Response, get_router, put_router}
use mikrotik_cpe_cloud.AutoEnroll.Request.{AutoEnrollRequest}
use mikrotik_cpe_cloud.AutoEnroll.Rows.{renewed, revoke_router_tokens, has_serial}
use mikrotik_cpe_cloud.AutoEnroll.Flush.{Surroundings, Provision, Flushed, flush_router, add_token}
use mikrotik_cpe_cloud.AutoEnroll.Outcome.{answered, raw_token, auto_enroll_enrolled}

pub get_router-put_router :
    (row : Router) (rs : List Router) (r : Router)
    → In r rs
    → r.id ≡ row.id
    → get_router row.id (put_router row rs) ≡ some row
unfolding get_router put_router
get_router-put_router row [] r m e = absurd m
get_router-put_router row (q ∷ rs) r (inl x) e = ground (arith, ap (λ (z : Router). z.id) x)
get_router-put_router row (q ∷ rs) r (inr m) e = ground (arith, get_router-put_router row rs r m e)

-- The tokens of a router that are active after the revocation: none.
revoke_router_tokens-All :
    (now id : ℕ) (ts : List RouterToken)
    → All (λ t. ¬ ((t.router_id ≡ id) × (t.revoked_at ≡ none))) (revoke_router_tokens now id ts)
unfolding revoke_router_tokens
revoke_router_tokens-All now id [] = tt
revoke_router_tokens-All now id (t ∷ ts) = (ground arith, revoke_router_tokens-All now id ts)

flush_router_existing :
    (storable : Router → Bool) (settings : Settings) (around : Surroundings)
    (payload : AutoEnrollRequest) (db : Db) (existing : Router) (flushed : Flushed)
    → first (has_serial payload.serial) db.routers ≡ some existing
    → flush_router storable settings around payload db ≡ ok flushed
    → (flushed.row ≡ renewed around.enrolled payload existing)
      × (flushed.db.routers ≡ put_router (renewed around.enrolled payload existing) db.routers)
      × (flushed.db.router_tokens
          ≡ revoke_router_tokens around.revoked existing.id db.router_tokens)
unfolding flush_router
flush_router_existing storable settings around payload db existing flushed f h = ground arith

-- A token that is active for the router is the one that was just minted.
abbrev pub IsNewest : (Text → Text) → Text → ℕ → RouterToken → Type 0
IsNewest sha256 raw id t =
    ¬ ((t.router_id ≡ id) × (t.revoked_at ≡ none)) ⊎ (t.token_hash ≡ sha256 raw)

All-IsNewest :
    (sha256 : Text → Text) (raw : Text) (id : ℕ) (ts : List RouterToken)
    → All (λ t. ¬ ((t.router_id ≡ id) × (t.revoked_at ≡ none))) ts
    → All (IsNewest sha256 raw id) ts
All-IsNewest sha256 raw id [] h = tt
All-IsNewest sha256 raw id (t ∷ ts) (h, hs) = (inl h, All-IsNewest sha256 raw id ts hs)

module _ (sha256 : Text → Text) (storable : Router → Bool) (describe : Exn → Text)
    (render : Provision → Text) (settings : Settings) (around : Surroundings) (client : Option Text)
    (payload : AutoEnrollRequest) (header : Option Text) (s : Server) where
  abbrev pub answer : Response × Server
  answer = answered sha256 storable describe render settings around client payload header s

  IsNewest-add_token :
      (raw : Text) (flushed : Flushed) (id : ℕ)
      → flushed.row.id ≡ id
      → flushed.db.router_tokens ≡ revoke_router_tokens around.revoked id s.db.router_tokens
      → All
          (IsNewest sha256 raw id)
          (add_token sha256 around raw flushed.row.id flushed.db).router_tokens
  unfolding add_token
  IsNewest-add_token raw flushed id e t =
      All-append (IsNewest sha256 raw id) flushed.db.router_tokens _
        (rw t (
          All-IsNewest sha256 raw id _
            (revoke_router_tokens-All around.revoked id s.db.router_tokens)))
        (inr refl, tt)

  -- When a serial number that is in the table is enrolled again, with answer 200, its row keeps its
  -- primary key, its serial number, its overlay address and its status and takes the new key; and
  -- each of its telemetry tokens is revoked, but for those with the hash of the token just minted.
  pub auto_enroll_reenrolled :
      (existing : Router)
      → first (has_serial payload.serial) s.db.routers ≡ some existing
      → answer.0.status_code ≡ 200
      → (row : Router) × (get_router existing.id answer.1.db.routers ≡ some row)
        × (row.serial_number ≡ payload.serial)
        × (row.wg_overlay_ip ≡ existing.wg_overlay_ip)
        × (row.status ≡ existing.status)
        × (row.wg_public_key ≡ some payload.router_public_key)
        × All (IsNewest sha256 (raw_token around) existing.id) answer.1.db.router_tokens
  unfolding renewed
  auto_enroll_reenrolled existing f h =
      let E =
        auto_enroll_enrolled sha256 storable describe render settings around client payload header s
          h in
      let (row, routers, tokens) =
        flush_router_existing storable settings around payload s.db existing E.flushed f
          E.has_row in
      let (serial, member) =
        first_sound (has_serial payload.serial) s.db.routers {x = existing} f in
      let found =
        get_router-put_router (renewed around.enrolled payload existing) s.db.routers existing
          member refl in
      (
        renewed around.enrolled payload existing,
        rw (E.routers_after, routers) found,
        (text_eq_iff existing.serial_number payload.serial).0 serial,
        refl,
        refl,
        refl,
        rw E.tokens_after
            (IsNewest-add_token _ E.flushed existing.id (ap (λ (r : Router). r.id) row) tokens),
      )
