-- ===== src/Fleet/Kept.antt =====
-- The tables `routers` and `router_tokens` as a well-formed pair, through the writes of an enrollment.
use mikrotik_cpe_cloud.Base.{
  ℕ, ◌+◌, ◌<◌, ◌≡◌, refl, sym, ap, ◌∙◌, ◌⊎◌, inl, inr, Bool, true, false, ◌&&◌, List, [], ◌∷◌, ◌++◌,
  Option, none, some, arith, In, All, All-In, All-append, All-map, first, first_sound, ◌==◌, ==_iff,
  Bool-cases, Option-cases, is_none, if◌then◌else◌,
}
use mikrotik_cpe_cloud.Base.Text.{Text}
use mikrotik_cpe_cloud.Base.Result.{Exn, ok}
use mikrotik_cpe_cloud.Models.{Db, Router, RouterToken}
use mikrotik_cpe_cloud.Config.{Settings}
use mikrotik_cpe_cloud.Server.{Server, put_router}
use mikrotik_cpe_cloud.AutoEnroll.Request.{AutoEnrollRequest}
use mikrotik_cpe_cloud.AutoEnroll.Rows.{
  violates_unique, revoke_router_tokens, has_serial, renewed, new_router,
}
use mikrotik_cpe_cloud.AutoEnroll.Flush.{
  Surroundings, Provision, Flushed, flush_router, add_token, audit,
}
use mikrotik_cpe_cloud.AutoEnroll.{auto_enroll}
use mikrotik_cpe_cloud.AutoEnroll.Outcome.{answered, raw_token}
use mikrotik_cpe_cloud.Fleet.Unique.{Distinct, All-put_router, Distinct-append, put_router-Distinct}

-- A router with this primary key is in the table.
abbrev pub Known : List Router → ℕ → Type 0
Known routers id = (r : Router) × In r routers × (r.id ≡ id)

-- The UNIQUE constraints, the primary key's sequence, and the foreign key of the tokens.
pub record WellFormed (db : Db) : Type 0 where
  pub distinct : Distinct db.routers
  pub below : All (λ (r : Router). r.id < db.next_router) db.routers
  pub owned : All (λ (t : RouterToken). Known db.routers t.router_id) db.router_tokens

-- The columns that well-formedness reads are the same.
pub record Same (d e : Db) : Type 0 where
  pub routers : d.routers ≡ e.routers
  pub router_tokens : d.router_tokens ≡ e.router_tokens
  pub next_router : d.next_router ≡ e.next_router

pub Same-WellFormed : {d e : Db} → Same d e → WellFormed e → WellFormed d
Same-WellFormed {d} {e} h w = record {
  distinct = rw h.routers w.distinct;
  below = rw (h.routers, h.next_router) w.below;
  owned = rw (h.routers, h.router_tokens) w.owned;
}

pub In-append_left : {A : Type 0} (xs ys : List A) (x : A) → In x xs → In x (xs ++ ys)
In-append_left [] ys x m = absurd m
In-append_left (y ∷ xs) ys x (inl e) = inl e
In-append_left (y ∷ xs) ys x (inr m) = inr (In-append_left xs ys x m)

In-append_last : {A : Type 0} (xs : List A) (x : A) → In x (xs ++ x ∷ [])
In-append_last [] x = inl refl
In-append_last (y ∷ xs) x = inr (In-append_last xs x)

-- An update keeps the keys of the table.
pub Known-put_router :
    (row : Router) (rs : List Router) (id : ℕ) → Known rs id → Known (put_router row rs) id
unfolding put_router
Known-put_router row [] id (r, m, e) = absurd m
Known-put_router row (q ∷ rs) id (r, inr m, e) =
    let (z, n, f) = Known-put_router row rs id (r, m, e) in (z, inr n, f)
Known-put_router row (q ∷ rs) id (r, inl s, e) = elim (Bool-cases (q.id == row.id)) [
  | inl b ↦
      (row, inl (rw b refl), sym ((==_iff q.id row.id).0 b) ∙ sym (ap (λ (z : Router). z.id) s) ∙ e)
  | inr b ↦ (q, inl (rw b refl), sym (ap (λ (z : Router). z.id) s) ∙ e)
]

-- A revocation keeps the owners.
owned-revoke :
    (P : ℕ → Type 0) (now id : ℕ) (ts : List RouterToken)
    → All (λ (t : RouterToken). P t.router_id) ts
    → All (λ (t : RouterToken). P t.router_id) (revoke_router_tokens now id ts)
unfolding revoke_router_tokens
owned-revoke P now id [] h = tt
owned-revoke P now id (t ∷ ts) (p, h) =
    (chosen (t.router_id == id && is_none t.revoked_at), owned-revoke P now id ts h)
  where
    chosen : (b : Bool) → P ((if b then record t { revoked_at = some now } else t).router_id)
    chosen true = p
    chosen false = p

-- A token's row for a known router.
add_token-WellFormed :
    (around : Surroundings) (sha256 : Text → Text) (raw : Text) (router_id : ℕ) (db : Db)
    → WellFormed db
    → Known db.routers router_id
    → WellFormed (add_token sha256 around raw router_id db)
unfolding add_token
add_token-WellFormed around sha256 raw router_id db w k = record {
  distinct = w.distinct;
  below = w.below;
  owned = All-append _ db.router_tokens _ w.owned (k, tt);
}

module _ (storable : Router → Bool) (settings : Settings) (around : Surroundings)
    (payload : AutoEnrollRequest) where
  -- The rows of an enrollment that has been flushed.
  pub new_parts :
      (db : Db) (flushed : Flushed)
      → first (has_serial payload.serial) db.routers ≡ none
      → flush_router storable settings around payload db ≡ ok flushed
      → (flushed.row.id ≡ db.next_router)
        × (flushed.db.routers ≡ db.routers ++ flushed.row ∷ [])
        × (flushed.db.router_tokens ≡ db.router_tokens)
        × (flushed.db.next_router ≡ db.next_router + 1)
        × (violates_unique flushed.row db.routers ≡ false)
  unfolding flush_router new_router
  new_parts db flushed f h = ground arith

  pub old_parts :
      (db : Db) (flushed : Flushed) (existing : Router)
      → first (has_serial payload.serial) db.routers ≡ some existing
      → flush_router storable settings around payload db ≡ ok flushed
      → (flushed.row.id ≡ existing.id)
        × (flushed.db.routers ≡ put_router flushed.row db.routers)
        × (flushed.db.router_tokens
            ≡ revoke_router_tokens around.revoked existing.id db.router_tokens)
        × (flushed.db.next_router ≡ db.next_router)
        × (violates_unique flushed.row db.routers ≡ false)
  unfolding flush_router renewed
  old_parts db flushed existing f h = ground arith

  -- The rows of an enrollment are well-formed, and the new row's key is known.
  flush_router-WellFormed :
      (db : Db) (flushed : Flushed)
      → WellFormed db
      → flush_router storable settings around payload db ≡ ok flushed
      → WellFormed flushed.db × Known flushed.db.routers flushed.row.id
  flush_router-WellFormed db flushed w h =
      elim (Option-cases (first (has_serial payload.serial) db.routers)) [
        | inl none_found ↦
            let (id, routers, tokens, next, apart) = new_parts db flushed none_found h in
            (
              record {
                distinct = rw routers (
                    Distinct-append flushed.row db.routers w.distinct
                      (All-map _ _ (λ (r : Router) b. ground (arith, b, id)) db.routers w.below)
                      apart);
                below =
                    rw (routers, next)
                      (All-append _ db.routers (flushed.row ∷ [])
                        (All-map _ _ (λ (r : Router) b. ground (arith, b)) db.routers w.below)
                        (ground (arith, id), tt));
                owned =
                    rw (routers, tokens)
                      (All-map _ _
                        (λ (t : RouterToken) k.
                          (k.0, In-append_left db.routers (flushed.row ∷ []) k.0 k.1, k.2))
                        db.router_tokens w.owned);
              },
              rw routers (flushed.row, In-append_last db.routers flushed.row, refl),
            )
        | inr (existing, found) ↦
            let (id, routers, tokens, next, apart) = old_parts db flushed existing found h in
            let (serial, member) =
              first_sound (has_serial payload.serial) db.routers {x = existing} found in
            (
              record {
                distinct = rw routers (put_router-Distinct flushed.row db.routers w.distinct apart);
                below =
                    rw (routers, next)
                      (All-put_router _ flushed.row db.routers
                        (rw id (All-In _ db.routers existing w.below member)) w.below);
                owned =
                    rw (routers, tokens)
                      (owned-revoke (Known (put_router flushed.row db.routers)) around.revoked
                        existing.id db.router_tokens
                        (All-map _ _
                          (λ (t : RouterToken) k.
                            Known-put_router flushed.row db.routers t.router_id k)
                          db.router_tokens w.owned));
              },
              rw routers (
                  Known-put_router flushed.row db.routers flushed.row.id
                    (existing, member, sym id)),
            )
      ]

module _ (sha256 : Text → Text) (storable : Router → Bool) (describe : Exn → Text)
    (render : Provision → Text) (settings : Settings) (around : Surroundings) (client : Option Text)
    (payload : AutoEnrollRequest) (header : Option Text) (s : Server) where
  abbrev pub after : Db
  after = (answered sha256 storable describe render settings around client payload header s).1.db

  abbrev pub stored : Flushed → Db
  stored flushed = add_token sha256 around (raw_token around) flushed.row.id flushed.db

  -- The tables are as they were, or they are those of a flushed enrollment.
  pub auto_enroll_tables :
      Same after s.db
      ⊎ ((flushed : Flushed) × (flush_router storable settings around payload s.db ≡ ok flushed)
          × Same after (stored flushed))
  unfolding auto_enroll audit add_token
  auto_enroll_tables = ground arith

  -- Whatever the answer, `auto_enroll` takes well-formed tables to well-formed tables.
  pub auto_enroll-WellFormed : WellFormed s.db → WellFormed after
  auto_enroll-WellFormed w = elim auto_enroll_tables [
    | inl same ↦ Same-WellFormed same w
    | inr (flushed, h, same) ↦
        let (kept, known) =
          flush_router-WellFormed storable settings around payload s.db flushed w h in
        Same-WellFormed same (
          add_token-WellFormed around sha256 (raw_token around) flushed.row.id flushed.db kept
            known)
  ]
