-- ===== src/RateLimit/Window.antt =====
-- What one key is granted over a run of `check_rate_limit` calls by all clients.
use mikrotik_cpe_cloud.Base.{
  ℕ, ◌+◌, ◌-◌, ◌*◌, ◌≤◌, ◌≡◌, refl, inl, inr, ◌↔◌, Bool, true, ◌&&◌, List, [], ◌∷◌, Option, none,
  some, arith, if◌then◌else◌, Bool-cases,
}
use mikrotik_cpe_cloud.Base.Text.{Text, text_eq_iff}
use mikrotik_cpe_cloud.RateLimit.{
  TokenBucket, token, default_capacity, default_rate, Buckets, same_key, lookup, insert,
  check_rate_limit, init, try_consume,
}

-- One call: the scope and key, and the readings of the clock.
pub record Call : Type 0 where
  pub scope : Text
  pub key : Text
  pub created : ℕ
  pub now : ℕ

-- The monotonic clock does not go back.
abbrev pub Monotone : ℕ → List Call → Type 0
Monotone t [] = Unit
Monotone t (c ∷ cs) = (t ≤ c.created) × (c.created ≤ c.now) × Monotone c.now cs

abbrev pub end_time : ℕ → List Call → ℕ
end_time t [] = t
end_time t (c ∷ cs) = end_time c.now cs

-- The calls in turn; the result counts the grants to one key.
unfoldable pub grants : Text × Text → Buckets → List Call → ℕ
grants k m [] = 0
grants k m (c ∷ cs) =
    let (ok, m') = check_rate_limit c.created c.now c.scope c.key m in
    let more = grants k m' cs in if ok && same_key (c.scope, c.key) k then more + 1 else more

pub same_key_iff : (i j : Text × Text) → (same_key i j ≡ true) ↔ (i ≡ j)
same_key_iff (s, a) (t, b) = ground (arith, text_eq_iff s t, text_eq_iff a b)

pub lookup-insert :
    (k j : Text × Text) (b : TokenBucket) (m : Buckets)
    → lookup j (insert k b m) ≡ (if same_key k j then some b else lookup j m)
unfolding lookup insert
lookup-insert k j b [] = refl
lookup-insert k j b ((i, c) ∷ m) =
    ground (arith, same_key_iff k j, same_key_iff i k, same_key_iff i j, lookup-insert k j b m)

-- The most that a key can be granted at time `t`, in units, and the fields of its bucket.
pub level : Option TokenBucket → ℕ → ℕ
level none t = default_capacity
level (some b) t = b.tokens + (t - b.last_refill)

abbrev pub IsFine : Option TokenBucket → ℕ → Type 0
IsFine none t = Unit
IsFine (some b) t = (b.rate ≡ default_rate) × (b.capacity ≡ default_capacity) × (b.last_refill ≤ t)

abbrev pub spent : Bool → ℕ
spent b = if b then token else 0

abbrev pub result : ℕ → ℕ → Option TokenBucket → Bool × TokenBucket
result created now o =
    try_consume now token
      (elim o [ none ↦ init default_capacity default_rate created | some b ↦ b ])

-- What a call spends is covered by the level and by the time that has passed.
result_covered :
    (t created now : ℕ) (o : Option TokenBucket)
    → IsFine o t
    → t ≤ created
    → created ≤ now
    → (spent (result created now o).0 + level (some (result created now o).1) now
        ≤ level o t + (now - t))
      × IsFine (some (result created now o).1) now
unfolding try_consume level init
result_covered t created now none f p q = ground arith
result_covered t created now (some b) f p q = ground arith

level_wait :
    (t now : ℕ) (o : Option TokenBucket)
    → IsFine o t
    → t ≤ now
    → level o now ≤ level o t + (now - t)
unfolding level
level_wait t now none f h = ground arith
level_wait t now (some b) f h = ground arith

IsFine-wait : (t now : ℕ) (o : Option TokenBucket) → IsFine o t → t ≤ now → IsFine o now
IsFine-wait t now none f h = tt
IsFine-wait t now (some b) f h = omega arith

-- The bucket of each key after a call.
pub lookup-check_rate_limit :
    (k : Text × Text) (created now : ℕ) (scope key : Text) (m : Buckets)
    → lookup k (check_rate_limit created now scope key m).1 ≡ (
        if same_key (scope, key) k
        then some (result created now (lookup (scope, key) m)).1
        else lookup k m)
unfolding check_rate_limit
lookup-check_rate_limit k created now scope key m = rw lookup-insert

pub check_rate_limit-eq-result :
    (created now : ℕ) (scope key : Text) (m : Buckets)
    → (check_rate_limit created now scope key m).0 ≡ (result created now (lookup (scope, key) m)).0
unfolding check_rate_limit
check_rate_limit-eq-result created now scope key m = refl

step_self :
    (k : Text × Text) (m : Buckets) (t : ℕ) (c : Call)
    → (c.scope, c.key) ≡ k
    → IsFine (lookup k m) t
    → t ≤ c.created
    → c.created ≤ c.now
    → let (ok, m') = check_rate_limit c.created c.now c.scope c.key m in
      (spent ok + level (lookup k m') c.now ≤ level (lookup k m) t + (c.now - t))
      × IsFine (lookup k m') c.now
step_self k m t c e f p q =
    rw
      (
        lookup-check_rate_limit,
        (same_key_iff (c.scope, c.key) k).1 e,
        check_rate_limit-eq-result,
        e,
      )
      (result_covered t c.created c.now (lookup k m) f p q)

pub step_covered :
    (k : Text × Text) (m : Buckets) (t : ℕ) (c : Call)
    → IsFine (lookup k m) t
    → t ≤ c.created
    → c.created ≤ c.now
    → let (ok, m') = check_rate_limit c.created c.now c.scope c.key m in
      (spent (ok && same_key (c.scope, c.key) k) + level (lookup k m') c.now
        ≤ level (lookup k m) t + (c.now - t))
      × IsFine (lookup k m') c.now
step_covered k m t c f p q = elim (Bool-cases (same_key (c.scope, c.key) k)) [
  | inl e ↦ ground (arith, step_self k m t c ((same_key_iff (c.scope, c.key) k).0 e) f p q, e)
  | inr e ↦
      let now_fine = IsFine-wait t c.now (lookup k m) f (omega arith) in
      let same = lookup-check_rate_limit k c.created c.now c.scope c.key m in
      rw (same, e) (ground (arith, level_wait t c.now (lookup k m) f, now_fine))
]

end_time-ge : (t : ℕ) (cs : List Call) → Monotone t cs → t ≤ end_time t cs
end_time-ge t [] h = omega arith
end_time-ge t (c ∷ cs) (h, h', h'') = omega (arith, end_time-ge c.now cs h'')

grants_covered :
    (k : Text × Text) (m : Buckets) (t : ℕ) (cs : List Call)
    → IsFine (lookup k m) t
    → Monotone t cs
    → token * grants k m cs ≤ level (lookup k m) t + (end_time t cs - t)
unfolding grants
grants_covered k m t [] f h = omega arith
grants_covered k m t (c ∷ cs) f (h, h', h'') =
    let (ok, m') = check_rate_limit c.created c.now c.scope c.key m in
    let (covered, f') = step_covered k m t c f h h' in
    let ih = grants_covered k m' c.now cs f' h'' in
    ground (arith, end_time-ge c.now cs h'', covered, ih)

-- From a process start, over any run of calls for any keys at times that do not go back, a key is
-- granted at most 10 calls and one more for each 6 seconds from the first reading to the last.
pub grants_window :
    (k : Text × Text) (t : ℕ) (cs : List Call)
    → Monotone t cs
    → token * grants k [] cs ≤ default_capacity + (end_time t cs - t)
unfolding lookup level
grants_window k t cs h = grants_covered k [] t cs tt h
