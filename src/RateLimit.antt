-- ===== src/RateLimit.antt =====
-- app/services/rate_limit.py: the token bucket, and the buckets that are kept for each scope and
-- key. Time is a number of microseconds of the monotonic clock. An amount of tokens is a number of
-- units of 1/6000000 token, so that the refill of 10/60 token a second is one unit a microsecond.
pub mod Bucket
pub mod Window
pub mod Waiting
pub mod Refine
use mikrotik_cpe_cloud.Base.{
  ℕ, ◌+◌, ◌-◌, ◌*◌, min, Bool, true, false, ◌&&◌, List, [], ◌∷◌, Option, none, some, leb,
  if◌then◌else◌,
}
use mikrotik_cpe_cloud.Base.Text.{Text, text_eq, codes}

pub record TokenBucket : Type 0 where
  pub capacity : ℕ
  pub rate : ℕ
  pub tokens : ℕ
  pub last_refill : ℕ

-- `TokenBucket.__init__`, with the reading of the clock.
unfoldable pub init : ℕ → ℕ → ℕ → TokenBucket
init capacity rate now = record {
  capacity = capacity;
  rate = rate;
  tokens = capacity;
  last_refill = now;
}

-- The refill of `try_consume`.
unfoldable pub refill : ℕ → TokenBucket → TokenBucket
refill now b =
    let elapsed = now - b.last_refill in
    record b { tokens = min b.capacity (b.tokens + elapsed * b.rate); last_refill = now }

-- `TokenBucket.try_consume` at a reading of the clock.
unfoldable pub try_consume : ℕ → ℕ → TokenBucket → Bool × TokenBucket
unfolding refill
try_consume now cost b =
    let r = refill now b in
    if leb cost r.tokens then (true, record r { tokens = r.tokens - cost }) else (false, r)

-- One token, and the `capacity=10.0, rate=10.0 / 60.0` of the default factory, in units.
abbrev pub token : ℕ
token = 6000000

abbrev pub default_capacity : ℕ
default_capacity = 10 * token

abbrev pub default_rate : ℕ
default_rate = 1

-- `_buckets`, a dict whose keys are a scope and a key.
abbrev pub Buckets : Type 0
Buckets = List ((Text × Text) × TokenBucket)

abbrev pub same_key : Text × Text → Text × Text → Bool
same_key (s, k) (s', k') = text_eq s s' && text_eq k k'

unfoldable pub lookup : Text × Text → Buckets → Option TokenBucket
lookup k [] = none
lookup k ((j, b) ∷ m) = if same_key j k then some b else lookup k m

unfoldable pub insert : Text × Text → TokenBucket → Buckets → Buckets
insert k b [] = (k, b) ∷ []
insert k b ((j, c) ∷ m) = if same_key j k then (j, b) ∷ m else (j, c) ∷ insert k b m

-- `_buckets[(scope, key)]` of a defaultdict; a bucket that is made reads the clock at `created`.
unfoldable pub get_or_create : ℕ → Text × Text → Buckets → TokenBucket
unfolding lookup init
get_or_create created k m = elim (lookup k m) [
  | none ↦ init default_capacity default_rate created
  | some b ↦ b
]

-- `check_rate_limit`, with the readings of the clock by the constructor and by `try_consume`.
unfoldable pub check_rate_limit : ℕ → ℕ → Text → Text → Buckets → Bool × Buckets
unfolding get_or_create try_consume insert
check_rate_limit created now scope key m =
    let (granted, b) = try_consume now token (get_or_create created (scope, key) m) in
    (granted, insert (scope, key) b m)

-- `check_fetch_rate_limit`
unfoldable pub check_fetch_rate_limit : ℕ → ℕ → Text → Buckets → Bool × Buckets
unfolding check_rate_limit
check_fetch_rate_limit created now source_ip m =
    check_rate_limit created now (codes "fetch") source_ip m
