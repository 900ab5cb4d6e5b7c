-- ===== src/RateLimit/Bucket.antt =====
-- One bucket: the exact condition of a grant.
use mikrotik_cpe_cloud.Base.{ℕ, ◌+◌, ◌-◌, ◌*◌, ◌≤◌, ◌≡◌, ◌↔◌, true, arith}
use mikrotik_cpe_cloud.RateLimit.{TokenBucket, try_consume}

-- A call is granted exactly if its cost is at most the capacity and at most what the bucket holds
-- after the refill of the time since the last one.
pub try_consume_lem :
    (now cost : ℕ) (b : TokenBucket)
    → ((try_consume now cost b).0 ≡ true)
      ↔ ((cost ≤ b.capacity) × (cost ≤ b.tokens + (now - b.last_refill) * b.rate))
unfolding try_consume
try_consume_lem now cost b = ground arith
