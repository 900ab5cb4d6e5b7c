-- ===== src/Tests/Limits.antt =====
-- The rate limit.
use mikrotik_cpe_cloud.Base.{ℕ, ◌+◌, ◌*◌, ◌≤◌, ◌-◌, ◌≡◌, refl, List, [], ◌∷◌, arith}
use mikrotik_cpe_cloud.Base.Text.{codes, text_eq}
use mikrotik_cpe_cloud.RateLimit.{
  check_rate_limit, TokenBucket, try_consume, token, default_capacity,
}
use mikrotik_cpe_cloud.RateLimit.Window.{Call, Monotone, end_time, grants, grants_window}

abbrev call : ℕ → Call
call t = record { scope = codes "fetch"; key = codes "k"; created = t; now = t }

-- Twelve calls in six seconds.
abbrev calls : List Call
calls =
    call 1
    ∷ call 1
    ∷ call 1
    ∷ call 1
    ∷ call 1
    ∷ call 1
    ∷ call 1
    ∷ call 1
    ∷ call 1
    ∷ call 1
    ∷ call 1
    ∷ call 6000001
    ∷ []

calls-Monotone : Monotone 1 calls
calls-Monotone = ground arith

grants_window_example :
    token * grants (codes "fetch", codes "k") [] calls ≤ default_capacity + (end_time 1 calls - 1)
grants_window_example = grants_window (codes "fetch", codes "k") 1 calls calls-Monotone

-- Eleven of them are granted.
grants-calls : grants (codes "fetch", codes "k") [] calls ≡ 11
unfolding grants mikrotik_cpe_cloud.RateLimit.check_rate_limit text_eq
grants-calls = refl

abbrev bucket : TokenBucket
bucket = record { capacity = 60; rate = 1; tokens = 5; last_refill = 10 }
