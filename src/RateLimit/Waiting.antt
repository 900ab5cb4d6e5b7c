-- ===== src/RateLimit/Waiting.antt =====
-- A key that waits is granted its next call.
use mikrotik_cpe_cloud.Base.{List, [], ◌∷◌}
use mikrotik_cpe_cloud.Base.Text.{Text}
use mikrotik_cpe_cloud.RateLimit.{Buckets, check_rate_limit}
use mikrotik_cpe_cloud.RateLimit.Window.{Call}

-- The buckets after the calls in turn.
unfoldable pub after_calls : Buckets → List Call → Buckets
after_calls m [] = m
after_calls m (c ∷ cs) = after_calls (check_rate_limit c.created c.now c.scope c.key m).1 cs
