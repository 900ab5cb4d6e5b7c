-- ===== src/Server.antt =====
-- What the endpoints share: the state of the process with its committed tables, and the responses.
use mikrotik_cpe_cloud.Base.{ℕ, Bool, List, [], ◌∷◌, Option, none, some, ◌==◌, first, if◌then◌else◌}
use mikrotik_cpe_cloud.Base.Text.{Text}
use mikrotik_cpe_cloud.Models.{Db, Router}
use mikrotik_cpe_cloud.RateLimit.{Buckets}
use mikrotik_cpe_cloud.Wireguard.File.{Dir}
use mikrotik_cpe_cloud.Influx.Point.{Point}

-- Beside the tables, the buckets and the directory: whether the influx client of the process has been
-- made, and the batches that it has been given.
pub record Server : Type 0 where
  pub db : Db
  pub buckets : Buckets
  pub dir : Dir
  pub client : Bool
  pub delivered : List (List Point)

pub record Response : Type 0 where
  pub status_code : ℕ
  pub body : Text

-- The readings of the monotonic clock by one rate-limit check.
pub record Readings : Type 0 where
  pub created : ℕ
  pub now : ℕ

-- `request.client.host if request.client else "unknown"`
abbrev pub host_or : Text → Option Text → Text
host_or unknown none = unknown
host_or unknown (some host) = host

-- `session.get(Router, id)`
unfoldable pub get_router : ℕ → List Router → Option Router
unfolding first
get_router id routers = first (λ r. r.id == id) routers

-- An UPDATE of the row with the primary key of `row`.
unfoldable pub put_router : Router → List Router → List Router
put_router row [] = []
put_router row (r ∷ rs) = (if r.id == row.id then row else r) ∷ put_router row rs
