-- ===== src/Fleet/Race.antt =====
-- First enrollments in `auto_enroll` that interleave: each reads the table and takes an address before
-- it flushes its row, and others may flush theirs in between. The flush and the commit are one step,
-- since the database lets a row wait for the end of a transaction that holds one of its keys.
use mikrotik_cpe_cloud.Base.{ℕ, ◌+◌, ◌<◌, ◌≡◌, true, false, List, [], ◌∷◌, ◌++◌, none, All, first}
use mikrotik_cpe_cloud.Base.Result.{ok}
use mikrotik_cpe_cloud.Models.{Router}
use mikrotik_cpe_cloud.Config.{Settings}
use mikrotik_cpe_cloud.Wireguard.{allocate_overlay_ip}
use mikrotik_cpe_cloud.AutoEnroll.Request.{AutoEnrollRequest}
use mikrotik_cpe_cloud.AutoEnroll.Rows.{new_router, violates_unique, has_serial}
use mikrotik_cpe_cloud.Fleet.Unique.{Distinct}

-- A request that has read the table.
pub record Flight : Type 0 where
  pub payload : AutoEnrollRequest
  pub overlay_ip : ℕ

-- The committed rows, the sequence of the primary key, and the requests that have read.
pub record Shared : Type 0 where
  pub routers : List Router
  pub next_router : ℕ
  pub flights : List Flight

-- The row that a request flushes, with the next primary key.
abbrev pub flight_row : ℕ → ℕ → Flight → Router
flight_row id now f = new_router id f.overlay_ip now f.payload

module _ (settings : Settings) where
  pub data Step : Shared → Shared → Type 0 where
    reads :
        (rs : List Router) (next : ℕ) (fs : List Flight) (payload : AutoEnrollRequest) (ip : ℕ)
        → first (has_serial payload.serial) rs ≡ none
        → allocate_overlay_ip settings rs ≡ ok ip
        → Step
            (record { routers = rs; next_router = next; flights = fs })
            (record {
              routers = rs;
              next_router = next;
              flights = record { payload = payload; overlay_ip = ip } ∷ fs;
            })
    flushes :
        (rs : List Router) (next now : ℕ) (before after : List Flight) (f : Flight)
        → violates_unique (flight_row next now f) rs ≡ false
        → Step
            (record { routers = rs; next_router = next; flights = before ++ f ∷ after })
            (record {
              routers = rs ++ flight_row next now f ∷ [];
              next_router = next + 1;
              flights = before ++ after;
            })
    conflicts :
        (rs : List Router) (next now : ℕ) (before after : List Flight) (f : Flight)
        → violates_unique (flight_row next now f) rs ≡ true
        → Step
            (record { routers = rs; next_router = next; flights = before ++ f ∷ after })
            (record { routers = rs; next_router = next + 1; flights = before ++ after })

  pub data Steps : Shared → Shared → Type 0 where
    none_yet : (s : Shared) → Steps s s
    and_then : (s t u : Shared) → Steps s t → Step t u → Steps s u

  -- The UNIQUE constraints hold, and the sequence is past every key.
  abbrev pub Sound : Shared → Type 0
  Sound s = Distinct s.routers × All (λ r. r.id < s.next_router) s.routers
