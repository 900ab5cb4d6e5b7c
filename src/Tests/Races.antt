-- ===== src/Tests/Races.antt =====
-- Two routers that enroll at the same time.
use mikrotik_cpe_cloud.Base.{ℕ, ◌+◌, ◌*◌, ◌^◌, List, [], ◌∷◌, ◌++◌}
use mikrotik_cpe_cloud.Base.Text.{codes}
use mikrotik_cpe_cloud.Models.{Router}
use mikrotik_cpe_cloud.AutoEnroll.Request.{AutoEnrollRequest}
use mikrotik_cpe_cloud.Fleet.Race.{Flight, Shared, flight_row}
use mikrotik_cpe_cloud.Tests.Data.{existing, request}

abbrev routers : List Router
routers = existing ∷ []

abbrev second_ip : ℕ
second_ip = 10 * 2 ^ 24 + 99 * 2 ^ 16 + 3

-- A request of a router that has nothing in common with the other.
abbrev rival : AutoEnrollRequest
rival = record request {
  serial = codes "HC99";
  mac = codes "AA:BB:CC:DD:EE:01";
  identity = codes "hAP X - Y, Z";
  router_public_key = codes "AgICAgICAgICAgICAgICAgICAgICAgICAgICAgICAgI=";
}

abbrev mine : Flight
mine = record { payload = record request { serial = codes "HC50" }; overlay_ip = second_ip }

abbrev theirs : Flight
theirs = record { payload = rival; overlay_ip = second_ip }

abbrev state : List Router → ℕ → List Flight → Shared
state rs next fs = record { routers = rs; next_router = next; flights = fs }

-- Both read, one flushes, and the other is in conflict.
abbrev at_end : Shared
at_end = state (routers ++ flight_row 2 7 mine ∷ []) 4 []
