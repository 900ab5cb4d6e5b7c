-- ===== src/Schema/Constraints.antt =====
-- The constraints of the table `routers`, and the rows that app/routers/auto_enroll.py writes into it.
use mikrotik_cpe_cloud.Base.{Bool, true, [], ◌∷◌, Option, none, some}
use mikrotik_cpe_cloud.Base.Text.{Text, codes}
use mikrotik_cpe_cloud.Base.Int.{ℤ, pos}
use mikrotik_cpe_cloud.Models.{Router, Status, active, pending, decommissioned, quarantined}
use mikrotik_cpe_cloud.Schema.{
  Cell, text_cell, number_cell, inet_cell, time_cell, Given, null, value, Row,
}
use mikrotik_cpe_cloud.Schema.Rows.{fits}

abbrev pub given : {A : Type 0} → (A → Cell) → Option A → Given
given f none = null
given f (some a) = value (f a)

abbrev pub status_text : Status → Text
status_text active = codes "active"
status_text pending = codes "pending"
status_text decommissioned = codes "decommissioned"
status_text quarantined = codes "quarantined"

-- The row of a `Router`, with the columns that the code sets.
abbrev pub row_of : Router → Row
row_of r =
    (codes "id", value (number_cell (pos r.id)))
    ∷ (codes "identity", value (text_cell r.identity))
    ∷ (codes "serial_number", value (text_cell r.serial_number))
    ∷ (codes "mac_address", value (text_cell r.mac_address))
    ∷ (codes "model", given text_cell r.model)
    ∷ (codes "ros_version", given text_cell r.ros_version)
    ∷ (codes "ros_major", given number_cell r.ros_major)
    ∷ (codes "wifi_stack", given text_cell r.wifi_stack)
    ∷ (codes "wg_public_key", given text_cell r.wg_public_key)
    ∷ (codes "wg_overlay_ip", given inet_cell r.wg_overlay_ip)
    ∷ (codes "enrolled_at", given time_cell r.enrolled_at)
    ∷ (codes "last_seen_at", given time_cell r.last_seen_at)
    ∷ (codes "status", value (text_cell (status_text r.status)))
    ∷ []

-- The value of the column `ros_major` is one of its type.
abbrev pub fits_ros_major : Option ℤ → Bool
fits_ros_major none = true
fits_ros_major (some n) = fits 15 n
