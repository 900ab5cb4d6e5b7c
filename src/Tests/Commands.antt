-- ===== src/Tests/Commands.antt =====
-- The commands.
use mikrotik_cpe_cloud.Base.{ℕ, List, [], ◌∷◌}
use mikrotik_cpe_cloud.Base.Text.{Text}
use mikrotik_cpe_cloud.Models.{AdminFetchToken}
use mikrotik_cpe_cloud.Tests.Data.{fetch_row}

abbrev table : List AdminFetchToken
table = fetch_row ∷ []

abbrev date : ℕ → Text
date t = []

abbrev quoted : Text → Text
quoted s = s
