-- ===== src/Telemetry/Header.antt =====
-- `_extract_bearer` on the header that a provisioned router sends.
use mikrotik_cpe_cloud.Base.{ℕ, ◌≡◌, ◌≢◌, refl, [], ◌∷◌, ◌++◌, some}
use mikrotik_cpe_cloud.Base.Text.{Text, codes, text_eq, is_space}
use mikrotik_cpe_cloud.Base.Strip.{HasNoSpace, strip-HasNoSpace}
use mikrotik_cpe_cloud.Telemetry.{token, extract_bearer, split_once}

-- The two parts of the header.
split_once-bearer :
    (c : ℕ) (s : Text)
    → HasNoSpace (c ∷ s)
    → split_once (codes "Bearer " ++ c ∷ s) ≡ codes "Bearer" ∷ (c ∷ s) ∷ []
unfolding split_once is_space
split_once-bearer c s (p, h) = rw p refl

-- A header `Bearer <token>`, with a token that is not empty and has no spaces, gives the token.
pub extract_bearer_lem :
    (tok : Text)
    → tok ≢ []
    → HasNoSpace tok
    → extract_bearer (some (codes "Bearer " ++ tok)) ≡ token tok
unfolding extract_bearer text_eq
extract_bearer_lem [] n h = absurd (n refl)
extract_bearer_lem (c ∷ s) n h = rw (split_once-bearer c s h, strip-HasNoSpace (c ∷ s) h) refl
