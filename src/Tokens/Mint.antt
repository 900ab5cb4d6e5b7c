-- ===== src/Tokens/Mint.antt =====
-- Minted tokens fit the checks that they meet later.
use mikrotik_cpe_cloud.Base.{ℕ, ◌≤◌, ◌≡◌, refl, arith, List, length, take, zero, suc, [], ◌∷◌}
use mikrotik_cpe_cloud.Base.Strip.{HasNoSpace}
use mikrotik_cpe_cloud.Base64.Urlsafe.{length-token_urlsafe, token_urlsafe-HasNoSpace}
use mikrotik_cpe_cloud.Tokens.{mint_token, mint_telemetry_token, token_bytes, telemetry_token_bytes}

length-take : (n : ℕ) (bs : List ℕ) → n ≤ length bs → length (take n bs) ≡ n
length-take zero bs h = refl
length-take (suc n) [] h = elim h [ ]
length-take (suc n) (b ∷ bs) h = omega (arith, length-take n bs (omega arith))

-- A fetch token of 32 random bytes has 43 characters, and a telemetry token of 48 has 64.
pub length-mint :
    (random : List ℕ)
    → telemetry_token_bytes ≤ length random
    → (length (mint_token random) ≡ 43) × (length (mint_telemetry_token random) ≡ 64)
unfolding mint_token mint_telemetry_token
length-mint random h = (
  omega (
    arith,
    length-token_urlsafe (take token_bytes random),
    length-take token_bytes random (omega arith),
  ),
  omega (
    arith,
    length-token_urlsafe (take telemetry_token_bytes random),
    length-take telemetry_token_bytes random h,
  ),
)

-- A telemetry token has no spaces.
pub mint_telemetry_token-HasNoSpace : (random : List ℕ) → HasNoSpace (mint_telemetry_token random)
unfolding mint_telemetry_token
mint_telemetry_token-HasNoSpace random =
    token_urlsafe-HasNoSpace (take telemetry_token_bytes random)
