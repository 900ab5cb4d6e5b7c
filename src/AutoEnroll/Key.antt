-- ===== src/AutoEnroll/Key.antt =====
-- The keys that the validator accepts.
use mikrotik_cpe_cloud.Base.{
  ℕ, ◌<◌, ◌≡◌, ◌↔◌, refl, ap, List, Option, none, some, arith, length, All,
}
use mikrotik_cpe_cloud.Base.Text.{Text, text_eq_iff}
use mikrotik_cpe_cloud.Base.Result.{ok}
use mikrotik_cpe_cloud.Base64.{b64encode, b64decode}
use mikrotik_cpe_cloud.Base64.Decode.{b64decode-b64encode, b64decode_bytes}
use mikrotik_cpe_cloud.AutoEnroll.Request.{validate_wg_pubkey}

-- `_validate_wg_pubkey` accepts a text, and returns it, exactly if it is the standard encoding of 32
-- bytes.
pub validate_wg_pubkey_lem :
    (v : Text)
    → (validate_wg_pubkey v ≡ ok v)
      ↔ ((bs : List ℕ) × (length bs ≡ 32) × (All (λ b. b < 256) bs) × (v ≡ b64encode bs))
unfolding validate_wg_pubkey
validate_wg_pubkey_lem v = (accepted (b64decode v) refl, encoded)
  where
    accepted :
        (d : Option (List ℕ))
        → b64decode v ≡ d
        → validate_wg_pubkey v ≡ ok v
        → (bs : List ℕ) × (length bs ≡ 32) × (All (λ b. b < 256) bs) × (v ≡ b64encode bs)
    accepted none e h = absurd (ground (arith, e, h))
    accepted (some bs) e h = (
      bs,
      ground (arith, e, h),
      b64decode_bytes v bs e,
      ground (arith, e, h, text_eq_iff (b64encode bs) v),
    )

    encoded :
        (bs : List ℕ) × (length bs ≡ 32) × (All (λ b. b < 256) bs) × (v ≡ b64encode bs)
        → validate_wg_pubkey v ≡ ok v
    encoded (bs, l, bytes, e) =
        ground (arith, text_eq_iff (b64encode bs) v, b64decode-b64encode bs bytes, ap b64decode e)
