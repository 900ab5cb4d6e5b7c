-- ===== src/AutoEnroll/Secret.antt =====
-- `_verify_provisioning_secret` of app/routers/auto_enroll.py.
use mikrotik_cpe_cloud.Base.{
  ◌≡◌, ◌↔◌, ◌≢◌, refl, Bool, true, false, [], ◌∷◌, Option, none, some, arith, is_none,
  if◌then◌else◌,
}
use mikrotik_cpe_cloud.Base.Text.{Text, text_eq_iff}
use mikrotik_cpe_cloud.Config.{Settings}
use mikrotik_cpe_cloud.Tokens.{hash_token, verify_token}

pub data Slot : Type 0 where
  current previous : Slot

-- The slot from the two comparisons.
abbrev matched_slot : Bool → Bool → Option Slot
matched_slot a b =
    let matched = if a then some current else none in
    if b then (if is_none matched then some previous else matched) else matched

matched_lem :
    (a b : Bool)
    → ((matched_slot a b ≡ some current) ↔ (a ≡ true))
      × ((matched_slot a b ≡ some previous) ↔ ((b ≡ true) × ¬ (a ≡ true)))
      × ((matched_slot a b ≡ none) ↔ ((¬ (a ≡ true)) × (¬ (b ≡ true))))
matched_lem a b = ground arith

module _ (sha256 : Text → Text) where
  -- The hash of a slot's secret, where one is set.
  abbrev pub expected : Text → Option Text
  expected [] = none
  expected (c ∷ s) = some (hash_token sha256 (c ∷ s))

  abbrev pub slot_matches : Text → Option Text → Bool
  slot_matches raw none = false
  slot_matches raw (some h) = verify_token sha256 raw h

  unfoldable pub verify_provisioning_secret : Text → Settings → Option Slot
  verify_provisioning_secret raw settings =
      let expected_current = expected settings.provisioning_secret_current in
      let expected_previous = expected settings.provisioning_secret_previous in
      let matched = if slot_matches raw expected_current then some current else none in
      if slot_matches raw expected_previous
      then (if is_none matched then some previous else matched)
      else matched

  -- A set secret has the hash of the raw one.
  abbrev pub Opens : Text → Text → Type 0
  Opens raw secret = (secret ≢ []) × (sha256 raw ≡ sha256 secret)

  slot_matches_iff :
      (raw secret : Text) → (slot_matches raw (expected secret) ≡ true) ↔ Opens raw secret
  slot_matches_iff raw [] = (λ h. cc, λ h. absurd (h.0 refl))
  slot_matches_iff raw (c ∷ s) = ground (arith, text_eq_iff (sha256 raw) (sha256 (c ∷ s)))

  -- The slot is `current` exactly if the current secret opens, `previous` exactly if the previous
  -- one does and the current one does not, and none exactly if neither does; a secret that is not
  -- set never opens.
  pub verify_provisioning_secret_lem :
      (raw : Text) (settings : Settings)
      → ((verify_provisioning_secret raw settings ≡ some current)
          ↔ Opens raw settings.provisioning_secret_current)
        × ((verify_provisioning_secret raw settings ≡ some previous) ↔ (
            Opens raw settings.provisioning_secret_previous
            × ¬ Opens raw settings.provisioning_secret_current))
        × ((verify_provisioning_secret raw settings ≡ none) ↔ (
            (¬ Opens raw settings.provisioning_secret_current)
            × (¬ Opens raw settings.provisioning_secret_previous)))
  unfolding verify_provisioning_secret
  verify_provisioning_secret_lem raw settings =
      let a = slot_matches_iff raw settings.provisioning_secret_current in
      let b = slot_matches_iff raw settings.provisioning_secret_previous in
      let (c, p, n) =
        matched_lem (slot_matches raw (expected settings.provisioning_secret_current))
          (slot_matches raw (expected settings.provisioning_secret_previous)) in
      (
        (λ h. a.0 (c.0 h), λ o. c.1 (a.1 o)),
        (λ h. (b.0 (p.0 h).0, λ o. (p.0 h).1 (a.1 o)), λ o. p.1 (b.1 o.0, λ t. o.1 (a.0 t))),
        (
          λ h. (λ o. (n.0 h).0 (a.1 o), λ o. (n.0 h).1 (b.1 o)),
          λ o. n.1 (λ t. o.0 (a.0 t), λ t. o.1 (b.0 t)),
        ),
      )
