-- ===== src/AutoEnroll/Request.antt =====
-- `AutoEnrollRequest` of app/routers/auto_enroll.py and its validators.
use mikrotik_cpe_cloud.Base.{
  ℕ, Bool, true, false, not, ◌&&◌, ◌||◌, none, some, leb, ◌==◌, length, if◌then◌else◌,
}
use mikrotik_cpe_cloud.Base.Text.{Text, codes, text_eq}
use mikrotik_cpe_cloud.Base.Result.{Result, ok, err, value_error}
use mikrotik_cpe_cloud.Base64.{b64encode, b64decode}

pub record AutoEnrollRequest : Type 0 where
  pub serial : Text
  pub mac : Text
  pub model : Text
  pub identity : Text
  pub ros_version : Text
  pub wifi_stack : Text
  pub router_public_key : Text

-- `_validate_wg_pubkey`
unfoldable pub validate_wg_pubkey : Text → Result Text
validate_wg_pubkey v = elim (b64decode v) [
  | none ↦ err value_error
  | some decoded ↦
      if not (length decoded == 32)
      then err value_error
      else if not (text_eq (b64encode decoded) v)
      then err value_error
      else ok v
]

-- `Field(min_length=lo, max_length=hi)`
abbrev pub has_length : ℕ → ℕ → Text → Bool
has_length lo hi s = leb lo (length s) && leb (length s) hi

-- `Field(pattern=r"^(wireless|wifi)$")`
abbrev pub is_wifi_stack : Text → Bool
is_wifi_stack s = text_eq s (codes "wireless") || text_eq s (codes "wifi")

-- The validator has returned.
abbrev pub is_valid_key : Text → Bool
is_valid_key v = elim (validate_wg_pubkey v) [ ok key ↦ true | err e ↦ false ]

-- The constraints on the fields; where one fails the framework answers 422.
unfoldable pub is_valid_request : AutoEnrollRequest → Bool
is_valid_request p =
    has_length 4 64 p.serial
    && has_length 17 17 p.mac
    && has_length 1 64 p.model
    && has_length 1 128 p.identity
    && has_length 1 32 p.ros_version
    && is_wifi_stack p.wifi_stack
    && has_length 44 44 p.router_public_key
    && is_valid_key p.router_public_key
