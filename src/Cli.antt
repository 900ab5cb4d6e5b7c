-- ===== src/Cli.antt =====
-- app/cli.py: the commands over the token service and the overlay. `isoformat`, `strftime` and `repr`
-- are the standard library's, of a point in time and of a text. An exception that is not caught ends
-- the process with exit status 1 and commits nothing; its traceback is not modelled.
pub mod Revoke
use mikrotik_cpe_cloud.Base.{
  ℕ, zero, suc, ◌+◌, ◌-◌, Bool, true, false, not, List, [], ◌∷◌, ◌++◌, Option, none, some, is_none,
  length, take, if◌then◌else◌, String,
}
use mikrotik_cpe_cloud.Base.Text.{Text, codes}
use mikrotik_cpe_cloud.Base.Int.{ℤ}
use mikrotik_cpe_cloud.Base.Decimal.{str}
use mikrotik_cpe_cloud.Base.Result.{Result, ok, err}
use mikrotik_cpe_cloud.Models.{Router, AdminFetchToken}
use mikrotik_cpe_cloud.Config.{Settings}
use mikrotik_cpe_cloud.Ipv4.{ipv4_str}
use mikrotik_cpe_cloud.Tokens.{
  Issued, MintedFetchToken, ttl_not_positive, label_missing, integrity_error,
  issue_admin_fetch_token, revoke_admin_fetch_token, FetchTokenSummary, active,
  list_admin_fetch_tokens,
}
use mikrotik_cpe_cloud.Wireguard.{SyncSummary, sync_from_db, allocate_overlay_ip}
use mikrotik_cpe_cloud.Wireguard.File.{Dir, Fault}

-- What a command leaves on the terminal: each call of `print` is a text.
pub record Terminal : Type 0 where
  pub exit_code : ℕ
  pub stdout : List Text
  pub stderr : List Text

abbrev pub crashed : Terminal
crashed = record { exit_code = 1; stdout = []; stderr = [] }

abbrev pub says : ℕ → List Text → Terminal
says exit_code lines = record { exit_code = exit_code; stdout = lines; stderr = [] }

-- `_cmd_stub`
unfoldable pub cmd_stub : Text → Text → Terminal
cmd_stub cmd subcmd = record {
  exit_code = 2;
  stdout = [];
  stderr =
      (codes "[stub] " ++ (cmd ++ (codes " " ++ (subcmd ++ codes " not yet implemented")))) ∷ [];
}

abbrev pub or_else : Option Text → Text → Text
or_else none other = other
or_else (some []) other = other
or_else (some (c ∷ s)) other = c ∷ s

-- `_current_admin_username`, on the values of SUDO_USER, USER and LOGNAME.
unfoldable pub current_admin_username : Option Text → Option Text → Option Text → Text
current_admin_username sudo_user user logname =
    or_else sudo_user (or_else user (or_else logname (codes "unknown")))

-- `_wg_sync_async`
unfoldable pub wg_sync : Settings → List Router → Option Fault → ℕ → Dir → Terminal × Dir
wg_sync settings routers fault rc dir =
    let (synced, dir') = sync_from_db settings routers fault rc dir in
    elim synced [
      | err e ↦ (crashed, dir')
      | ok summary ↦ (
        says 0 (
            (codes "wireguard sync complete: " ++ (str summary.peers_synced ++ codes " peer(s)"))
            ∷ (codes "config path: " ++ summary.config_path)
            ∷ []),
        dir',
      )
    ]

-- `_wg_ip_alloc_peek_async`
unfoldable pub wg_ip_alloc_peek : Settings → List Router → Terminal
wg_ip_alloc_peek settings routers = elim (allocate_overlay_ip settings routers) [
  | err e ↦ crashed
  | ok ip ↦ says 0 (
      (codes "next free overlay IP would be: " ++ ipv4_str ip)
      ∷ codes "(this is a dry run - nothing inserted into routers table)"
      ∷ [])
]

abbrev pub repeated : ℕ → ℕ → Text
repeated zero c = []
repeated (suc n) c = c ∷ repeated n c

-- `f"{s:<n}"` and `f"{s:>n}"`
abbrev pub ljust : ℕ → Text → Text
ljust n s = s ++ repeated (n - length s) b' '

abbrev pub rjust : ℕ → Text → Text
rjust n s = repeated (n - length s) b' ' ++ s

-- The word in the column STATUS, the clock being read by `r.active`.
unfoldable pub status_of : ℕ → FetchTokenSummary → Text
unfolding active
status_of now r =
    if active now r
    then codes "active"
    else if is_none r.revoked_at
    then codes "expired"
    else codes "revoked"

module _ (isoformat strftime : ℕ → Text) (repr : Text → Text) where
  abbrev pub mint_lines : MintedFetchToken → List Text
  mint_lines minted =
      repeated 70 b'='
      ∷ codes "Admin fetch token minted. Copy this now -- it will not be shown again."
      ∷ repeated 70 b'='
      ∷ (codes "  Label    : " ++ minted.row.label)
      ∷ (codes "  Token    : " ++ minted.raw)
      ∷ (codes "  Prefix   : " ++ minted.row.token_prefix)
      ∷ (codes "  Expires  : " ++ isoformat minted.row.expires_at)
      ∷ (codes "  Issued by: " ++ or_else minted.row.issued_by (codes "unknown"))
      ∷ repeated 70 b'='
      ∷ (codes
            "Use in factory-prep script:\n  /tool fetch url=\"https://mcc.bradfordbroadband.com/factory/self-enroll.rsc?t="
          ++ (minted.raw ++ codes "\" \\\n      dst-path=cpe-cloud-installer.rsc mode=https"))
      ∷ []

  -- `_ft_mint_async`, with the table that is committed.
  unfoldable pub ft_mint :
      (Text → Text)
      → List AdminFetchToken
      → ℕ
      → ℕ
      → ℕ
      → List ℕ
      → Text
      → ℤ
      → Text
      → Terminal × List AdminFetchToken
  ft_mint sha256 table id created now random label ttl_hours username =
      elim (issue_admin_fetch_token sha256 table id created now random label ttl_hours
        (some username)) [
          | Issued.ok (minted, table') ↦ (says 0 (mint_lines minted), table')
          | ttl_not_positive ↦ (crashed, table)
          | label_missing ↦ (crashed, table)
          | integrity_error ↦ (crashed, table)
        ]

  -- `_ft_revoke_async`, with the table that is committed.
  unfoldable pub ft_revoke : ℕ → Text → List AdminFetchToken → Terminal × List AdminFetchToken
  ft_revoke now ident table =
      let (table', count) = revoke_admin_fetch_token now ident table in
      elim count [
        | zero ↦ (
          record {
            exit_code = 1;
            stdout = [];
            stderr = (codes "no active tokens matched " ++ repr ident) ∷ [];
          },
          table',
        )
        | suc n ↦ (
          says 0 (
              (codes "revoked " ++ (str (suc n) ++ (codes " token(s) matching " ++ repr ident)))
              ∷ []),
          table',
        )
      ]

  -- A row of the listing, at the reading of the clock.
  abbrev pub list_line : ℕ → FetchTokenSummary → Text
  list_line now r =
      rjust 4 (str r.id)
      ++ (codes "  "
          ++ (ljust 10 r.prefix
              ++ (codes "  "
                  ++ (ljust 28 (take 28 r.label)
                      ++ (codes "  "
                          ++ (ljust 14 (take 14 (or_else r.issued_by (codes "-")))
                              ++ (codes "  "
                                  ++ (ljust 20 (strftime r.expires_at)
                                      ++ (codes "  "
                                          ++ (rjust 4 (str r.use_count)
                                              ++ (codes "  " ++ status_of now r)))))))))))

  -- The loop over the rows; `clock` gives the reading for each row.
  unfoldable pub list_lines : (ℕ → ℕ) → ℕ → List FetchTokenSummary → List Text
  unfolding status_of
  list_lines clock i [] = []
  list_lines clock i (r ∷ rs) = list_line (clock i) r ∷ list_lines clock (i + 1) rs

  abbrev pub list_header : Text
  list_header =
      rjust 4 (codes "ID")
      ++ (codes "  "
          ++ (ljust 10 (codes "PREFIX")
              ++ (codes "  "
                  ++ (ljust 28 (codes "LABEL")
                      ++ (codes "  "
                          ++ (ljust 14 (codes "ISSUED_BY")
                              ++ (codes "  "
                                  ++ (ljust 20 (codes "EXPIRES")
                                      ++ (codes "  "
                                          ++ (rjust 4 (codes "USES") ++ codes "  STATUS"))))))))))

  abbrev pub list_output : Bool → (ℕ → ℕ) → List FetchTokenSummary → Terminal
  list_output include_inactive clock [] =
      says 0
        ((codes "(no tokens)" ++ (if include_inactive then [] else codes " matching filters")) ∷ [])
  list_output include_inactive clock (r ∷ rs) =
      says 0 (list_header ∷ repeated (length list_header) b'-' ∷ list_lines clock 0 (r ∷ rs))

  -- `_ft_list_async`
  unfoldable pub ft_list : ℕ → Bool → (ℕ → ℕ) → List AdminFetchToken → Terminal
  unfolding list_lines
  ft_list now include_inactive clock table =
      list_output include_inactive clock (list_admin_fetch_tokens now include_inactive table)
