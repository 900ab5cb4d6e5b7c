-- ===== src/Factory.antt =====
-- app/routers/factory.py: the installer endpoint. `render` is the template, on its arguments.
pub mod Serve
use mikrotik_cpe_cloud.Base.{
  ℕ, ◌+◌, Bool, true, false, not, ◌&&◌, List, [], ◌∷◌, ◌++◌, Option, none, some, leb, ◌==◌, length,
  if◌then◌else◌,
}
use mikrotik_cpe_cloud.Base.Text.{Text, codes, replace}
use mikrotik_cpe_cloud.Models.{AdminFetchToken, Db}
use mikrotik_cpe_cloud.Config.{Settings}
use mikrotik_cpe_cloud.RateLimit.{check_fetch_rate_limit}
use mikrotik_cpe_cloud.Tokens.{find_valid_admin_token}
use mikrotik_cpe_cloud.Server.{Server, Response, Readings, host_or}

-- `_rsc_error`
unfoldable pub rsc_error : Text → Text
unfolding replace
rsc_error message =
    codes ":log error \"cpe-cloud factory-prep rejected: "
    ++ (replace b'"' b'\'' message ++ codes "\"\n")

-- The `min_length` and `max_length` of the query parameter.
abbrev pub is_query : Text → Bool
is_query t = leb 16 (length t) && leb (length t) 128

-- The arguments of the template.
pub record Installer : Type 0 where
  pub provisioning_secret : Text
  pub enrollment_url : Text
  pub server_fqdn : Text
  pub generated_at : ℕ
  pub token_label : Text

-- The readings of the UTC clock, in the order in which they are made.
pub record Times : Type 0 where
  pub looked_up : ℕ
  pub used : ℕ
  pub generated : ℕ

-- `token_row.last_used_at = …; token_row.use_count += 1`
abbrev pub used_once : ℕ → AdminFetchToken → AdminFetchToken
used_once now row = record row { last_used_at = some now; use_count = row.use_count + 1 }

-- The UPDATE of the row with that primary key.
unfoldable pub put_fetch_token : AdminFetchToken → List AdminFetchToken → List AdminFetchToken
put_fetch_token row [] = []
put_fetch_token row (r ∷ rs) = (if r.id == row.id then row else r) ∷ put_fetch_token row rs

abbrev pub set_fetch_tokens : Server → List AdminFetchToken → Server
set_fetch_tokens s table = record s { db = record s.db { admin_fetch_tokens = table } }

module _ (sha256 : Text → Text) (render : Installer → Text) (settings : Settings) where
  -- From the settings on, for the row that the token has found.
  abbrev pub serve : Times → AdminFetchToken → Server → Response × Server
  serve times row s = elim settings.provisioning_secret_current [
    | [] ↦ (
      record {
        status_code = 500;
        body = rsc_error (codes "server has no active provisioning secret");
      },
      s,
    )
    | c ∷ secret ↦
        let row' = used_once times.used row in
        (
          record {
            status_code = 200;
            body = render (record {
              provisioning_secret = c ∷ secret;
              enrollment_url = settings.enrollment_url;
              server_fqdn = settings.server_fqdn;
              generated_at = times.generated;
              token_label = row'.label;
            });
          },
          set_fetch_tokens s (put_fetch_token row' s.db.admin_fetch_tokens),
        )
  ]

  -- `factory_installer`, with the validation of the query by the framework (422).
  unfoldable pub factory_installer :
      Readings → Times → Option Text → Text → Server → Response × Server
  factory_installer readings times client t s =
      if not (is_query t)
      then (record { status_code = 422; body = [] }, s)
      else let source_ip = host_or (codes "unknown") client in
        let (granted, buckets) =
          check_fetch_rate_limit readings.created readings.now source_ip s.buckets in
        let s' = record s { buckets = buckets } in
        if not granted
        then (record { status_code = 429; body = rsc_error (codes "rate limit exceeded") }, s')
        else elim (find_valid_admin_token sha256 s'.db.admin_fetch_tokens times.looked_up t) [
          | none ↦ (
            record { status_code = 401; body = rsc_error (codes "fetch token expired or invalid") },
            s',
          )
          | some row ↦ serve times row s'
        ]
