-- ===== src/Fleet/Fetch.antt =====
-- From the issue of a fetch token to the installer.
use mikrotik_cpe_cloud.Base.{
  ℕ, ◌+◌, ◌*◌, ◌≤◌, ◌≡◌, ◌≢◌, ap, ◌∙◌, Bool, true, false, List, [], Option, none, some, arith, ltb,
  leb, ◌&&◌, length, if◌then◌else◌,
}
use mikrotik_cpe_cloud.Base.Text.{Text}
use mikrotik_cpe_cloud.Base.Int.{pos}
use mikrotik_cpe_cloud.Models.{AdminFetchToken}
use mikrotik_cpe_cloud.Config.{Settings}
use mikrotik_cpe_cloud.Tokens.{
  issue_admin_fetch_token, MintedFetchToken, ok, mint_token, hour, find_valid_admin_token,
}
use mikrotik_cpe_cloud.Tokens.Mint.{length-mint}
use mikrotik_cpe_cloud.Tokens.Admin.{find-issue}
use mikrotik_cpe_cloud.Server.{Server, Readings}
use mikrotik_cpe_cloud.Factory.{Installer, Times, is_query, factory_installer}
use mikrotik_cpe_cloud.Fleet.Reach.{with_fetch_tokens}

-- The answer for a token of the right length, by what the lookup finds, if no limit is met.
factory_installer-granted :
    (sha256 : Text → Text) (render : Installer → Text) (settings : Settings) (readings : Readings)
    (times : Times) (client : Option Text) (t : Text) (s : Server) (row : AdminFetchToken)
    (b : Bool)
    → is_query t ≡ true
    → settings.provisioning_secret_current ≢ []
    → find_valid_admin_token sha256 s.db.admin_fetch_tokens times.looked_up t
      ≡ (if b then some row else none)
    → let reply = (factory_installer sha256 render settings readings times client t s).0 in
      reply.status_code ≢ 429 → reply.status_code ≡ (if b then 200 else 401)
unfolding factory_installer
factory_installer-granted sha256 render settings readings times client t s row true q n f h =
    ground arith
factory_installer-granted sha256 render settings readings times client t s row false q n f h =
    ground arith

module _ (sha256 : Text → Text) (render : Installer → Text) (settings : Settings) (s : Server)
    (created now : ℕ) (random : List ℕ) (label : Text) (hours : ℕ) (issued_by : Option Text)
    (minted : MintedFetchToken) (table : List AdminFetchToken) where
  issued-raw :
      issue_admin_fetch_token sha256 s.db.admin_fetch_tokens s.db.next_fetch_token created now
          random label
          (pos hours)
          issued_by
        ≡ ok (minted, table)
      → minted.raw ≡ mint_token random
  unfolding issue_admin_fetch_token
  issued-raw h = ground arith

  -- With a current secret set, and unless the answer is 429, the installer is served (200) for a fetch
  -- token that has just been issued from 32 of at least 48 random bytes if it is looked up within
  -- `ttl_hours` hours of its issue, and is refused (401) from then on.
  pub fetch_after_issue :
      48 ≤ length random
      → settings.provisioning_secret_current ≢ []
      → issue_admin_fetch_token sha256 s.db.admin_fetch_tokens s.db.next_fetch_token created now
          random label
          (pos hours)
          issued_by
        ≡ ok (minted, table)
      → (readings : Readings) (times : Times) (client : Option Text)
      → let reply =
          (factory_installer sha256 render settings readings times client minted.raw
            (with_fetch_tokens s table (s.db.next_fetch_token + 1))).0 in
        reply.status_code ≢ 429
        → reply.status_code ≡ (if ltb times.looked_up (now + hours * hour) then 200 else 401)
  fetch_after_issue long secret h readings times client limit =
      let size : length minted.raw ≡ 43 = ap length (issued-raw h) ∙ (length-mint random long).0 in
      factory_installer-granted sha256 render settings readings times client minted.raw
        (with_fetch_tokens s table (s.db.next_fetch_token + 1)) minted.row
        (ltb times.looked_up (now + hours * hour)) (in_range (length minted.raw) size) secret
        (find-issue sha256 s.db.admin_fetch_tokens s.db.next_fetch_token created now random label
          hours issued_by minted table h times.looked_up)
        limit
    where
      in_range : (n : ℕ) → n ≡ 43 → (leb 16 n && leb n 128) ≡ true
      in_range n e = ground (arith, e)
