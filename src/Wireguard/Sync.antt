-- ===== src/Wireguard/Sync.antt =====
-- `sync_from_db`: what is in the file after it, and that a second call writes the same file.
use mikrotik_cpe_cloud.Base.{ℕ, ◌%◌, ◌^◌, ◌≡◌, refl, ◌⊎◌, Option, none, some, List, arith, length}
use mikrotik_cpe_cloud.Base.Text.{Text}
use mikrotik_cpe_cloud.Base.Result.{Result, ok, err, Exn, os_error, runtime_error}
use mikrotik_cpe_cloud.Models.{Router}
use mikrotik_cpe_cloud.Config.{Settings}
use mikrotik_cpe_cloud.Wireguard.{
  PeerRow, SyncSummary, interface_block, read_interface_block, render_config, fetch_active_peers,
  write_and_reload, sync_from_db,
}
use mikrotik_cpe_cloud.Wireguard.Conf.{interface_block-render_config}
use mikrotik_cpe_cloud.Wireguard.File.{Dir, Fault, write_atomic}

-- The file is replaced as a whole, with its permission bits, or it and its mode are as they were
-- and the error is raised; in both cases no temporary file is left.
pub write_atomic_lem :
    (fault : Option Fault) (content : Text) (dir : Dir)
    → dir.temp ≡ none
    → let (result, dir') = write_atomic fault content dir in
      (((result ≡ ok tt) × (dir'.conf ≡ some content) × (dir'.mode ≡ dir.mode % 2 ^ 12))
        ⊎ ((result ≡ err os_error) × (dir'.conf ≡ dir.conf) × (dir'.mode ≡ dir.mode)))
      × (dir'.temp ≡ none)
unfolding write_atomic
write_atomic_lem fault content dir h = ground arith

module _ (settings : Settings) (routers : List Router) where
  -- `sync_from_db` where the peers are found and the file is there.
  sync_from_db-step :
      (fault : Option Fault) (rc : ℕ) (dir : Dir) (peers : List PeerRow) (content : Text)
      → fetch_active_peers routers ≡ ok peers
      → dir.conf ≡ some content
      → sync_from_db settings routers fault rc dir
        ≡ write_and_reload settings fault rc
            (render_config (interface_block content) peers)
            (length peers)
            dir
  unfolding sync_from_db read_interface_block
  sync_from_db-step fault rc dir peers content f c = ground arith

  -- Elsewhere nothing is written.
  sync_from_db-err :
      (fault : Option Fault) (rc : ℕ) (dir : Dir) (e : Exn)
      → (fetch_active_peers routers ≡ err e)
      → sync_from_db settings routers fault rc dir ≡ (err e, dir)
  unfolding sync_from_db
  sync_from_db-err fault rc dir e f = rw (f, sync_from_db)

  sync_from_db-missing :
      (fault : Option Fault) (rc : ℕ) (dir : Dir) (peers : List PeerRow)
      → fetch_active_peers routers ≡ ok peers
      → dir.conf ≡ none
      → sync_from_db settings routers fault rc dir ≡ (err runtime_error, dir)
  unfolding sync_from_db read_interface_block
  sync_from_db-missing fault rc dir peers f c = ground arith

  write_and_reload-ok :
      (fault : Option Fault) (rc : ℕ) (rendered old : Text) (count : ℕ) (dir : Dir)
      (summary : SyncSummary)
      → dir.conf ≡ some old
      → (write_and_reload settings fault rc rendered count dir).0 ≡ ok summary
      → ((write_and_reload settings fault rc rendered count dir).1.conf ≡ some rendered)
        × (summary.peers_synced ≡ count)
  unfolding write_atomic
  write_and_reload-ok fault rc rendered old count dir summary c h = ground arith

  -- After `sync_from_db` has returned, the file is the rendering of the active peers behind the part
  -- that is kept of the old file, and the summary counts these peers.
  pub sync_from_db-ok :
      (fault : Option Fault) (rc : ℕ) (dir : Dir) (summary : SyncSummary)
      → (sync_from_db settings routers fault rc dir).0 ≡ ok summary
      → (peers : List PeerRow) × (content : Text) × (fetch_active_peers routers ≡ ok peers)
        × (dir.conf ≡ some content)
        × ((sync_from_db settings routers fault rc dir).1.conf
            ≡ some (render_config (interface_block content) peers))
        × (summary.peers_synced ≡ length peers)
  sync_from_db-ok fault rc dir summary h = go (fetch_active_peers routers) dir.conf refl refl
    where
      Goal : Type 0
      Goal =
          (peers : List PeerRow) × (content : Text) × (fetch_active_peers routers ≡ ok peers)
          × (dir.conf ≡ some content)
          × ((sync_from_db settings routers fault rc dir).1.conf
              ≡ some (render_config (interface_block content) peers))
          × (summary.peers_synced ≡ length peers)

      go :
          (r : Result (List PeerRow)) (c : Option Text)
          → fetch_active_peers routers ≡ r
          → dir.conf ≡ c
          → Goal
      go (err e) c f g = absurd (ground (arith, sync_from_db-err fault rc dir e f, h))
      go (ok peers) none f g =
          absurd (ground (arith, sync_from_db-missing fault rc dir peers f g, h))
      go (ok peers) (some content) f g =
          let s = sync_from_db-step fault rc dir peers content f g in
          let w =
            write_and_reload-ok fault rc (render_config (interface_block content) peers) content
              (length peers) dir summary g (rw s at h) in
          (peers, content, f, g, rw s w.0, w.1)

  write_and_reload-conf :
      (rc : ℕ) (rendered old : Text) (count : ℕ) (dir : Dir)
      → dir.conf ≡ some old
      → (write_and_reload settings none rc rendered count dir).1.conf ≡ some rendered
  unfolding write_atomic
  write_and_reload-conf rc rendered old count dir c = ground arith

  write_and_reload_same :
      (fault : Option Fault) (rc : ℕ) (rendered : Text) (count : ℕ) (dir : Dir)
      → dir.conf ≡ some rendered
      → (write_and_reload settings fault rc rendered count dir).1.conf ≡ some rendered
  unfolding write_atomic
  write_and_reload_same fault rc rendered count dir c = ground arith

  -- A call of `sync_from_db` that comes after one in which no system call failed, on the same rows,
  -- leaves the file as it is, whatever fails in it and whatever the helper's exit statuses are.
  pub sync_twice :
      (fault : Option Fault) (rc rc' : ℕ) (dir : Dir)
      → let dir' = (sync_from_db settings routers none rc dir).1 in
        (sync_from_db settings routers fault rc' dir').1.conf ≡ dir'.conf
  sync_twice fault rc rc' dir = go (fetch_active_peers routers) dir.conf refl refl
    where
      Goal : Type 0
      Goal =
          let dir' = (sync_from_db settings routers none rc dir).1 in
          (sync_from_db settings routers fault rc' dir').1.conf ≡ dir'.conf

      go :
          (r : Result (List PeerRow)) (c : Option Text)
          → fetch_active_peers routers ≡ r
          → dir.conf ≡ c
          → Goal
      go (err e) c f g = rw (sync_from_db-err none rc dir e f, sync_from_db-err fault rc' dir e f)
      go (ok peers) none f g =
          rw (
            sync_from_db-missing none rc dir peers f g,
            sync_from_db-missing fault rc' dir peers f g,
          )
      go (ok peers) (some content) f g =
          let rendered = render_config (interface_block content) peers in
          let dir' = (write_and_reload settings none rc rendered (length peers) dir).1 in
          let c = write_and_reload-conf rc rendered content (length peers) dir g in
          rw
            (
              sync_from_db-step none rc dir peers content f g,
              sync_from_db-step fault rc' dir' peers rendered f c,
              interface_block-render_config content peers,
              c,
            )
            (write_and_reload_same fault rc' rendered (length peers) dir' c)
