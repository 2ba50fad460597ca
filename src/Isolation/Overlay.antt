-- ===== src/Isolation/Overlay.antt =====
-- Which descriptors `createOverlayRoot` of isolation.go leaves open.
use bcs_zc241t_study_project.Prelude.{◌+◌, ◌≡◌, refl, true, none, some, [], Result, ok, err, arith}
use bcs_zc241t_study_project.Text.{Text}
use bcs_zc241t_study_project.Isolation.Calls.{
  Fd, make_temporary, Log, Kernel, FsError, Exec, perform,
}
use bcs_zc241t_study_project.Isolation.Stage.{
  Stage, fresh_stage, made, close_step, mount_stage, create_overlay_root,
}
use bcs_zc241t_study_project.Isolation.Balance.{one, Left, left_by, Leaves, nothing, Leaves-perform}
use bcs_zc241t_study_project.Isolation.Balanced.{
  open_secure-Leaves, move-Leaves, mount_tmpfs_with_mode-Leaves,
}
use bcs_zc241t_study_project.Isolation.Owned.{owns, Takes}
use bcs_zc241t_study_project.Isolation.Steps.{Takes-staged, Takes-close, Takes-due}
use bcs_zc241t_study_project.Isolation.Filled.{both, holding, Takes-step, fill_stage-Takes}

module _ (k : Kernel) where
  -- The staging mount, and the directory that it hides, once the mount is attached.
  attached_owns :
      (path : Text) (mount dir x : Fd)
      → one mount x + (one dir x + owns (holding path none none none none) x)
        ≡ 0 + owns (record (fresh_stage path) { stage_fd = some dir; staging_mount = some mount }) x
  unfolding owns
  attached_owns path mount dir x = omega arith

  staging_owns :
      (path : Text) (dir mount x : Fd)
      → one mount x + owns (record (fresh_stage path) { stage_fd = some dir }) x
        ≡ owns (record (fresh_stage path) { stage_fd = some dir; staging_mount = some mount }) x
  unfolding owns
  staging_owns path dir mount x = omega arith

  opened_owns :
      (path : Text) (dir x : Fd)
      → one dir x + owns (fresh_stage path) x
        ≡ owns (record (fresh_stage path) { stage_fd = some dir }) x
  unfolding owns
  opened_owns path dir x = omega arith

  hidden_owns :
      (path : Text) (dir x : Fd)
      → owns (holding path (some dir) none none none) x
        ≡ one dir x + owns (holding path none none none none) x
  unfolding owns
  hidden_owns path dir x = omega arith

  fresh_owns : (path : Text) (x : Fd) → 0 ≡ owns (fresh_stage path) x
  unfolding owns
  fresh_owns path x = omega arith

  inner_owns :
      (path : Text) (inner x : Fd)
      → one inner x + owns (holding path none none none none) x
        ≡ owns (holding path (some inner) none none none) x
  unfolding owns
  inner_owns path inner x = omega arith

  -- From the mount of the staging filesystem on.
  remounted-Takes :
      (path : Text) (mount dir : Fd) (next : Exec (Fd × Stage))
      → Takes (owns (holding path none none none none)) both next
      → Takes
          (λ x.
            0
            + owns
                (record (fresh_stage path) { stage_fd = some dir; staging_mount = some mount })
                x)
          both
          (close_step k
            (holding path (some dir) none none none)
            (some mount)
            (close_step k (holding path none none none none) (some dir) next))
  remounted-Takes path mount dir next q =
      Takes-due k both (λ x. one mount x + owns (holding path (some dir) none none none) x) _ _
        (λ x. omega (arith, attached_owns path mount dir x, hidden_owns path dir x))
        (Takes-close k both (holding path (some dir) none none none) (some mount) _ (
          Takes-due k both (λ x. one dir x + owns (holding path none none none none) x) _ _
            (hidden_owns path dir)
            (Takes-close k both (holding path none none none none) (some dir) next q)))

  mount_stage-Takes : (root : Fd) (path : Text) → Takes (λ x. 0) both (mount_stage k root path)
  unfolding mount_stage
  mount_stage-Takes root path = Takes-due k both (owns (fresh_stage path)) _ _ (fresh_owns path) (
      Takes-step k one (fresh_stage path) (λ dir. record (fresh_stage path) { stage_fd = some dir })
        _ _ (opened_owns path) (open_secure-Leaves k path true)
        λ dir.
          Takes-step k one _
            (λ mount. record (fresh_stage path) { stage_fd = some dir; staging_mount = some mount })
            _ _ (staging_owns path dir) (mount_tmpfs_with_mode-Leaves k [])
            λ mount. Takes-staged k both nothing _ _ _ (move-Leaves k mount dir) λ _.
              remounted-Takes path mount dir _ (
                Takes-step k one _ (λ inner. holding path (some inner) none none none) _ _
                  (inner_owns path) (open_secure-Leaves k path true)
                  λ inner. fill_stage-Takes k root inner path))

  -- `createOverlayRoot`, wherever it fails: on success what it opened is closed but for the overlay and
  -- what its stage lists; on a failure everything that it opened has been closed, once.
  pub create_overlay_root-Leaves : (root : Fd) → Leaves both (create_overlay_root k root)
  unfolding create_overlay_root
  create_overlay_root-Leaves root = record {
    at = λ log x.
        let path = k.temporary log in
        settled path (perform k (make_temporary path) log).0 log
          (perform k (make_temporary path) log).1 x
          ((Leaves-perform k (make_temporary path) refl).at log x);
  }
    where
      settled :
          (path : Text) (r : Result FsError (Unit {0})) (j log : Log) (x : Fd)
          → Left x (left_by nothing r x) j log
          → let end = made k root path (r, log) in Left x (left_by both end.0 x) j end.1
      settled path (ok _) j log x p = (mount_stage-Takes root path).at j log x p
      settled path (err e) j log x p = p
