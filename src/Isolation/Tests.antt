-- ===== src/Isolation/Tests.antt =====
-- Runs of isolation.go's functions on kernels that are written out.
use bcs_zc241t_study_project.Prelude.{
  ◌+◌, ◌==◌, if◌then◌else◌, ℕ, List, Result, ok, err, ◌≡◌, refl, true, false, none, some, [], ◌∷◌,
  codes,
}
use bcs_zc241t_study_project.Config.Types.{BindMount}
use bcs_zc241t_study_project.Isolation.Calls.{Kernel, directory_type, Log}
use bcs_zc241t_study_project.Isolation.Mounts.{attach_bind_mount}
use bcs_zc241t_study_project.Isolation.Devices.{attach_private_dev}
use bcs_zc241t_study_project.Isolation.Targets.{interactive_device_source}
use bcs_zc241t_study_project.Isolation.Stage.{
  Stage, fresh_stage, cleanup, create_overlay_root, close_owned_fd, detach, remove_stage,
}
use bcs_zc241t_study_project.Isolation.Balance.{Leaves, nothing}
use bcs_zc241t_study_project.Isolation.Balanced.{attach_bind_mount-Leaves}
use bcs_zc241t_study_project.Isolation.Walked.{IsClosing}
use bcs_zc241t_study_project.Isolation.Released.{Spills, attach_private_dev-Spills}
use bcs_zc241t_study_project.Isolation.Staged.{Made, cleaning, cleanup-cleanup}
use bcs_zc241t_study_project.Isolation.Filled.{both}
use bcs_zc241t_study_project.Isolation.Overlay.{create_overlay_root-Leaves}
use bcs_zc241t_study_project.Isolation.Sources.{
  open_trusted_device_sources, open_devices, close_trusted_device_sources,
}
use bcs_zc241t_study_project.Isolation.Held.{holds, open_trusted_device_sources-Leaves}
use bcs_zc241t_study_project.Isolation.Trusted.{AreTrusted, open_trusted_device_sources-AreTrusted}
use bcs_zc241t_study_project.Isolation.Targets.{trusted_device_sources, require_character_device}
use bcs_zc241t_study_project.Isolation.Devices.{HeldDevice}
use bcs_zc241t_study_project.Isolation.Mounts.{open_secure}
use bcs_zc241t_study_project.Isolation.Calls.{Fd, FsError, acquire, fstat, answered, character_type}

-- Every call succeeds, and every descriptor is a directory.
abbrev willing : Kernel
willing = record {
  answer = λ log c. none;
  stat = λ log fd. some (record { kind = directory_type; major = 0; minor = 0; dev = 1; ino = 1 });
  filesystem = λ log fd. some 0;
  temporary = λ log. codes "/tmp/root-1";
}

willing-IsClosing : IsClosing willing
willing-IsClosing log fd = refl

abbrev staged_root : Stage
staged_root = record (fresh_stage (codes "/tmp/root-1")) {
  attached = true;
  stage_fd = some 7;
  lower_fd = some 5;
}

abbrev log_after : Log
log_after = (cleanup willing staged_root []).2

attach_private_dev-Spills_example :
    Spills (attach_private_dev willing 0 1 ((interactive_device_source, 2) ∷ []))
attach_private_dev-Spills_example = attach_private_dev-Spills willing willing-IsClosing 0 1 _

cleanup-cleanup_example :
    Made willing (cleaning staged_root) [] log_after
    × (fresh_stage [] ≡ fresh_stage [])
    × (cleanup willing (fresh_stage []) log_after ≡ (fresh_stage [], [], log_after))
unfolding cleanup close_owned_fd detach remove_stage
cleanup-cleanup_example =
    cleanup-cleanup willing staged_root (fresh_stage []) [] log_after log_after refl

create_overlay_root-Leaves_example : Leaves both (create_overlay_root willing 3)
create_overlay_root-Leaves_example = create_overlay_root-Leaves willing 3

abbrev home : BindMount
home = record { host_path = codes "/home/a"; container_path = codes "/home"; writable = false }

attach_bind_mount-Leaves_example : Leaves nothing (attach_bind_mount willing 0 1 home 2 true)
attach_bind_mount-Leaves_example = attach_bind_mount-Leaves willing 0 1 home 2 true

-- Every descriptor is the null device; the second device of the table is then refused.
abbrev nulls : Kernel
nulls = record willing {
  stat = λ log fd. some (record { kind = character_type; major = 1; minor = 3; dev = 1; ino = 1 });
}

open_trusted_device_sources-Leaves_example : Leaves holds (open_trusted_device_sources nulls true)
open_trusted_device_sources-Leaves_example = open_trusted_device_sources-Leaves nulls true

-- The descriptors 0, 1, … are the devices of the table.
abbrev minor_of : Fd → ℕ
minor_of fd = if fd == 0 then 3 else if fd == 1 then 5 else if fd == 2 then 7 else fd + 5

abbrev devices_kernel : Kernel
devices_kernel = record willing {
  stat = λ log fd.
      some (record { kind = character_type; major = 1; minor = minor_of fd; dev = 1; ino = fd });
}

abbrev held_in : Result FsError (List HeldDevice) → List HeldDevice
held_in (ok held) = held
held_in (err e) = []

abbrev opened_sources : Result FsError (List HeldDevice) × Log
opened_sources = open_trusted_device_sources devices_kernel false []

abbrev source_devices : List HeldDevice
source_devices = held_in opened_sources.0

open_trusted_device_sources-AreTrusted_example :
    AreTrusted devices_kernel (trusted_device_sources false) source_devices
unfolding open_trusted_device_sources open_devices require_character_device open_secure acquire
    fstat answered close_trusted_device_sources trusted_device_sources
open_trusted_device_sources-AreTrusted_example =
    open_trusted_device_sources-AreTrusted devices_kernel false [] opened_sources.1 source_devices
      refl
