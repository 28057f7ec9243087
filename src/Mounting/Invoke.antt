-- ===== src/Mounting/Invoke.antt =====
-- `invoke_mount`. Its pointer to the error code is not NULL, as in its call.
use dtmd.Common.{
  ℕ, Option, none, some, List, [], ◌∷◌, ◌++◌, if◌then◌else◌, Bytes, Outcome, ok, out_of_fuel,
}
use dtmd.Misc.Types.{
  ReturnCode, fail, client_error, ErrorCode, no_such_removable_device, fstype_not_recognized,
  device_already_mounted, generic_error, unsupported_fstype, mount_point_busy, is_successful,
}
use dtmd.Media.Tree.{MediaInfo, Media, root_device_path, find_media}
use dtmd.Config.Values.{Config}
use dtmd.Options.Types.{FilesystemOptions, FsoptsList}
use dtmd.Options.Convert.{get_fsopts_for_fs}
use dtmd.Options.Mounting.{or_else, Prepared, refused, prepared, prepare_for_fs}
use dtmd.Mounting.System.{System, SystemCall, not_dir, empty, not_empty, mkdir, rmdir, Request}
use dtmd.Mounting.Path.{internal_mount_dir, again, refuse, picked, pick_point}
use dtmd.Mounting.Command.{mount_device}

abbrev pub refusal : ReturnCode → ErrorCode → List SystemCall → Request
refusal rc error_code calls = record { rc = rc; error_code = some error_code; calls = calls }

-- Behind the directory of the mount point: a mount that fails is followed by `rmdir`.
unfoldable pub finish_mount : Bytes → List SystemCall → ReturnCode × List SystemCall → Request
finish_mount mount_path before done =
    if is_successful done.0
    then record { rc = done.0; error_code = none; calls = before ++ done.1 }
    else refusal done.0 generic_error (before ++ (done.1 ++ rmdir mount_path ∷ []))

unfoldable pub mount_at : System → Bytes → FilesystemOptions → FsoptsList → Bytes → Request
mount_at sys path fs l mount_path =
    let done = mount_device sys path mount_path fs l in
    elim (sys.dir_state mount_path) [
      | not_dir ↦
          if sys.mkdir_done mount_path
          then finish_mount mount_path (mkdir mount_path ∷ []) done
          else refusal fail mount_point_busy (mkdir mount_path ∷ [])
      | empty ↦ finish_mount mount_path [] done
      | not_empty ↦ finish_mount mount_path [] done
    ]

-- The loop that looks for a mount point makes two rounds at most.
unfoldable pub mount_prepared :
    System → Config → Bytes → Option Bytes → FilesystemOptions → FsoptsList → Outcome Request
mount_prepared sys c path label fs l =
    elim (pick_point sys 2 0 (or_else c.mount_dir internal_mount_dir) path label c.mount_by_value) [
      | again other ↦ out_of_fuel
      | refuse rc error_code ↦ ok (refusal rc error_code [])
      | picked mount_path ↦ ok (mount_at sys path fs l mount_path)
    ]

abbrev pub mount_with :
    System → Config → Bytes → Option Bytes → FilesystemOptions → Prepared → Outcome Request
mount_with sys c path label fs (refused rc error_code) = ok (refusal rc error_code [])
mount_with sys c path label fs (prepared l) = mount_prepared sys c path label fs l

unfoldable pub mount_as :
    System → Config → Bytes → Option Bytes → Bytes → Option Bytes → ℕ × ℕ → Outcome Request
mount_as sys c path label fstype mount_options (uid, gid) = elim (get_fsopts_for_fs fstype) [
  | none ↦ ok (refusal fail unsupported_fstype [])
  | some fs ↦ mount_with sys c path label fs (
      prepare_for_fs sys.asked_memory sys.forced_memory c.default_mount_opts c.mandatory_mount_opts
        fs mount_options uid gid)
]

-- A device that is known.
unfoldable pub mount_found : System → Config → Bytes → Option Bytes → MediaInfo → Outcome Request
mount_found sys c path mount_options i = elim i.fstype [
  | none ↦ ok (refusal fail fstype_not_recognized [])
  | some fstype ↦ elim i.mnt_point [
    | some point ↦ ok (refusal fail device_already_mounted [])
    | none ↦ elim sys.credentials [
      | none ↦ ok (refusal client_error generic_error [])
      | some ids ↦ mount_as sys c path i.label fstype mount_options ids
    ]
  ]
]

unfoldable pub invoke_mount : System → Config → Media → Bytes → Option Bytes → Outcome Request
invoke_mount sys c root path mount_options = elim (find_media path root_device_path root) [
  | none ↦ ok (refusal fail no_such_removable_device [])
  | some f ↦ mount_found sys c path mount_options f.info
]
