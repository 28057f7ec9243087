-- ===== src/Options/Mounting.antt =====
-- The mount options that `invoke_mount` of daemon/filesystem_mnt.c makes of a client's request,
-- between the lookup of the file system and the mount.
use dtmd.Common.{ℕ, Option, none, some, List, Bytes}
use dtmd.Misc.Types.{
  ReturnCode, success, ErrorCode, failed_parsing_mount_options, generic_error, unsupported_fstype,
  fail,
}
use dtmd.Config.MountOpts.{ConfigMountOpts, get_mount_options}
use dtmd.Options.Types.{FilesystemOptions, FsoptsList, init_options_list}
use dtmd.Options.Convert.{OptionAllocator, get_fsopts_for_fs, convert_options_to_list}

-- The name under which the configuration has a file system's options.
unfoldable pub config_fstype : FilesystemOptions → Bytes
config_fstype fs = elim fs.external_fstype [ none ↦ fs.fstype | some name ↦ name ]

-- The first that is there.
abbrev pub or_else : Option Bytes → Bytes → Bytes
or_else none default = default
or_else (some options) default = options

-- The options that the client gives, or the configured ones, or the file system's own.
unfoldable pub asked_options : List ConfigMountOpts → FilesystemOptions → Option Bytes → Bytes
asked_options defaults fs (some options) = options
asked_options defaults fs none = or_else (get_mount_options (config_fstype fs) defaults) fs.defaults

unfoldable pub forced_options : List ConfigMountOpts → FilesystemOptions → Bytes
forced_options mandatory fs =
    or_else (get_mount_options (config_fstype fs) mandatory) fs.mandatory_options

-- The two conversions, on one list; an error comes with the code that the client is told.
pub data Prepared : Type 0 where
  refused : ReturnCode → ErrorCode → Prepared
  prepared : FsoptsList → Prepared

unfoldable pub force_options :
    OptionAllocator → List ConfigMountOpts → FilesystemOptions → FsoptsList → Prepared
force_options alloc mandatory fs l =
    let forced =
      convert_options_to_list alloc (some (forced_options mandatory fs)) (some fs) none none l in
    elim forced.0 [ success ↦ prepared forced.1 | failure ↦ refused failure generic_error ]

unfoldable pub prepare_for_fs :
    OptionAllocator
    → OptionAllocator
    → List ConfigMountOpts
    → List ConfigMountOpts
    → FilesystemOptions
    → Option Bytes
    → ℕ
    → ℕ
    → Prepared
prepare_for_fs alloc again defaults mandatory fs mount_options uid gid =
    let asked =
      convert_options_to_list alloc (some (asked_options defaults fs mount_options)) (some fs)
        (some uid) (some gid) init_options_list in
    elim asked.0 [
      | success ↦ force_options again mandatory fs asked.1
      | failure ↦ refused failure failed_parsing_mount_options
    ]

unfoldable pub prepare_options :
    OptionAllocator
    → OptionAllocator
    → List ConfigMountOpts
    → List ConfigMountOpts
    → Bytes
    → Option Bytes
    → ℕ
    → ℕ
    → Prepared
prepare_options alloc again defaults mandatory fstype mount_options uid gid =
    elim (get_fsopts_for_fs fstype) [
      | none ↦ refused fail unsupported_fstype
      | some fs ↦ prepare_for_fs alloc again defaults mandatory fs mount_options uid gid
    ]
