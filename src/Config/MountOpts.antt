-- ===== src/Config/MountOpts.antt =====
-- The arrays of mount options per file system: what inserts into them, and the lookups.
use dtmd.Common.{Bool, Option, none, some, List, [], ◌∷◌, if◌then◌else◌, Bytes, str_eq}
use dtmd.Misc.Types.{ReturnCode, success, fail, fatal_error}

-- `config_mount_opts`; the code keeps no entry without a name or without options.
pub record ConfigMountOpts : Type 0 where
  pub fs_type : Bytes
  pub opts : Bytes

unfoldable pub get_mount_options : Bytes → List ConfigMountOpts → Option Bytes
get_mount_options fstype [] = none
get_mount_options fstype (entry ∷ array) =
    if str_eq fstype entry.fs_type then some entry.opts else get_mount_options fstype array

-- The result and the array: `result_fail` says that the name was there and has other options
-- now. The flag is whether the two allocations for a new entry succeed.
unfoldable pub insert_mount_opts :
    Bool → Bytes → Bytes → List ConfigMountOpts → ReturnCode × List ConfigMountOpts
insert_mount_opts allocated fs_name fs_opts [] =
    if allocated
    then (success, record { fs_type = fs_name; opts = fs_opts } ∷ [])
    else (fatal_error, [])
insert_mount_opts allocated fs_name fs_opts (entry ∷ array) =
    let rest = insert_mount_opts allocated fs_name fs_opts array in
    if str_eq fs_name entry.fs_type
    then (fail, record entry { opts = fs_opts } ∷ array)
    else (rest.0, entry ∷ rest.1)
