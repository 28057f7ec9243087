-- ===== src/Mounting/Path.antt =====
-- `calculate_path`, and the loop of `invoke_mount` that looks for a mount point.
use dtmd.Common.{
  ℕ, zero, suc, Option, none, some, Bool, [], ◌∷◌, ◌++◌, ◌==◌, if◌then◌else◌, Bytes, codes,
}
use dtmd.Misc.Types.{ReturnCode, fail, fatal_error, ErrorCode, generic_error, mount_point_busy}
use dtmd.Config.Values.{MountByValue, mount_by_device_name, mount_by_device_label}
use dtmd.Mounts.Table.{point_mount_count}
use dtmd.Mounting.System.{System}

-- `dtmd_internal_mount_dir`
abbrev pub internal_mount_dir : Bytes
internal_mount_dir = codes "/media"

-- What stands behind the last slash.
unfoldable pub behind_slash : Bytes → Option Bytes
behind_slash [] = none
behind_slash (c ∷ path) = elim (behind_slash path) [
  | some name ↦ some name
  | none ↦ if c == b'/' then some path else none
]

abbrev pub nonempty : Option Bytes → Option Bytes
nonempty none = none
nonempty (some []) = none
nonempty (some (c ∷ text)) = some (c ∷ text)

-- The last part of a mount point, and by what it was chosen.
unfoldable pub mount_name : Bytes → Option Bytes → MountByValue → MountByValue × Option Bytes
mount_name path label mount_by_device_name = (mount_by_device_name, nonempty (behind_slash path))
mount_name path label mount_by_device_label = elim (nonempty label) [
  | some text ↦ (mount_by_device_label, some text)
  | none ↦ (mount_by_device_name, nonempty (behind_slash path))
]

unfoldable pub join_path : Bool → Bytes → Option Bytes → Option Bytes
join_path memory dir none = none
join_path memory dir (some name) = if memory then some (dir ++ (b'/' ∷ name)) else none

unfoldable pub calculate_path :
    Bool → Bytes → Bytes → Option Bytes → MountByValue → MountByValue × Option Bytes
calculate_path memory dir path label mount_type =
    let named = mount_name path label mount_type in (named.0, join_path memory dir named.1)

-- What a round of the loop comes to: another round, an error, or a mount point.
pub data Picked : Type 0 where
  again : MountByValue → Picked
  refuse : ReturnCode → ErrorCode → Picked
  picked : Bytes → Picked

-- Where something is mounted already.
unfoldable pub taken : MountByValue → Picked
taken mount_by_device_label = again mount_by_device_name
taken mount_by_device_name = refuse fail mount_point_busy

unfoldable pub try_point : System → ℕ → MountByValue × Option Bytes → Picked
try_point sys n (mount_type, none) = refuse fatal_error generic_error
try_point sys n (mount_type, some point) = elim (point_mount_count (sys.tables n) point 1) [
  | none ↦ refuse fatal_error generic_error
  | some count ↦ if count == 0 then picked point else taken mount_type
]

unfoldable pub pick_point : System → ℕ → ℕ → Bytes → Bytes → Option Bytes → MountByValue → Picked
pick_point sys zero n dir path label mount_type = again mount_type
pick_point sys (suc fuel) n dir path label mount_type =
    elim (try_point sys n (calculate_path (sys.path_memory n) dir path label mount_type)) [
      | again other ↦ pick_point sys fuel (suc n) dir path label other
      | refuse rc error_code ↦ refuse rc error_code
      | picked point ↦ picked point
    ]
