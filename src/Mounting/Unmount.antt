-- ===== src/Mounting/Unmount.antt =====
-- `invoke_unmount` and `invoke_unmount_all`.
use dtmd.Common.{
  ℕ, ◌+◌, Option, none, some, List, [], ◌∷◌, ◌++◌, ◌==◌, if◌then◌else◌, length, Bytes, codes,
}
use dtmd.Misc.Types.{
  ReturnCode, success, fail, fatal_error, no_such_removable_device, device_not_mounted,
  generic_error, unsupported_fstype, mount_point_busy, is_successful, is_fatal_error,
}
use dtmd.Media.Tree.{MediaInfo, Media, null, node, root_device_path, find_media}
use dtmd.Options.Types.{FilesystemOptions}
use dtmd.Options.Convert.{get_fsopts_for_fs}
use dtmd.Mounts.Table.{point_mount_count}
use dtmd.Mounting.System.{
  System, SystemCall, not_dir, empty, not_empty, rmdir, run, umount, unmounted, busy, in_error,
  Request,
}
use dtmd.Mounting.Invoke.{refusal}

unfoldable pub unmount_command : Bytes → Bytes → Bytes
unmount_command fstype mnt_point =
    codes "umount" ++ (codes " -t " ++ (fstype ++ (codes " \"" ++ (mnt_point ++ codes "\""))))

unfoldable pub unmount_cmd_len : Bytes → Bytes → ℕ
unmount_cmd_len fstype mnt_point =
    length (codes "umount") + length (codes " -t ") + length fstype + 2 + length mnt_point + 1

abbrev pub unmounted_by : List SystemCall → Request
unmounted_by calls = record { rc = success; error_code = none; calls = calls }

unfoldable pub invoke_unmount_external : System → Bytes → Bytes → Request
invoke_unmount_external sys mnt_point fstype =
    let command = unmount_command fstype mnt_point in
    if sys.command_memory
    then (if sys.status command == 0
        then unmounted_by (run command ∷ [])
        else refusal fail generic_error (run command ∷ []))
    else refusal fatal_error generic_error []

-- Where exactly one thing is mounted.
unfoldable pub umount_point : System → Bytes → Request
umount_point sys mnt_point = elim (sys.umount_answer mnt_point) [
  | unmounted ↦ unmounted_by (umount mnt_point ∷ [])
  | busy ↦ refusal fail mount_point_busy (umount mnt_point ∷ [])
  | in_error ↦ refusal fail generic_error (umount mnt_point ∷ [])
]

unfoldable pub invoke_unmount_internal : System → Bytes → Request
invoke_unmount_internal sys mnt_point = elim (point_mount_count (sys.tables 0) mnt_point 2) [
  | none ↦ refusal fatal_error generic_error []
  | some count ↦
      if count == 1 then umount_point sys mnt_point else refusal fail device_not_mounted []
]

-- A directory that is left empty is removed.
unfoldable pub finish_unmount : System → Bytes → Request → Request
finish_unmount sys mnt_point r =
    if is_successful r.rc
    then elim (sys.dir_state mnt_point) [
      | empty ↦ record r { calls = r.calls ++ rmdir mnt_point ∷ [] }
      | not_dir ↦ r
      | not_empty ↦ r
    ]
    else r

unfoldable pub unmount_with : System → Bytes → Option FilesystemOptions → Request
unmount_with sys mnt_point none = refusal fail unsupported_fstype []
unmount_with sys mnt_point (some fs) = finish_unmount sys mnt_point (elim fs.external_fstype [
  | some fstype ↦ invoke_unmount_external sys mnt_point fstype
  | none ↦ invoke_unmount_internal sys mnt_point
])

-- `get_fsopts_for_fs` returns NULL for NULL.
unfoldable pub invoke_unmount_common : System → Bytes → Option Bytes → Request
invoke_unmount_common sys mnt_point none = refusal fail unsupported_fstype []
invoke_unmount_common sys mnt_point (some fstype) =
    unmount_with sys mnt_point (get_fsopts_for_fs fstype)

unfoldable pub unmount_found : System → MediaInfo → Request
unmount_found sys i = elim i.mnt_point [
  | none ↦ refusal fail device_not_mounted []
  | some mnt_point ↦ invoke_unmount_common sys mnt_point i.fstype
]

unfoldable pub invoke_unmount : System → Media → Bytes → Request
invoke_unmount sys root path = elim (find_media path root_device_path root) [
  | none ↦ refusal fail no_such_removable_device []
  | some f ↦ unmount_found sys f.info
]

-- What the functions on several devices return; the answers are given for each device.
abbrev pub Swept : Type 0
Swept = ReturnCode × List SystemCall

abbrev pub go_on : Swept → Swept → Swept
go_on (rc, calls) rest = if is_fatal_error rc then (rc, calls) else (rest.0, calls ++ rest.1)

unfoldable pub unmount_node : (Bytes → System) → MediaInfo → Swept
unmount_node systems i = elim i.mnt_point [
  | none ↦ (success, [])
  | some mnt_point ↦
      let r = invoke_unmount_common (systems i.path) mnt_point i.fstype in (r.rc, r.calls)
]

-- `invoke_unmount_recursive` on each node of a list: children go before their parent.
unfoldable pub unmount_siblings : (Bytes → System) → Media → Swept
unmount_siblings systems null = (success, [])
unmount_siblings systems (node i children next) =
    go_on (unmount_siblings systems children)
      (go_on (unmount_node systems i) (unmount_siblings systems next))

unfoldable pub invoke_unmount_all : (Bytes → System) → Media → Swept
invoke_unmount_all systems root = unmount_siblings systems root
