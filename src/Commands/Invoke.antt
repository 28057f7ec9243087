-- ===== src/Commands/Invoke.antt =====
-- `invoke_command` of daemon/actions.c.
use dtmd.Common.{Option, none, some, List, [], ◌∷◌, ◌++◌, if◌then◌else◌, Bytes, codes, str_eq}
use dtmd.Misc.Types.{fail, is_successful, ErrorCode, no_such_removable_device}
use dtmd.Misc.Names.{error_code_to_string}
use dtmd.Media.Tree.{Media, root_device_path, find_media}
use dtmd.Commands.Message.{line}
use dtmd.Commands.Wire.{Wire, Sent, dprintf, and_then}
use dtmd.Commands.Listing.{print_all_removable_devices_recursive, print_all_removable_devices}

-- A command with its arguments, as `dt_parse_command` gives it.
pub record Command : Type 0 where
  pub cmd : Bytes
  pub args : List (Option Bytes)

abbrev pub started : Bytes
started = codes "started"

abbrev pub finished : Bytes
finished = codes "finished"

abbrev pub succeeded : Bytes
succeeded = codes "succeeded"

abbrev pub failed : Bytes
failed = codes "failed"

abbrev pub list_all_removable_devices : Bytes
list_all_removable_devices = codes "list_all_removable_devices"

abbrev pub list_removable_device : Bytes
list_removable_device = codes "list_removable_device"

abbrev pub mount : Bytes
mount = codes "mount"

abbrev pub unmount : Bytes
unmount = codes "unmount"

abbrev pub list_supported_filesystems : Bytes
list_supported_filesystems = codes "list_supported_filesystems"

abbrev pub list_supported_filesystem_options : Bytes
list_supported_filesystem_options = codes "list_supported_filesystem_options"

abbrev pub poweroff : Bytes
poweroff = codes "poweroff"

-- The other parts of the daemon that a command calls: each takes the lines that have been written,
-- and gives its result with the lines; where it sets an error code, that too.
pub record Services : Type 0 where
  pub invoke_mount : Bytes → Option Bytes → List Bytes → Sent × ErrorCode
  pub invoke_unmount : Bytes → List Bytes → Sent × ErrorCode
  pub invoke_poweroff : Bytes → List Bytes → Sent × ErrorCode
  pub invoke_list_supported_filesystems : List Bytes → Sent
  pub invoke_list_supported_filesystem_options : Bytes → List Bytes → Sent

-- The two lines around a listing.
unfoldable pub bracket :
    Wire → Bytes → List (Option Bytes) → (List Bytes → Sent) → List Bytes → Sent
bracket wire name arguments listing sent =
    and_then (and_then (dprintf wire (line started (some name ∷ arguments)) sent) listing)
      (λ s. dprintf wire (line finished (some name ∷ arguments)) s)

-- `list_removable_device` with its argument.
unfoldable pub list_device : Wire → Media → Bytes → List Bytes → Sent
list_device wire root path sent =
    if str_eq path root_device_path
    then bracket wire list_removable_device (some path ∷ []) (print_all_removable_devices wire root)
        sent
    else elim (find_media path root_device_path root) [
      | none ↦
          and_then
            (dprintf wire
              (line failed (
                some list_removable_device
                ∷ some path
                ∷ some (error_code_to_string no_such_removable_device)
                ∷ []))
              sent)
            (λ s. (fail, s))
      | some f ↦
          bracket wire list_removable_device (some path ∷ [])
            (print_all_removable_devices_recursive wire f) sent
    ]

-- The answer to a command that was carried out or not, and its result.
unfoldable pub respond : Wire → Bytes → List (Option Bytes) → Sent × ErrorCode → Sent
respond wire name arguments ((rc, sent), error_code) =
    and_then
      (if is_successful rc
        then dprintf wire (line succeeded (some name ∷ arguments)) sent
        else dprintf wire
            (line failed ((some name ∷ arguments) ++ some (error_code_to_string error_code) ∷ []))
            sent)
      (λ s. (rc, s))

-- The commands with one argument that is not NULL.
unfoldable pub invoke_one : Wire → Services → Media → Bytes → Bytes → List Bytes → Sent
invoke_one wire services root cmd path sent =
    if str_eq cmd list_removable_device
    then list_device wire root path sent
    else if str_eq cmd unmount
    then respond wire unmount (some path ∷ []) (services.invoke_unmount path sent)
    else if str_eq cmd list_supported_filesystem_options
    then services.invoke_list_supported_filesystem_options path sent
    else if str_eq cmd poweroff
    then respond wire poweroff (some path ∷ []) (services.invoke_poweroff path sent)
    else (fail, sent)

unfoldable pub invoke_none : Wire → Services → Media → Bytes → List Bytes → Sent
invoke_none wire services root cmd sent =
    if str_eq cmd list_all_removable_devices
    then bracket wire list_all_removable_devices [] (print_all_removable_devices wire root) sent
    else if str_eq cmd list_supported_filesystems
    then services.invoke_list_supported_filesystems sent
    else (fail, sent)

-- The commands by the number of their arguments, the first of which is not NULL.
unfoldable pub invoke_command : Wire → Services → Media → Command → List Bytes → Sent
invoke_command wire services root command sent = elim command.args [
  | [] ↦ invoke_none wire services root command.cmd sent
  | some path ∷ [] ↦ invoke_one wire services root command.cmd path sent
  | some path ∷ options ∷ [] ↦
      if str_eq command.cmd mount
      then respond wire mount (some path ∷ options ∷ []) (services.invoke_mount path options sent)
      else (fail, sent)
  | _ ↦ (fail, sent)
]
