-- ===== src/Tests/Answers.antt =====
-- Commands.
use dtmd.Lists.Device.{Notification, device_removed, device_unmounted}
use dtmd.Commands.Notify.{Stream, unmounted_line, notify_all}
use dtmd.Commands.Broadcast.{told, all_lines, notify_all-told}
use dtmd.Common.{List, map, All, ◌≡◌, refl, true, none, some, [], ◌∷◌, ltb, codes, decimal}
use dtmd.Misc.Types.{
  MediaType, MediaSubtype, MediaState, success, fail, generic_error, client_error,
}
use dtmd.Misc.Names.{device_type_to_string, device_subtype_to_string}
use dtmd.Media.Tree.{MediaInfo, Media, null, node, root_device_path}
use dtmd.Media.Entries.{entries}
use dtmd.Commands.Message.{print_with_all_checks, more_arguments, line, device_arguments}
use dtmd.Commands.Wire.{Wire, dprintf}
use dtmd.Commands.Listing.{print_removable_device_common, print_siblings}
use dtmd.Commands.Invoke.{Services, list_removable_device, invoke_command}
use dtmd.Commands.Printed.{IsPrintable, print_entries, print_siblings-entries}
use dtmd.Commands.Answered.{list_answer, asked_entries, invoke_command-list_removable_device}

abbrev reader : MediaInfo
reader = record {
  path = codes "/dev/sr0";
  media_type = MediaType.stateless_device;
  subtype = MediaSubtype.cdrom;
  state = MediaState.unknown;
  fstype = none;
  label = none;
  mnt_point = none;
  mnt_opts = none;
  sysfs_path = none;
  mount_counter = 0;
}

abbrev root : Media
root = node reader null null

abbrev open_wire : Wire
open_wire written = true

abbrev short_wire : Wire
short_wire written = ltb written 1

abbrev refusing : Services
refusing = record {
  invoke_mount = λ path options sent. ((fail, sent), generic_error);
  invoke_unmount = λ path sent. ((fail, sent), generic_error);
  invoke_poweroff = λ path sent. ((fail, sent), generic_error);
  invoke_list_supported_filesystems = λ sent. (success, sent);
  invoke_list_supported_filesystem_options = λ path sent. (success, sent);
}

reader-line :
    print_siblings open_wire root_device_path root []
    ≡ (success, codes "removable_device(1 /, 8 /dev/sr0, 16 stateless device, 5 cdrom)\n" ∷ [])
unfolding print_siblings print_removable_device_common device_arguments line print_with_all_checks
    more_arguments decimal dprintf device_type_to_string device_subtype_to_string
reader-line = refl

short_wire-stops :
    (print_siblings short_wire root_device_path root (codes "started" ∷ [])).0 ≡ client_error
unfolding print_siblings print_removable_device_common device_arguments line print_with_all_checks
    more_arguments decimal dprintf device_type_to_string device_subtype_to_string
short_wire-stops = refl

print_siblings-entries_example :
    print_siblings short_wire root_device_path root []
    ≡ print_entries short_wire (entries root_device_path root) []
print_siblings-entries_example = print_siblings-entries short_wire root_device_path root []

root-IsPrintable : All IsPrintable (entries root_device_path root)
unfolding entries device_arguments
root-IsPrintable = ((_, refl), tt)

invoke_command-list_removable_device_example :
    invoke_command open_wire refusing root
      (record { cmd = list_removable_device; args = some (codes "/dev/sr0") ∷ [] })
      []
    ≡ list_answer (codes "/dev/sr0") (asked_entries (codes "/dev/sr0") root) []
invoke_command-list_removable_device_example =
    invoke_command-list_removable_device open_wire refusing root (codes "/dev/sr0") []
      (λ sent. refl) root-IsPrintable

abbrev two_streams : List Stream
two_streams =
    record { clientfd = 7; wire = open_wire; sent = [] }
    ∷ record { clientfd = 9; wire = open_wire; sent = codes "started" ∷ [] }
    ∷ []

abbrev two_notes : List Notification
two_notes =
    device_unmounted (codes "/dev/sdb1") (codes "/media/sdb1")
    ∷ device_removed (codes "/dev/sdb1")
    ∷ []

unmounted-sent :
    unmounted_line (codes "/dev/sdb1") (codes "/media/sdb1")
    ≡ codes "removable_device_unmounted(9 /dev/sdb1, 11 /media/sdb1)\n"
unfolding unmounted_line decimal
unmounted-sent = refl

notify_all-told_example :
    notify_all two_notes two_streams ≡ map (told (all_lines two_notes)) two_streams
notify_all-told_example = notify_all-told two_notes two_streams (λ sent. refl, (λ sent. refl, tt))
