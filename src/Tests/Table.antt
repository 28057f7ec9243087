-- ===== src/Tests/Table.antt =====
-- A mounted and an unmounted partition, and a mount table.
use dtmd.Common.{◌≡◌, refl, true, none, some, List, [], ◌∷◌, codes, str_eq, ok}
use dtmd.Misc.Types.{MediaType, MediaSubtype, MediaState, success}
use dtmd.Media.Tree.{MediaInfo, Media, null, node, find_media, at_media}
use dtmd.Lists.Device.{device_mounted, device_unmounted}
use dtmd.Mounts.Table.{
  MountEntry, EntryMemory, set_processed, set_mounted_now, clear_mounted_now, mark_each_device,
  unmounted_notes, has_text, enter_point, enter_opts, enter, set_node, read_entry, read_table,
  process_node, process_changes, Checked, finish_check, check_mount_changes,
}
use dtmd.Mounts.Nodes.{AllNodes, info_at}
use dtmd.Mounts.Phases.{IsConsistent}
use dtmd.Mounts.Consistent.{ChecksOut, check_mount_changes-ChecksOut}
use dtmd.Mounts.Synced.{listed_point}
use dtmd.Mounts.Reflected.{check_mount_changes-reflects}
use dtmd.Mounts.Devices.{devices, check_mount_changes-devices}

abbrev one : MediaInfo
one = record {
  path = codes "/a1";
  media_type = MediaType.device_partition;
  subtype = MediaSubtype.removable_disk;
  state = MediaState.unknown;
  fstype = some (codes "vfat");
  label = none;
  mnt_point = some (codes "/m");
  mnt_opts = some (codes "rw");
  sysfs_path = none;
  mount_counter = 1;
}

abbrev two : MediaInfo
two = record one { path = codes "/a2"; mnt_point = none; mnt_opts = none; mount_counter = 0 }

abbrev tree : Media
tree = node one null (node two null null)

abbrev table : List MountEntry
table =
    record { mnt_fsname = codes "/a2"; mnt_dir = some (codes "/n"); mnt_opts = some (codes "ro") }
    ∷ []

abbrev memory : EntryMemory
memory = record { mnt_point = true; mnt_opts = true }

tree-IsConsistent : AllNodes IsConsistent tree
tree-IsConsistent = (refl, tt, (refl, tt, tt))

check_mount_changes-ChecksOut_example :
    ChecksOut (check_mount_changes (λ n. memory) (some table) tree)
check_mount_changes-ChecksOut_example =
    check_mount_changes-ChecksOut (λ n. memory) (some table) tree tree-IsConsistent

abbrev one_after : MediaInfo
one_after = record one { mnt_point = none; mnt_opts = none; mount_counter = 0 }

abbrev two_after : MediaInfo
two_after = record two {
  mnt_point = some (codes "/n");
  mnt_opts = some (codes "ro");
  mount_counter = 1;
}

abbrev checked : Checked
checked = record {
  rc = success;
  media = node one_after null (node two_after null null);
  notes =
      device_mounted (codes "/a2") (codes "/n") (some (codes "ro"))
      ∷ device_unmounted (codes "/a1") (codes "/m")
      ∷ [];
}

checked_equation : check_mount_changes (λ n. memory) (some table) tree ≡ ok checked
unfolding check_mount_changes finish_check process_changes process_node read_table read_entry
    set_node enter enter_opts enter_point has_text unmounted_notes mark_each_device
    clear_mounted_now set_mounted_now set_processed find_media at_media str_eq
checked_equation = refl

two-found : info_at (codes "/a2") tree ≡ some two
unfolding info_at str_eq
two-found = refl

check_mount_changes-reflects_example :
    (k : MediaInfo) × (info_at (codes "/a2") checked.media ≡ some k)
    × (k.mnt_point ≡ listed_point (codes "/a2") table)
check_mount_changes-reflects_example =
    check_mount_changes-reflects (λ n. memory) table tree checked (codes "/a2") two
      tree-IsConsistent checked_equation refl two-found

check_mount_changes-devices_example : devices checked.media ≡ devices tree
check_mount_changes-devices_example =
    check_mount_changes-devices (λ n. memory) (some table) tree checked checked_equation
