-- ===== src/Tests/Tree.antt =====
-- A disk with a partition: what the tree functions do, and their theorems there.
use dtmd.Common.{◌≡◌, ◌≢◌, true, refl, [], ◌∷◌, none, some, inr, codes, str_eq, ok}
use dtmd.Misc.Types.{MediaType, MediaSubtype, MediaState, success, fail, bug}
use dtmd.Label.Ctype.{is_literal, escape_letter, hex_digit, read_hex}
use dtmd.Label.Decode.{
  emit, emit_escape, decode_other, decode_escape, decode_backslash, decode_round, decode_loop,
  decode_label,
}
use dtmd.Media.Tree.{MediaInfo, Media, null, node, Found, root_device_path, find_media, at_media}
use dtmd.Media.Entries.{entries}
use dtmd.Media.Find.{entry_of, first_entry, find_media-first_entry}
use dtmd.Lists.Device.{
  Device, Allocator, Update, device_added, device_removed, device_mounted, device_changed,
}
use dtmd.Lists.Construct.{construct_media, copy_text, copy_label, initial_counter}
use dtmd.Lists.Update.{
  insert_sibling, insert_child, link_media, finish_add, add_media, removal, remove_siblings,
  unlink_media, remove_media,
}
use dtmd.Lists.Added.{IsAdded, add_media-IsAdded, add_media_refused}
use dtmd.Lists.Removed.{IsRemoved, remove_media-IsRemoved}
use dtmd.Lists.Change.{
  type_value, subtype_value, state_value, same_text, same_label, is_unchanged, replace_text,
  replace_label, replace_mount, replace_opts, change_mount, change_label, change_info, set_info,
  finish_change, change_found, change_media, new_label, decoded_label, set_mount, announce_mount,
}
use dtmd.Lists.Changed.InTree.{IsChanged, change_media-IsChanged, change_media_refused}

abbrev plenty : Allocator
plenty site = true

abbrev disk : Device
disk = record {
  parent_path = codes "/";
  path = codes "/dev/sdb";
  sysfs_path = none;
  media_type = MediaType.stateless_device;
  subtype = MediaSubtype.removable_disk;
  state = MediaState.unknown;
  fstype = none;
  label = none;
  mnt_point = none;
  mnt_opts = none;
}

abbrev partition : Device
partition = record {
  parent_path = codes "/dev/sdb";
  path = codes "/dev/sdb1";
  sysfs_path = none;
  media_type = MediaType.device_partition;
  subtype = MediaSubtype.removable_disk;
  state = MediaState.unknown;
  fstype = some (codes "vfat");
  label = none;
  mnt_point = none;
  mnt_opts = none;
}

abbrev disk_info : MediaInfo
disk_info = record {
  path = codes "/dev/sdb";
  media_type = MediaType.stateless_device;
  subtype = MediaSubtype.removable_disk;
  state = MediaState.unknown;
  fstype = none;
  label = none;
  mnt_point = none;
  mnt_opts = none;
  sysfs_path = none;
  mount_counter = 0;
}

abbrev partition_info : MediaInfo
partition_info = record {
  path = codes "/dev/sdb1";
  media_type = MediaType.device_partition;
  subtype = MediaSubtype.removable_disk;
  state = MediaState.unknown;
  fstype = some (codes "vfat");
  label = none;
  mnt_point = none;
  mnt_opts = none;
  sysfs_path = none;
  mount_counter = 0;
}

abbrev disk_only : Media
disk_only = node disk_info null null

abbrev both : Media
both = node disk_info (node partition_info null null) null

find_media-first_entry_example :
    entry_of (find_media (codes "/dev/sdb1") root_device_path both)
    ≡ first_entry (codes "/dev/sdb1") (entries root_device_path both)
find_media-first_entry_example = find_media-first_entry (codes "/dev/sdb1") root_device_path both

disk_found :
    find_media (codes "/dev/sdb") root_device_path disk_only
    ≡ some (record { parent_path = codes "/"; info = disk_info; children = null; next = null })
unfolding find_media str_eq
disk_found = refl

-- The label is encoded.
abbrev labelled : Device
labelled = record partition { label = some (codes "a\\x20b") }

abbrev labelled_info : MediaInfo
labelled_info = record partition_info { label = some (codes "a b") }

construct_labelled : construct_media plenty labelled ≡ ok labelled_info
unfolding construct_media copy_text copy_label initial_counter decode_label decode_loop decode_round
    decode_backslash decode_escape decode_other escape_letter read_hex hex_digit emit_escape emit
    is_literal
construct_labelled = refl

add_media-IsAdded_example :
    (u : Update) × (add_media plenty labelled disk_only ≡ ok u)
    × IsAdded labelled disk_only labelled_info u
add_media-IsAdded_example =
    add_media-IsAdded plenty labelled disk_only labelled_info
      (inr (
        record { parent_path = codes "/"; info = disk_info; children = null; next = null },
        disk_found,
      ))
      construct_labelled

orphan : add_media plenty partition null ≡ ok (record { rc = fail; media = null; notes = [] })
unfolding add_media find_media str_eq
orphan = refl

fail_ne_success : fail ≢ success
fail_ne_success e = cc

abbrev refused_orphan : Update
refused_orphan = record { rc = fail; media = null; notes = [] }

add_media_refused_example : (refused_orphan.media ≡ null) × (refused_orphan.notes ≡ [])
add_media_refused_example =
    add_media_refused plenty partition null refused_orphan orphan fail_ne_success

abbrev with_partition : Update
with_partition = record { rc = success; media = both; notes = device_added partition ∷ [] }

add_partition : add_media plenty partition disk_only ≡ ok with_partition
unfolding add_media find_media str_eq finish_add construct_media copy_text copy_label
    initial_counter link_media at_media insert_child insert_sibling
add_partition = refl

abbrev found_disk : Found
found_disk = record {
  parent_path = codes "/";
  info = disk_info;
  children = node partition_info null null;
  next = null;
}

disk_found_above : find_media (codes "/dev/sdb") root_device_path both ≡ some found_disk
unfolding find_media str_eq
disk_found_above = refl

remove_media-IsRemoved_example : IsRemoved both found_disk (remove_media (codes "/dev/sdb") both)
remove_media-IsRemoved_example =
    remove_media-IsRemoved (codes "/dev/sdb") both found_disk disk_found_above

remove_disk : remove_media (codes "/dev/sdb") both ≡ record {
  rc = success;
  media = null;
  notes = device_removed (codes "/dev/sdb1") ∷ device_removed (codes "/dev/sdb") ∷ [];
}
unfolding remove_media find_media str_eq at_media unlink_media remove_siblings removal
remove_disk = refl

-- The partition is mounted, and labelled on the way.
abbrev mounted : Device
mounted = record partition {
  label = some (codes "a\\x20b");
  mnt_point = some (codes "/media/sdb1");
  mnt_opts = some (codes "rw");
}

abbrev mounted_info : MediaInfo
mounted_info = record partition_info {
  label = some (codes "a b");
  mnt_point = some (codes "/media/sdb1");
  mnt_opts = some (codes "rw");
  mount_counter = 1;
}

abbrev found_partition : Found
found_partition = record {
  parent_path = codes "/dev/sdb";
  info = partition_info;
  children = null;
  next = null;
}

partition_found : find_media (codes "/dev/sdb1") root_device_path both ≡ some found_partition
unfolding find_media str_eq
partition_found = refl

abbrev after_mount : Update
after_mount = record {
  rc = success;
  media = node disk_info (node mounted_info null null) null;
  notes =
      device_mounted (codes "/dev/sdb1") (codes "/media/sdb1") (some (codes "rw"))
      ∷ device_changed (record mounted { label = some (codes "a b") })
      ∷ [];
}

mount_partition : change_media plenty mounted both ≡ ok after_mount
unfolding change_media change_found find_media str_eq is_unchanged same_text type_value
    subtype_value state_value same_label change_info replace_text change_label replace_label
    new_label decoded_label decode_label decode_loop decode_round decode_backslash decode_escape
    decode_other escape_letter read_hex hex_digit emit_escape emit is_literal change_mount
    replace_mount set_mount announce_mount replace_opts finish_change at_media set_info
mount_partition = refl

change_media-IsChanged_example : IsChanged mounted both found_partition after_mount
change_media-IsChanged_example =
    change_media-IsChanged plenty mounted both found_partition after_mount partition_found
      mount_partition refl

-- A change that names another parent.
abbrev moved : Device
moved = record partition { parent_path = codes "/" }

abbrev refused_move : Update
refused_move = record { rc = bug; media = both; notes = [] }

move_refused : change_media plenty moved both ≡ ok refused_move
unfolding change_media change_found find_media str_eq
move_refused = refl

change_media_refused_example : (refused_move.media ≡ both) × (refused_move.notes ≡ [])
change_media_refused_example =
    change_media_refused plenty moved both refused_move move_refused (inr refl)
