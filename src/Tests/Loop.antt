-- ===== src/Tests/Loop.antt =====
-- The main loop: a parser that knows no arguments, and a partition that is added and mounted.
use dtmd.Common.{
  ℕ, ◌+◌, ◌≡◌, refl, arith, true, false, none, some, List, [], ◌∷◌, Bytes, codes, str_eq, ok,
}
use dtmd.Misc.Types.{MediaType, MediaSubtype, MediaState, success}
use dtmd.Media.Tree.{MediaInfo, null, node, find_media, at_media}
use dtmd.Lists.Construct.{construct_media, copy_text, copy_label, initial_counter}
use dtmd.Lists.Update.{insert_sibling, link_media, finish_add, add_media}
use dtmd.Mounts.Table.{
  MountEntry, EntryMemory, set_processed, set_mounted_now, clear_mounted_now, mark_each_device,
  unmounted_notes, has_text, enter_point, enter_opts, enter, set_node, read_entry, read_table,
  process_node, process_changes, finish_check, check_mount_changes,
}
use dtmd.Mounts.Nodes.{info_at}
use dtmd.Mounts.Synced.{listed_point}
use dtmd.Lists.Device.{Allocator, device_added, device_mounted}
use dtmd.Daemon.Input.{Parser, received, behind_newline, take_input}
use dtmd.Daemon.Ready.{IsReady, Leaves, take_input-IsReady}
use dtmd.Daemon.Events.{
  DeviceInfo, add, device, usable, add_device, handle_device, watch_devices, watch_mounts, Polled,
  Round, nothing_watched, enumerate, watch, start,
}
use dtmd.Daemon.Reach.{IsSound, Reach, started, watched, Reach-IsSound}
use dtmd.Daemon.Mirror.{watch-reflects}

-- The state counts the commands.
abbrev parser : Parser ℕ
parser = record {
  validate = λ text. true;
  parse = λ text. some (record { cmd = text; args = [] });
  invoke = λ cmd n. (success, n + 1);
}

abbrev half : Bytes
half = codes "list"

half-IsReady : IsReady half
unfolding behind_newline
half-IsReady = (omega arith, refl)

take_input-IsReady_example :
    Leaves IsReady (take_input parser half (received (codes "_all()\nli")) 0)
take_input-IsReady_example =
    take_input-IsReady parser half (received (codes "_all()\nli")) 0 half-IsReady (omega arith)

abbrev plenty : Allocator
plenty site = true

abbrev stick : DeviceInfo
stick = record {
  path_parent = some (codes "/");
  path = some (codes "/a");
  media_type = MediaType.stateless_device;
  media_subtype = MediaSubtype.removable_disk;
  sysfs_path = none;
  fstype = some (codes "vfat");
  label = none;
  state = MediaState.unknown;
}

abbrev memory : EntryMemory
memory = record { mnt_point = true; mnt_opts = true }

abbrev table : List MountEntry
table =
    record { mnt_fsname = codes "/a"; mnt_dir = some (codes "/n"); mnt_opts = some (codes "ro") }
    ∷ []

abbrev begun : Round
begun = record { going = true; state = nothing_watched; notes = [] }

begun_equation : start (λ n. plenty) success [] (λ n. memory) (some []) ≡ ok begun
unfolding start enumerate watch_mounts check_mount_changes finish_check process_changes read_table
    mark_each_device
begun_equation = refl

abbrev polled : Polled
polled = record {
  allocator = plenty;
  monitored = device add stick;
  memory = λ n. memory;
  mounts_changed = true;
  table = some table;
}

abbrev mounted_stick : MediaInfo
mounted_stick = record {
  path = codes "/a";
  media_type = MediaType.stateless_device;
  subtype = MediaSubtype.removable_disk;
  state = MediaState.unknown;
  fstype = some (codes "vfat");
  label = none;
  mnt_point = some (codes "/n");
  mnt_opts = some (codes "ro");
  sysfs_path = none;
  mount_counter = 1;
}

abbrev behind : Round
behind = record {
  going = true;
  state = record { media = node mounted_stick null null; force_mounts_check = false };
  notes =
      device_added (record {
        parent_path = codes "/";
        path = codes "/a";
        sysfs_path = none;
        media_type = MediaType.stateless_device;
        subtype = MediaSubtype.removable_disk;
        state = MediaState.unknown;
        fstype = some (codes "vfat");
        label = none;
        mnt_point = none;
        mnt_opts = none;
      })
      ∷ device_mounted (codes "/a") (codes "/n") (some (codes "ro"))
      ∷ [];
}

behind_equation : watch polled nothing_watched ≡ ok behind
unfolding watch watch_devices handle_device add_device usable add_media finish_add link_media
    insert_sibling construct_media copy_text copy_label initial_counter watch_mounts
    check_mount_changes finish_check process_changes process_node read_table read_entry set_node
    enter enter_opts enter_point has_text unmounted_notes mark_each_device clear_mounted_now
    set_mounted_now set_processed find_media at_media str_eq
behind_equation = refl

begun-Reach : Reach nothing_watched
begun-Reach = started (λ n. plenty) success [] (λ n. memory) (some []) begun begun_equation refl

Reach-IsSound_example : IsSound behind.state.media
Reach-IsSound_example =
    Reach-IsSound behind.state
      (watched polled nothing_watched behind begun-Reach behind_equation refl)

stick-found : info_at (codes "/a") behind.state.media ≡ some mounted_stick
unfolding info_at str_eq
stick-found = refl

watch-reflects_example :
    (t : List MountEntry) × (polled.table ≡ some t)
    × (mounted_stick.mnt_point ≡ listed_point (codes "/a") t)
watch-reflects_example =
    watch-reflects polled nothing_watched behind (codes "/a") mounted_stick begun-Reach refl
      behind_equation refl stick-found
