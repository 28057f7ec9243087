-- ===== src/Tests/Requests.antt =====
-- Requests to mount and to unmount.
use dtmd.Common.{◌≡◌, refl, true, false, none, some, [], ◌∷◌, ◌++◌, length, Bytes, codes, str_eq}
use dtmd.Misc.Types.{MediaType, MediaSubtype, MediaState, success}
use dtmd.Media.Tree.{MediaInfo, Media, null, node}
use dtmd.Config.MountOpts.{get_mount_options}
use dtmd.Config.Values.{Config, mount_by_device_label}
use dtmd.Label.Ctype.{is_literal, octal}
use dtmd.Label.Decode.{emit, decode_round, decode_loop, decode_label}
use dtmd.Options.Types.{init_options_list}
use dtmd.Options.Convert.{OptionAllocator}
use dtmd.Options.Restricted.{Unconfigured}
use dtmd.Mounting.System.{System, empty, unmounted, umount, rmdir}
use dtmd.Mounting.Path.{mount_name, join_path, calculate_path}
use dtmd.Mounting.Command.{mount_command, total_len}
use dtmd.Mounting.Unmount.{unmount_command, unmount_cmd_len, invoke_unmount}
use dtmd.Mounting.Invoke.{invoke_mount}
use dtmd.Mounting.Lengths.{commands-fill}
use dtmd.Mounting.Answers.{IsAnswer, Answers}
use dtmd.Mounting.Answered.{requests-IsAnswer}
use dtmd.Mounting.Permitted.{ArePermitted, invoke_mount-ArePermitted}
use dtmd.Mounts.Table.{point_mount_count, count_points, has_text}
use dtmd.Options.Convert.{get_fsopts_for_fs, find_filesystem}
use dtmd.Options.Tables.{filesystem_mount_options}
use dtmd.Mounting.Unmount.{
  unmount_node, unmount_siblings, invoke_unmount_common, unmount_with, finish_unmount,
  invoke_unmount_internal, umount_point, invoke_unmount_all,
}
use dtmd.Mounting.Unmounting.{IsReadable}
use dtmd.Mounting.Sweep.{UnmountsEach, below_first, invoke_unmount_all-all}
use dtmd.Mounting.Inside.{IsDecoded, IsNamed, calculate_path-IsNamed}

abbrev stick : MediaInfo
stick = record {
  path = codes "/dev/a1";
  media_type = MediaType.device_partition;
  subtype = MediaSubtype.removable_disk;
  state = MediaState.unknown;
  fstype = some (codes "vfat");
  label = some (codes "\\056\\056");
  mnt_point = none;
  mnt_opts = none;
  sysfs_path = none;
  mount_counter = 0;
}

abbrev tree : Media
tree = node stick null null

abbrev settings : Config
settings = record {
  unmount_on_exit = false;
  mount_by_value = mount_by_device_label;
  use_syslog = false;
  mount_dir = none;
  create_mount_dir_on_startup = false;
  clear_mount_dir = true;
  default_mount_opts = [];
  mandatory_mount_opts = [];
}

abbrev memory : OptionAllocator
memory = record { item = λ option. true; uid = true; gid = true }

-- Something is mounted where the label would lead to.
abbrev answering : System
answering = record {
  credentials = some (1000, 100);
  asked_memory = memory;
  forced_memory = memory;
  path_memory = λ n. true;
  command_memory = true;
  full_opts_memory = true;
  opts_memory = true;
  tables = λ n. some (
      record {
        mnt_fsname = codes "/dev/b";
        mnt_dir = some (codes "/media/\\056\\056");
        mnt_opts = some (codes "ro");
      }
      ∷ []);
  dir_state = λ point. empty;
  mkdir_done = λ point. true;
  mount_done = true;
  umount_answer = λ point. unmounted;
  status = λ command. 0;
}

nothing-Unconfigured : (fstype : Bytes) → Unconfigured [] fstype
unfolding get_mount_options
nothing-Unconfigured fstype fs e = refl

invoke_mount-ArePermitted_example :
    ArePermitted answering settings tree
      (codes "/dev/a1")
      (some (codes "ro"))
      (invoke_mount answering settings tree (codes "/dev/a1") (some (codes "ro")))
invoke_mount-ArePermitted_example =
    invoke_mount-ArePermitted answering settings tree (codes "/dev/a1") (some (codes "ro"))
      nothing-Unconfigured

requests-IsAnswer_example :
    Answers (invoke_mount answering settings tree (codes "/dev/a1") (some (codes "ro")))
    × IsAnswer (invoke_unmount answering tree (codes "/dev/a1"))
requests-IsAnswer_example =
    requests-IsAnswer answering settings tree (codes "/dev/a1") (some (codes "ro"))

commands-fill_example :
    (length
        (mount_command (codes "ntfs-3g") (codes "/dev/a1") (codes "/media/a1") init_options_list)
      ≡ total_len (codes "ntfs-3g") (codes "/dev/a1") (codes "/media/a1") init_options_list)
    × (length (unmount_command (codes "ntfs-3g") (codes "/media/a1"))
        ≡ unmount_cmd_len (codes "ntfs-3g") (codes "/media/a1"))
commands-fill_example =
    commands-fill (codes "ntfs-3g") (codes "/dev/a1") (codes "/media/a1") init_options_list

dots-IsDecoded : IsDecoded (some (codes "\\056\\056"))
unfolding decode_label decode_loop decode_round emit octal is_literal
dots-IsDecoded = (codes "..", (refl, (refl, tt)))

calculated :
    (calculate_path true
      (codes "/media")
      (codes "/dev/a1")
      (some (codes "\\056\\056"))
      mount_by_device_label).1
    ≡ some (codes "/media/\\056\\056")
unfolding calculate_path mount_name join_path
calculated = refl

calculate_path-IsNamed_example :
    (name : Bytes) × ((codes "/media/\\056\\056" ≡ codes "/media" ++ (b'/' ∷ name))
      × IsNamed
          (calculate_path true
            (codes "/media")
            (codes "/dev/a1")
            (some (codes "\\056\\056"))
            mount_by_device_label).0
          name)
calculate_path-IsNamed_example =
    calculate_path-IsNamed true (codes "/media") (codes "/dev/a1") (some (codes "\\056\\056"))
      mount_by_device_label (codes "/media/\\056\\056") dots-IsDecoded calculated

abbrev mounted_stick : MediaInfo
mounted_stick = record stick {
  path = codes "/dev/a2";
  mnt_point = some (codes "/media/\\056\\056");
}

abbrev disk : Media
disk = node stick (node mounted_stick null null) null

answering-IsReadable : IsReadable answering
answering-IsReadable = (refl, (_, refl))

invoke_unmount_all-all_example :
    ((invoke_unmount_all (λ path. answering) disk).0 ≡ success)
    × UnmountsEach
        (λ path. answering)
        (below_first disk)
        (invoke_unmount_all (λ path. answering) disk).1
invoke_unmount_all-all_example =
    invoke_unmount_all-all (λ path. answering) disk
      (answering-IsReadable, (answering-IsReadable, tt, tt), tt)

-- The two devices of the run: only the second is mounted.
unmount_disk :
    invoke_unmount_all (λ path. answering) disk
    ≡ (success, umount (codes "/media/\\056\\056") ∷ rmdir (codes "/media/\\056\\056") ∷ [])
unfolding invoke_unmount_all unmount_siblings unmount_node invoke_unmount_common unmount_with
    get_fsopts_for_fs find_filesystem filesystem_mount_options str_eq finish_unmount
    invoke_unmount_internal umount_point point_mount_count count_points has_text
unmount_disk = refl
