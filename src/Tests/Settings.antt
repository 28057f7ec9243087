-- ===== src/Tests/Settings.antt =====
-- The file of the configuration.
use dtmd.Common.{arith, ◌≡◌, true, false, none, some, List, [], ◌∷◌, Bytes, codes}
use dtmd.Config.Values.{Config, ConfigAllocator, mount_by_device_name}
use dtmd.Config.Accepted.{IsSound}
use dtmd.Config.Scan.{is_alphanumeric, is_plain, is_text, quotes_after, read_config}
use dtmd.Config.Read.{
  print_file, AreSettings, process_settings, read_config-print_file, read_config-IsSound,
}

abbrev initial : Config
initial = record {
  unmount_on_exit = false;
  mount_by_value = mount_by_device_name;
  use_syslog = false;
  mount_dir = none;
  create_mount_dir_on_startup = false;
  clear_mount_dir = true;
  default_mount_opts = [];
  mandatory_mount_opts = [];
}

abbrev granting : ConfigAllocator
granting = record {
  mount_dir = true;
  fs_name = true;
  fs_opts = true;
  entry = true;
  options = record { item = λ option. true; uid = true; gid = true };
}

abbrev settings : List (Bytes × Bytes)
settings = (codes "mount_dir", codes "\"/media\"") ∷ (codes "mount_by", codes "label") ∷ []

settings-AreSettings : AreSettings settings
unfolding is_alphanumeric is_plain is_text quotes_after
settings-AreSettings = ground arith

read_config-print_file_example :
    read_config (λ line. granting) (some (print_file settings)) initial
    ≡ process_settings (λ line. granting) 0 settings initial
read_config-print_file_example =
    read_config-print_file (λ line. granting) settings initial settings-AreSettings

read_config-IsSound_example :
    IsSound
      (read_config
        (λ line. granting)
        (some (codes "mandatory_mount_opts_vfat = \"nodev,nosuid\" # safe\n"))
        initial).1
read_config-IsSound_example =
    read_config-IsSound (λ line. granting)
      (some (codes "mandatory_mount_opts_vfat = \"nodev,nosuid\" # safe\n")) initial (tt, tt)
