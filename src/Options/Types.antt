-- ===== src/Options/Types.antt =====
-- The types of daemon/filesystem_opts.h.
use dtmd.Common.{ℕ, Bool, Option, none, List, [], Bytes, ◌==◌}
use dtmd.Misc.Types.{ReturnCode}

-- The bits of `mount(2)`, of which the code uses only that they are different single bits.
pub data Flag : Type 0 where
  ms_dirsync ms_mandlock ms_noatime ms_nodev ms_nodiratime ms_noexec ms_nosuid ms_rdonly : Flag
  ms_relatime ms_silent ms_strictatime ms_synchronous : Flag

abbrev pub flag_index : Flag → ℕ
flag_index ms_dirsync = 0
flag_index ms_mandlock = 1
flag_index ms_noatime = 2
flag_index ms_nodev = 3
flag_index ms_nodiratime = 4
flag_index ms_noexec = 5
flag_index ms_nosuid = 6
flag_index ms_rdonly = 7
flag_index ms_relatime = 8
flag_index ms_silent = 9
flag_index ms_strictatime = 10
flag_index ms_synchronous = 11

abbrev pub flag_eq : Flag → Flag → Bool
flag_eq f g = flag_index f == flag_index g

-- `dtmd_string_to_mount_flag`
pub record MountFlag : Type 0 where
  pub option : Bytes
  pub flag : Flag
  pub enabled : Bool

-- `dtmd_mount_option`; the validation function gets the bytes behind the option's name.
pub record MountOption : Type 0 where
  pub option : Bytes
  pub has_param : Bool
  pub validation_function : Option (Bytes → ReturnCode)

-- `dtmd_filesystem_options`
pub record FilesystemOptions : Type 0 where
  pub external_fstype : Option Bytes
  pub fstype : Bytes
  pub options : List (List MountOption)
  pub option_uid : Option Bytes
  pub option_gid : Option Bytes
  pub defaults : Bytes
  pub mandatory_options : Bytes

-- `dtmd_fsopts_list_item`: `option` is the text from the option on, up to the end of the string
-- that it stands in, and `flag` is `none` for 0.
pub record Item : Type 0 where
  pub option : Bytes
  pub flag : Option Flag
  pub enabled : Bool
  pub option_full_len : ℕ
  pub option_len : ℕ

-- `dtmd_fsopts_list_id`, where it is set: the lengths are those of the two strings.
pub record OptionId : Type 0 where
  pub id_option : Bytes
  pub id_option_value : Bytes

-- `dtmd_fsopts_list_t`
pub record FsoptsList : Type 0 where
  pub options : List Item
  pub option_uid : Option OptionId
  pub option_gid : Option OptionId

-- `init_options_list`
unfoldable pub init_options_list : FsoptsList
init_options_list = record { options = []; option_uid = none; option_gid = none }
