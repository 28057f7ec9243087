-- ===== src/Config/Values.antt =====
-- `process_config_value` of daemon/config_file.c, on the settings that the daemon keeps.
use dtmd.Common.{
  Bool, true, false, Option, none, some, List, [], ◌∷◌, if◌then◌else◌, ◌==◌, Bytes, codes, str_eq,
}
use dtmd.Misc.Types.{ReturnCode, success, fail, fatal_error}
use dtmd.Options.Types.{FilesystemOptions, init_options_list}
use dtmd.Options.Convert.{OptionAllocator, get_fsopts_for_fs, convert_options_to_list}
use dtmd.Config.MountOpts.{ConfigMountOpts, insert_mount_opts}

pub data MountByValue : Type 0 where
  mount_by_device_name mount_by_device_label : MountByValue

pub record Config : Type 0 where
  pub unmount_on_exit : Bool
  pub mount_by_value : MountByValue
  pub use_syslog : Bool
  pub mount_dir : Option Bytes
  pub create_mount_dir_on_startup : Bool
  pub clear_mount_dir : Bool
  pub default_mount_opts : List ConfigMountOpts
  pub mandatory_mount_opts : List ConfigMountOpts

-- The answers of the allocator to one call.
pub record ConfigAllocator : Type 0 where
  pub mount_dir : Bool
  pub fs_name : Bool
  pub fs_opts : Bool
  pub entry : Bool
  pub options : OptionAllocator

-- The text before a quotation mark at the end.
unfoldable pub before_quote : Bytes → Option Bytes
before_quote [] = none
before_quote (c ∷ []) = if c == b'"' then some [] else none
before_quote (c ∷ d ∷ s) = elim (before_quote (d ∷ s)) [ none ↦ none | some t ↦ some (c ∷ t) ]

-- The text between two quotation marks.
unfoldable pub unquote : Bytes → Option Bytes
unquote [] = none
unquote (c ∷ s) = if c == b'"' then before_quote s else none

-- What stands behind a prefix.
unfoldable pub behind_prefix : Bytes → Bytes → Option Bytes
behind_prefix [] key = some key
behind_prefix (c ∷ prefix) [] = none
behind_prefix (c ∷ prefix) (d ∷ key) =
    let rest = behind_prefix prefix key in if c == d then rest else none

-- A setting with one of two values.
unfoldable pub choose : Bytes → Bytes → Bytes → Config → Config → Config → ReturnCode × Config
choose first second value one other c =
    if str_eq value first
    then (success, one)
    else if str_eq value second
    then (success, other)
    else (fail, c)

unfoldable pub set_mount_dir : Bool → Option Bytes → Config → ReturnCode × Config
set_mount_dir allocated none c = (fail, c)
set_mount_dir allocated (some dir) c =
    if allocated
    then (success, record c { mount_dir = some dir })
    else (fatal_error, record c { mount_dir = none })

-- Options that the file system's tables accept go into the array.
unfoldable pub insert_accepted :
    ConfigAllocator
    → FilesystemOptions
    → Bytes
    → Bytes
    → List ConfigMountOpts
    → ReturnCode × List ConfigMountOpts
insert_accepted alloc fs fs_name fs_opts array =
    elim (convert_options_to_list alloc.options (some fs_opts) (some fs) none none
      init_options_list).0 [
        | success ↦ insert_mount_opts alloc.entry fs_name fs_opts array
        | failure ↦ (failure, array)
      ]

unfoldable pub insert_quoted :
    ConfigAllocator → Bytes → Bytes → List ConfigMountOpts → ReturnCode × List ConfigMountOpts
insert_quoted alloc fs_name fs_opts array =
    if alloc.fs_name
    then (if alloc.fs_opts
        then elim (get_fsopts_for_fs fs_name) [
          | none ↦ (fatal_error, array)
          | some fs ↦ insert_accepted alloc fs fs_name fs_opts array
        ]
        else (fatal_error, array))
    else (fatal_error, array)

-- The part behind the test for the prefix: the name of the file system, and the value.
unfoldable pub set_mount_opts :
    ConfigAllocator
    → Bytes
    → Option Bytes
    → List ConfigMountOpts
    → ReturnCode × List ConfigMountOpts
set_mount_opts alloc [] value array = (fail, array)
set_mount_opts alloc (d ∷ name) none array = (fail, array)
set_mount_opts alloc (d ∷ name) (some fs_opts) array = insert_quoted alloc (d ∷ name) fs_opts array

unfoldable pub set_default : Config → ReturnCode × List ConfigMountOpts → ReturnCode × Config
set_default c (rc, array) = (rc, record c { default_mount_opts = array })

unfoldable pub set_mandatory : Config → ReturnCode × List ConfigMountOpts → ReturnCode × Config
set_mandatory c (rc, array) = (rc, record c { mandatory_mount_opts = array })

-- The keys that are prefixes.
unfoldable pub process_mount_opts : ConfigAllocator → Bytes → Bytes → Config → ReturnCode × Config
process_mount_opts alloc key value c = elim (behind_prefix (codes "default_mount_opts_") key) [
  | some name ↦ set_default c (set_mount_opts alloc name (unquote value) c.default_mount_opts)
  | none ↦ elim (behind_prefix (codes "mandatory_mount_opts_") key) [
    | some name ↦ set_mandatory c (set_mount_opts alloc name (unquote value) c.mandatory_mount_opts)
    | none ↦ (fail, c)
  ]
]

abbrev pub yes_no : Bytes → Config → Config → Config → ReturnCode × Config
yes_no value one other c = choose (codes "yes") (codes "no") value one other c

unfoldable pub process_config_value : ConfigAllocator → Bytes → Bytes → Config → ReturnCode × Config
process_config_value alloc key value c =
    if str_eq key (codes "unmount_on_exit")
    then yes_no value (record c { unmount_on_exit = true }) (record c { unmount_on_exit = false }) c
    else if str_eq key (codes "mount_by")
    then choose (codes "name") (codes "label") value
        (record c { mount_by_value = mount_by_device_name })
        (record c { mount_by_value = mount_by_device_label }) c
    else if str_eq key (codes "use_syslog")
    then yes_no value (record c { use_syslog = true }) (record c { use_syslog = false }) c
    else if str_eq key (codes "mount_dir")
    then set_mount_dir alloc.mount_dir (unquote value) c
    else if str_eq key (codes "create_mount_dir")
    then yes_no value (record c { create_mount_dir_on_startup = true })
        (record c { create_mount_dir_on_startup = false }) c
    else if str_eq key (codes "clear_mount_dir")
    then yes_no value (record c { clear_mount_dir = true }) (record c { clear_mount_dir = false }) c
    else process_mount_opts alloc key value c
