-- ===== src/Config/Accepted.antt =====
-- The configured mount options are options that their file systems accept.
use dtmd.Common.{
  ◌≡◌, subst, Bool, true, false, Option, none, some, List, [], ◌∷◌, option_cases, if_cases, if_both,
  All, Bytes, codes, str_eq, str_eq_iff,
}
use dtmd.Misc.Types.{ReturnCode, success}
use dtmd.Options.Types.{FilesystemOptions, init_options_list}
use dtmd.Options.Convert.{OptionAllocator, get_fsopts_for_fs, convert_options_to_list}
use dtmd.Options.Proper.{after_success}
use dtmd.Config.MountOpts.{ConfigMountOpts, insert_mount_opts}
use dtmd.Config.Values.{
  Config, ConfigAllocator, unquote, behind_prefix, choose, set_mount_dir, insert_accepted,
  insert_quoted, set_mount_opts, set_default, set_mandatory, process_mount_opts,
  process_config_value, mount_by_device_name, mount_by_device_label,
}

-- The tables have the file system, and the options can be converted.
abbrev pub IsAcceptedFor : Bytes → Bytes → Type 0
IsAcceptedFor fs_type opts =
    (fs : FilesystemOptions) × (get_fsopts_for_fs fs_type ≡ some fs)
    × (alloc : OptionAllocator) × ((convert_options_to_list alloc (some opts) (some fs) none none
          init_options_list).0
        ≡ success)

abbrev pub AreAccepted : List ConfigMountOpts → Type 0
AreAccepted array = All (λ e. IsAcceptedFor e.fs_type e.opts) array

abbrev pub IsSound : Config → Type 0
IsSound c = AreAccepted c.default_mount_opts × AreAccepted c.mandatory_mount_opts

insert_mount_opts-AreAccepted :
    (allocated : Bool) (fs_name fs_opts : Bytes) (array : List ConfigMountOpts)
    → IsAcceptedFor fs_name fs_opts
    → AreAccepted array
    → AreAccepted (insert_mount_opts allocated fs_name fs_opts array).1
unfolding insert_mount_opts
insert_mount_opts-AreAccepted true fs_name fs_opts [] a h = (a, tt)
insert_mount_opts-AreAccepted false fs_name fs_opts [] a h = tt
insert_mount_opts-AreAccepted allocated fs_name fs_opts (entry ∷ array) a h =
    let rest = insert_mount_opts allocated fs_name fs_opts array in
    if_cases (λ (r : ReturnCode × List ConfigMountOpts). AreAccepted r.1)
      (str_eq fs_name entry.fs_type)
      (λ e. (subst (λ n. IsAcceptedFor n fs_opts) ((str_eq_iff fs_name entry.fs_type).0 e) a, h.1))
      (λ e. (h.0, insert_mount_opts-AreAccepted allocated fs_name fs_opts array a h.1))

set_mount_opts-AreAccepted :
    (alloc : ConfigAllocator) (name : Bytes) (value : Option Bytes) (array : List ConfigMountOpts)
    → AreAccepted array
    → AreAccepted (set_mount_opts alloc name value array).1
unfolding set_mount_opts insert_quoted insert_accepted
set_mount_opts-AreAccepted alloc [] value array h = h
set_mount_opts-AreAccepted alloc (d ∷ name) none array h = h
set_mount_opts-AreAccepted alloc (d ∷ name) (some fs_opts) array h =
    if_cases (λ (r : ReturnCode × List ConfigMountOpts). AreAccepted r.1) alloc.fs_name
      (λ e.
        if_cases (λ (r : ReturnCode × List ConfigMountOpts). AreAccepted r.1) alloc.fs_opts
          (λ e'.
            option_cases (λ (r : ReturnCode × List ConfigMountOpts). AreAccepted r.1)
              (get_fsopts_for_fs (d ∷ name)) (λ n. h)
              (λ fs s.
                after_success (λ (r : ReturnCode × List ConfigMountOpts). AreAccepted r.1)
                  (convert_options_to_list alloc.options (some fs_opts) (some fs) none none
                    init_options_list).0
                  (insert_mount_opts alloc.entry (d ∷ name) fs_opts array)
                  (λ failure. (failure, array))
                  (λ k.
                    insert_mount_opts-AreAccepted alloc.entry (d ∷ name) fs_opts array
                      (fs, s, alloc.options, k) h)
                  (λ k. h)))
          (λ e'. h))
      (λ e. h)

process_mount_opts-IsSound :
    (alloc : ConfigAllocator) (key value : Bytes) (c : Config)
    → IsSound c
    → IsSound (process_mount_opts alloc key value c).1
unfolding process_mount_opts set_default set_mandatory
process_mount_opts-IsSound alloc key value c h =
    option_cases (λ (r : ReturnCode × Config). IsSound r.1)
      (behind_prefix (codes "default_mount_opts_") key)
      (λ n.
        option_cases (λ (r : ReturnCode × Config). IsSound r.1)
          (behind_prefix (codes "mandatory_mount_opts_") key) (λ m. h)
          (λ name s. (
            h.0,
            set_mount_opts-AreAccepted alloc name (unquote value) c.mandatory_mount_opts h.1,
          )))
      (λ name s.
        (set_mount_opts-AreAccepted alloc name (unquote value) c.default_mount_opts h.0, h.1))

module _ (value : Bytes) (one other c : Config) where
  choose-IsSound :
      (first second : Bytes)
      → IsSound one
      → IsSound other
      → IsSound c
      → IsSound (choose first second value one other c).1
  unfolding choose
  choose-IsSound first second p q h =
      if_both (λ (r : ReturnCode × Config). IsSound r.1) (str_eq value first) p
        (if_both (λ (r : ReturnCode × Config). IsSound r.1) (str_eq value second) q h)

set_mount_dir-IsSound :
    (allocated : Bool) (dir : Option Bytes) (c : Config)
    → IsSound c
    → IsSound (set_mount_dir allocated dir c).1
unfolding set_mount_dir
set_mount_dir-IsSound allocated none c h = h
set_mount_dir-IsSound true (some dir) c h = h
set_mount_dir-IsSound false (some dir) c h = h

abbrev LeavesSound : ReturnCode × Config → Type 0
LeavesSound r = IsSound r.1

-- `process_config_value`, whatever it returns, keeps the configured default and mandatory options
-- such that the tables have each file system and `convert_options_to_list` can convert its options
-- with success.
pub process_config_value-IsSound :
    (alloc : ConfigAllocator) (key value : Bytes) (c : Config)
    → IsSound c
    → IsSound (process_config_value alloc key value c).1
unfolding process_config_value
process_config_value-IsSound alloc key value c h =
    let yes_no = λ (one other : Config) (p : IsSound one) (q : IsSound other).
      choose-IsSound value one other c (codes "yes") (codes "no") p q h in
    if_both LeavesSound (str_eq key (codes "unmount_on_exit"))
      (yes_no (record c { unmount_on_exit = true }) (record c { unmount_on_exit = false }) h h)
      (if_both LeavesSound (str_eq key (codes "mount_by"))
        (choose-IsSound value (record c { mount_by_value = mount_by_device_name })
          (record c { mount_by_value = mount_by_device_label }) c (codes "name") (codes "label") h h
          h)
        (if_both LeavesSound (str_eq key (codes "use_syslog"))
          (yes_no (record c { use_syslog = true }) (record c { use_syslog = false }) h h)
          (if_both LeavesSound (str_eq key (codes "mount_dir"))
            (set_mount_dir-IsSound alloc.mount_dir (unquote value) c h)
            (if_both LeavesSound (str_eq key (codes "create_mount_dir"))
              (yes_no (record c { create_mount_dir_on_startup = true })
                (record c { create_mount_dir_on_startup = false }) h h)
              (if_both LeavesSound (str_eq key (codes "clear_mount_dir"))
                (yes_no (record c { clear_mount_dir = true }) (record c { clear_mount_dir = false })
                  h h)
                (process_mount_opts-IsSound alloc key value c h))))))
