-- ===== src/Options/Restricted.antt =====
-- What `invoke_mount` of daemon/filesystem_mnt.c mounts with has the flags that keep devices and
-- setuid programs out.
use dtmd.Common.{
  ℕ, ◌≡◌, subst, true, false, Option, none, some, List, option_cases, Bytes, codes, Mem,
}
use dtmd.Options.Types.{ms_nodev, ms_nosuid, FilesystemOptions, FsoptsList, init_options_list}
use dtmd.Options.Convert.{get_fsopts_for_fs, OptionAllocator, convert_options_to_list}
use dtmd.Options.Generate.{fsopts_generate_string}
use dtmd.Options.Strings.{full_texts}
use dtmd.Misc.Types.{failed_parsing_mount_options, generic_error}
use dtmd.Config.MountOpts.{ConfigMountOpts, get_mount_options}
use dtmd.Options.Mounting.{
  config_fstype, asked_options, forced_options, Prepared, refused, prepared, force_options,
  prepare_for_fs, prepare_options,
}
use dtmd.Options.Distinct.{IsDistinct}
use dtmd.Options.Proper.{IsProper, after_success, convert_options_to_list-IsProper}
use dtmd.Options.Forced.{
  IsRestricting, mandatory_options-IsRestricting, convert_options_to_list-Restricts,
  Enables-mount_flags, Enables-full_texts,
}

-- The list is one of a restricted mount, by its flags and by the texts of its full string, and no
-- two of its options are of one mount flag.
abbrev IsRestricted : FsoptsList → Type 0
IsRestricted l =
    ((full_size size : Option ℕ)
      → ((fsopts_generate_string full_size size l).flags ms_nodev ≡ true)
        × ((fsopts_generate_string full_size size l).flags ms_nosuid ≡ true))
    × (Mem (codes "nodev") (full_texts l)
        × Mem (codes "nosuid") (full_texts l)
        × IsDistinct l.options)

-- What holds of the list if there is one.
abbrev Lists : (FsoptsList → Type 0) → Prepared → Type 0
Lists P (refused rc code) = Unit
Lists P (prepared l) = P l

force_options-IsRestricted :
    (alloc : OptionAllocator) (mandatory : List ConfigMountOpts) (fs : FilesystemOptions)
    (l : FsoptsList)
    → IsRestricting (forced_options mandatory fs)
    → IsProper fs l.options
    → Lists IsRestricted (force_options alloc mandatory fs l)
unfolding force_options fsopts_generate_string
force_options-IsRestricted alloc mandatory fs l r p =
    let text = forced_options mandatory fs in
    let forced = convert_options_to_list alloc (some text) (some fs) none none l in
    let proper = convert_options_to_list-IsProper alloc (some text) fs none none l p in
    after_success (λ (x : Prepared). Lists IsRestricted x) forced.0 (prepared forced.1)
      (λ failure. refused failure generic_error)
      (λ s.
        let enabled = convert_options_to_list-Restricts alloc fs text l r s in
        (
          λ full_size size. (
            Enables-mount_flags ms_nodev (codes "nodev") forced.1.options (λ f. false) proper.1
                enabled.0,
            Enables-mount_flags ms_nosuid (codes "nosuid") forced.1.options (λ f. false) proper.1
                enabled.1,
          ),
          (
            Enables-full_texts ms_nodev (codes "nodev") forced.1 enabled.0,
            Enables-full_texts ms_nosuid (codes "nosuid") forced.1 enabled.1,
            proper.1,
          ),
        ))
      (λ s. tt)

-- No mandatory options are configured for the file systems of the tables.
abbrev pub Unconfigured : List ConfigMountOpts → Bytes → Type 0
Unconfigured mandatory fstype =
    (fs : FilesystemOptions)
    → get_fsopts_for_fs fstype ≡ some fs
    → get_mount_options (config_fstype fs) mandatory ≡ none

prepare_options-Lists :
    (alloc again : OptionAllocator) (defaults mandatory : List ConfigMountOpts) (fstype : Bytes)
    (mount_options : Option Bytes) (uid gid : ℕ)
    → Unconfigured mandatory fstype
    → Lists IsRestricted
        (prepare_options alloc again defaults mandatory fstype mount_options uid gid)
unfolding prepare_options prepare_for_fs forced_options init_options_list
prepare_options-Lists alloc again defaults mandatory fstype mount_options uid gid u =
    option_cases (λ (x : Prepared). Lists IsRestricted x) (get_fsopts_for_fs fstype) (λ n. tt)
      (λ fs e.
        let text = asked_options defaults fs mount_options in
        let asked =
          convert_options_to_list alloc (some text) (some fs) (some uid) (some gid)
            init_options_list in
        after_success (λ (x : Prepared). Lists IsRestricted x) asked.0
          (force_options again mandatory fs asked.1)
          (λ failure. refused failure failed_parsing_mount_options)
          (λ s.
            force_options-IsRestricted again mandatory fs asked.1
              (rw (u fs e) (mandatory_options-IsRestricting fstype fs e))
              (convert_options_to_list-IsProper alloc (some text) fs (some uid) (some gid)
                init_options_list (tt, tt)))
          (λ s. tt))

-- Where the configuration has no mandatory options for the file system: whatever options a client
-- asks for, and whatever the configured defaults are, if `invoke_mount` gets a list of options to
-- mount with, the mount flags that `fsopts_generate_string` makes of it have `nodev` and `nosuid`.
pub prepare_options-IsRestricted :
    (alloc again : OptionAllocator) (defaults mandatory : List ConfigMountOpts) (fstype : Bytes)
    (mount_options : Option Bytes) (uid gid : ℕ) (l : FsoptsList) (full_size size : Option ℕ)
    → Unconfigured mandatory fstype
    → prepare_options alloc again defaults mandatory fstype mount_options uid gid ≡ prepared l
    → ((fsopts_generate_string full_size size l).flags ms_nodev ≡ true)
      × ((fsopts_generate_string full_size size l).flags ms_nosuid ≡ true)
prepare_options-IsRestricted alloc again defaults mandatory fstype mount_options uid gid l full_size
      size u e =
    (subst (λ x. Lists IsRestricted x) e
        (prepare_options-Lists alloc again defaults mandatory fstype mount_options uid gid u)).0
      full_size size

-- The full string of such a list names both options, and no option of the list is of the mount flag
-- of another.
pub prepare_options-full_texts :
    (alloc again : OptionAllocator) (defaults mandatory : List ConfigMountOpts) (fstype : Bytes)
    (mount_options : Option Bytes) (uid gid : ℕ) (l : FsoptsList)
    → Unconfigured mandatory fstype
    → prepare_options alloc again defaults mandatory fstype mount_options uid gid ≡ prepared l
    → Mem (codes "nodev") (full_texts l)
      × Mem (codes "nosuid") (full_texts l)
      × IsDistinct l.options
prepare_options-full_texts alloc again defaults mandatory fstype mount_options uid gid l u e =
    (subst (λ x. Lists IsRestricted x) e
      (prepare_options-Lists alloc again defaults mandatory fstype mount_options uid gid u)).1
