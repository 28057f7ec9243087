-- ===== src/Commands/Tabulated.antt =====
-- What the two listings of the tables of file systems write.
use dtmd.Common.{
  ◌≡◌, refl, sym, ap, subst, ◌∙◌, Bool-cases, inl, inr, Bool, true, ◌&&◌, Option, none, some,
  some_inj, List, [], ◌∷◌, All, if_cases, Bytes, str_eq, str_eq_iff,
}
use dtmd.Options.Types.{FilesystemOptions}
use dtmd.Options.Tables.{
  filesystem_mount_options, any_fs_allowed_list, common_fs_allowed_list, vfat_allow,
  vfat_allow_list, exfat_allow_list, exfat_allow, ntfs3g_allow_list, ntfs3g_allow,
  iso9660_allow_list, iso9660_allow, udf_allow_list, udf_allow,
}
use dtmd.Options.Convert.{find_filesystem, get_fsopts_for_fs}
use dtmd.Options.Forced.{find_filesystem-All}
use dtmd.Commands.Wire.{Wire}
use dtmd.Commands.Printed.{Accepts}
use dtmd.Commands.Invoke.{list_supported_filesystems, list_supported_filesystem_options}
use dtmd.Commands.Supported.{
  supported_filesystems_list, supported_filesystem_options_list, write_items, write_lists, fstypes,
  invoke_list_supported_filesystems, invoke_list_supported_filesystem_options,
}
use dtmd.Commands.Listed.{
  write_items-pieces, all_names, write_lists-pieces, is_full, IsListing, listed, listed-joined,
  listed-Sent,
}

-- The names in the tables are not empty.
abbrev all_full : List Bytes → Bool
all_full [] = true
all_full (name ∷ names) = is_full name && all_full names

all_full-All : (names : List Bytes) → all_full names ≡ true → All (λ n. is_full n ≡ true) names
all_full-All [] h = tt
all_full-All (name ∷ names) h = elim (Bool-cases (is_full name)) [
  | inl y ↦ (y, all_full-All names (rw y at h))
  | inr y ↦ let no = rw y at h in cc
]

abbrev HasNames : FilesystemOptions → Type 0
HasNames fs = (is_full fs.fstype ≡ true) × (all_full (all_names fs.options) ≡ true)

filesystem_mount_options-HasNames : All HasNames filesystem_mount_options
unfolding filesystem_mount_options any_fs_allowed_list common_fs_allowed_list vfat_allow
    vfat_allow_list exfat_allow_list exfat_allow ntfs3g_allow_list ntfs3g_allow iso9660_allow_list
    iso9660_allow udf_allow_list udf_allow
filesystem_mount_options-HasNames = (
  (refl, refl),
  ((refl, refl), ((refl, refl), ((refl, refl), ((refl, refl), ((refl, refl), tt))))),
)

find_filesystem-name :
    (name : Bytes) (table : List FilesystemOptions) (fs : FilesystemOptions)
    → find_filesystem name table ≡ some fs
    → fs.fstype ≡ name
unfolding find_filesystem
find_filesystem-name name [] fs = λ e. cc
find_filesystem-name name (entry ∷ table) fs =
    if_cases (λ (r : Option FilesystemOptions). r ≡ some fs → fs.fstype ≡ name)
      (str_eq entry.fstype name)
      (λ t e.
        ap (λ (x : FilesystemOptions). x.fstype) (sym (some_inj e))
        ∙ (str_eq_iff entry.fstype name).0 t)
      (λ t e. find_filesystem-name name table fs e)

-- Where every write is accepted: the list of the file systems is written as one line with all names
-- of the tables, and that of the options of a file system that the tables have as one line with the
-- options of all its tables in their order, each between the lines that start and finish it.
pub listings-IsListing :
    (wire : Wire) (filesystem : Bytes) (fs : FilesystemOptions) (sent : List Bytes)
    → Accepts wire
    → get_fsopts_for_fs filesystem ≡ some fs
    → IsListing list_supported_filesystems none supported_filesystems_list
        (fstypes filesystem_mount_options)
        sent
        (invoke_list_supported_filesystems wire sent)
      × IsListing list_supported_filesystem_options
          (some filesystem)
          supported_filesystem_options_list
          (all_names fs.options)
          sent
          (invoke_list_supported_filesystem_options wire filesystem sent)
unfolding invoke_list_supported_filesystems invoke_list_supported_filesystem_options
    get_fsopts_for_fs filesystem_mount_options
listings-IsListing wire filesystem fs sent a e =
    let has =
      find_filesystem-All HasNames filesystem filesystem_mount_options fs
        filesystem_mount_options-HasNames e in
    let name = find_filesystem-name filesystem filesystem_mount_options fs e in
    (
      (
        listed list_supported_filesystems none supported_filesystems_list
            (fstypes filesystem_mount_options),
        (
          listed-Sent list_supported_filesystems none supported_filesystems_list
              (fstypes filesystem_mount_options) wire sent
              (λ s. write_items wire true (fstypes filesystem_mount_options) s) a
              (λ s. write_items-pieces wire true (fstypes filesystem_mount_options) s a),
          listed-joined list_supported_filesystems none supported_filesystems_list
              (fstypes filesystem_mount_options) refl refl
              (all_full-All (fstypes filesystem_mount_options) refl),
        ),
      ),
      (
        listed list_supported_filesystem_options (some filesystem) supported_filesystem_options_list
            (all_names fs.options),
        (
          rw (e, invoke_list_supported_filesystem_options)
              (listed-Sent list_supported_filesystem_options (some filesystem)
                supported_filesystem_options_list (all_names fs.options) wire sent
                (λ s. write_lists wire true fs.options s) a
                (λ s. write_lists-pieces wire true fs.options s a)),
          listed-joined list_supported_filesystem_options (some filesystem)
              supported_filesystem_options_list (all_names fs.options) refl
              (subst (λ n. is_full n ≡ true) name has.0)
              (all_full-All (all_names fs.options) has.1),
        ),
      ),
    )
