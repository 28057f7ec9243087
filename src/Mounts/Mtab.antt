-- ===== src/Mounts/Mtab.antt =====
-- `add_to_mtab` and `remove_from_mtab` of daemon/mnt_funcs.c, on the entries of the mtab file.
use dtmd.Common.{
  ℕ, suc, Bool, not, ◌&&◌, Option, none, some, List, [], ◌∷◌, ◌++◌, if◌then◌else◌, Bytes, str_eq,
}
use dtmd.Misc.Types.{ReturnCode, success, client_error, fatal_error}

pub record MtabEntry : Type 0 where
  pub mnt_dir : Bytes
  pub mnt_fsname : Bytes
  pub mnt_type : Bytes
  pub mnt_opts : Bytes
  pub mnt_freq : ℕ
  pub mnt_passno : ℕ

-- Which of the calls succeed; `copied` is the answer of `addmntent` for each entry in its turn.
pub record MtabAnswers : Type 0 where
  pub opened : Bool
  pub created : Bool
  pub copied : ℕ → Bool
  pub stat : Bool
  pub chmod : Bool
  pub chown : Bool
  pub renamed : Bool

abbrev pub new_entry : Bytes → Bytes → Bytes → Bytes → MtabEntry
new_entry path mount_point type mount_opts = record {
  mnt_dir = mount_point;
  mnt_fsname = path;
  mnt_type = type;
  mnt_opts = mount_opts;
  mnt_freq = 0;
  mnt_passno = 0;
}

-- A failure to open the file is -1, which is the value of `result_client_error`.
unfoldable pub add_to_mtab :
    MtabAnswers → Bytes → Bytes → Bytes → Bytes → List MtabEntry → ReturnCode × List MtabEntry
add_to_mtab answers path mount_point type mount_opts mtab =
    if not answers.opened
    then (client_error, mtab)
    else if answers.copied 0
    then (success, mtab ++ new_entry path mount_point type mount_opts ∷ [])
    else (fatal_error, mtab)

-- The entry that is to be removed.
unfoldable pub is_entry : Bytes → Bytes → Bytes → MtabEntry → Bool
is_entry path mount_point type ent =
    str_eq ent.mnt_dir mount_point && str_eq ent.mnt_fsname path && str_eq ent.mnt_type type

-- The loop that copies the other entries to the temporary file.
unfoldable pub copy_entries :
    (ℕ → Bool) → Bytes → Bytes → Bytes → ℕ → List MtabEntry → Option (List MtabEntry)
copy_entries copied path mount_point type n [] = some []
copy_entries copied path mount_point type n (ent ∷ mtab) =
    let left_out = copy_entries copied path mount_point type n mtab in
    let rest = copy_entries copied path mount_point type (suc n) mtab in
    if is_entry path mount_point type ent
    then left_out
    else if copied n
    then elim rest [ none ↦ none | some entries ↦ some (ent ∷ entries) ]
    else none

-- The temporary file takes the place of the old one.
unfoldable pub replace_mtab :
    MtabAnswers → List MtabEntry → Option (List MtabEntry) → ReturnCode × List MtabEntry
replace_mtab answers mtab none = (fatal_error, mtab)
replace_mtab answers mtab (some entries) =
    if answers.stat && answers.chmod && answers.chown && answers.renamed
    then (success, entries)
    else (fatal_error, mtab)

unfoldable pub remove_from_mtab :
    MtabAnswers → Bytes → Bytes → Bytes → List MtabEntry → ReturnCode × List MtabEntry
remove_from_mtab answers path mount_point type mtab =
    if not answers.opened
    then (fatal_error, mtab)
    else if not answers.created
    then (fatal_error, mtab)
    else replace_mtab answers mtab (copy_entries answers.copied path mount_point type 0 mtab)
