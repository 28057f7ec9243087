-- ===== src/Options/Accepted.antt =====
-- The options that the tables name themselves are options that they allow.
use dtmd.Common.{
  ℕ, ◌≡◌, refl, Bool, true, false, not, ◌&&◌, Option, none, some, List, [], ◌∷◌, option_cases,
  if_cases, All, Bytes, ◌==◌,
}
use dtmd.Misc.Types.{ReturnCode, success, fail, client_error, fatal_error, bug}
use dtmd.Options.Types.{FilesystemOptions, Item, OptionId, FsoptsList}
use dtmd.Options.Tables.{
  string_to_mount_flag_list, filesystem_mount_options, any_fs_allowed_list, common_fs_allowed_list,
  vfat_allow, exfat_allow, ntfs3g_allow, iso9660_allow, udf_allow, vfat_allow_list,
  exfat_allow_list, ntfs3g_allow_list, iso9660_allow_list, udf_allow_list,
}
use dtmd.Options.Validate.{
  validate_is_single_int, validate_is_access_mode, validate_is_octal_number, validate_is_string,
  validate_vfat_is_shortname,
}
use dtmd.Options.Convert.{
  get_fsopts_for_fs, find_option_in_list, find_in_tables, find_in_table, is_option, option_length,
  option_starts, behind_commas, validate, is_duplicate, take_out, fill_item, find_mount_flag,
  OptionAllocator, place_item, convert_found, convert_option, convert_loop, convert_ids, convert_id,
  convert_all, convert_options_to_list,
}
use dtmd.Options.Proper.{after_success}
use dtmd.Options.Forced.{find_filesystem-All}

abbrev is_success : ReturnCode → Bool
is_success rc = elim rc [ success ↦ true | failure ↦ false ]

is_success-eq : (rc : ReturnCode) → is_success rc ≡ true → rc ≡ success
is_success-eq success e = refl
is_success-eq fail e = cc
is_success-eq client_error e = cc
is_success-eq fatal_error e = cc
is_success-eq bug e = cc

-- Whether an option is in the tables and its value is accepted.
abbrev allowed_value : FilesystemOptions → Bytes → Bool
allowed_value fs option = elim (find_option_in_list option (option_length option) fs) [
  | none ↦ false
  | some o ↦ is_success (validate o option (option_length option))
]

unfoldable accepted : FilesystemOptions → Bytes → Bool
accepted fs option = not (option_length option == 0) && allowed_value fs option

unfoldable all_accepted : FilesystemOptions → List Bytes → Bool
all_accepted fs [] = true
all_accepted fs (option ∷ options) = accepted fs option && all_accepted fs options

both : (a b : Bool) → (a && b) ≡ true → (a ≡ true) × (b ≡ true)
both true b e = (refl, e)
both false b e = cc

-- The allocator always answers.
abbrev pub Answers : OptionAllocator → Type 0
Answers alloc =
    ((option : Bytes) → alloc.item option ≡ true) × (alloc.uid ≡ true) × (alloc.gid ≡ true)

convert_id-success :
    (allocated : Bool) (id : Option ℕ) (name : Option Bytes) (old : Option OptionId)
    → allocated ≡ true
    → (convert_id allocated id name old).0 ≡ success
unfolding convert_id
convert_id-success allocated (some id) (some name) old e = rw e refl
convert_id-success allocated none name old e = refl
convert_id-success allocated (some id) none old e = refl

module _ (alloc : OptionAllocator) (fs : FilesystemOptions) (answers : Answers alloc) where
  place_item-success :
      (option : Bytes) (test : Item → Bool) (new : Item) (items : List Item)
      → (place_item (alloc.item option) test new items).0 ≡ success
  unfolding place_item
  place_item-success option test new items =
      option_cases (λ (r : ReturnCode × List Item). r.0 ≡ success) (take_out test items)
        (λ n. rw (answers.0 option) refl) (λ others s. refl)

  convert_option-success :
      (option : Bytes) (items : List Item)
      → accepted fs option ≡ true
      → (convert_option alloc fs option items).0 ≡ success
  unfolding convert_option convert_found accepted
  convert_option-success option items a =
      let len = option_length option in
      let parts = both (not (len == 0)) (allowed_value fs option) a in
      if_cases (λ (r : ReturnCode × List Item). r.0 ≡ success) (len == 0)
        (λ z. cc (rw z at parts.0))
        (λ z.
          option_cases (λ (r : ReturnCode × List Item). r.0 ≡ success)
            (find_option_in_list option len fs) (λ n. cc (rw (n, allowed_value) at parts.1))
            (λ o s.
              let m = find_mount_flag option len string_to_mount_flag_list in
              after_success (λ (r : ReturnCode × List Item). r.0 ≡ success) (validate o option len)
                (place_item (alloc.item option) (is_duplicate option m) (fill_item option len o m)
                  items)
                (λ failure. (failure, items))
                (λ v.
                  place_item-success option (is_duplicate option m) (fill_item option len o m)
                    items)
                (λ v.
                  absurd (
                    v (is_success-eq (validate o option len) (rw (s, allowed_value) at parts.1))))))

  convert_loop-success :
      (options : List Bytes) (items : List Item)
      → all_accepted fs options ≡ true
      → (convert_loop alloc fs options items).0 ≡ success
  unfolding convert_loop all_accepted
  convert_loop-success [] items a = refl
  convert_loop-success (option ∷ options) items a =
      let parts = both _ _ a in
      let round = convert_option alloc fs option items in
      after_success (λ (r : ReturnCode × List Item). r.0 ≡ success) round.0
        (convert_loop alloc fs options round.1) (λ failure. (failure, round.1))
        (λ e. convert_loop-success options round.1 parts.1)
        (λ e. absurd (e (convert_option-success option items parts.0)))

  convert_ids-success :
      (uid gid : Option ℕ) (l : FsoptsList) → (convert_ids alloc fs uid gid l).0 ≡ success
  unfolding convert_ids
  convert_ids-success uid gid l =
      let new_uid = convert_id alloc.uid uid fs.option_uid l.option_uid in
      let new_gid = convert_id alloc.gid gid fs.option_gid l.option_gid in
      after_success (λ (r : ReturnCode × FsoptsList). r.0 ≡ success) new_uid.0
        (new_gid.0, record l { option_uid = new_uid.1; option_gid = new_gid.1 })
        (λ failure. (failure, record l { option_uid = new_uid.1 }))
        (λ e. convert_id-success alloc.gid gid fs.option_gid l.option_gid answers.2)
        (λ e. absurd (e (convert_id-success alloc.uid uid fs.option_uid l.option_uid answers.1)))

  convert_options_to_list-success :
      (options_list : Bytes) (uid gid : Option ℕ) (l : FsoptsList)
      → all_accepted fs (option_starts options_list) ≡ true
      → (convert_options_to_list alloc (some options_list) (some fs) uid gid l).0 ≡ success
  unfolding convert_options_to_list convert_all
  convert_options_to_list-success options_list uid gid l a =
      let loop = convert_loop alloc fs (option_starts options_list) l.options in
      let l' : FsoptsList = record l { options = loop.1 } in
      after_success (λ (r : ReturnCode × FsoptsList). r.0 ≡ success) loop.0
        (convert_ids alloc fs uid gid l') (λ failure. (failure, l'))
        (λ e. convert_ids-success uid gid l')
        (λ e. absurd (e (convert_loop-success (option_starts options_list) l.options a)))

abbrev AcceptsOwn : FilesystemOptions → Type 0
AcceptsOwn fs =
    (all_accepted fs (option_starts fs.defaults) ≡ true)
    × (all_accepted fs (option_starts fs.mandatory_options) ≡ true)

filesystem_mount_options-AcceptsOwn : All AcceptsOwn filesystem_mount_options
unfolding filesystem_mount_options accepted all_accepted option_starts behind_commas option_length
    find_option_in_list find_in_tables find_in_table is_option validate validate_is_single_int
    validate_is_access_mode validate_is_octal_number validate_is_string validate_vfat_is_shortname
    any_fs_allowed_list common_fs_allowed_list vfat_allow exfat_allow ntfs3g_allow iso9660_allow
    udf_allow vfat_allow_list exfat_allow_list ntfs3g_allow_list iso9660_allow_list udf_allow_list
filesystem_mount_options-AcceptsOwn = (
  (refl, refl),
  ((refl, refl), ((refl, refl), ((refl, refl), ((refl, refl), ((refl, refl), tt))))),
)

-- If the allocator answers, a file system's own default options and its own mandatory options are
-- converted with success, to whatever list they are added.
pub own_options-success :
    (alloc : OptionAllocator) (name : Bytes) (fs : FilesystemOptions) (uid gid : Option ℕ)
    (l : FsoptsList)
    → Answers alloc
    → get_fsopts_for_fs name ≡ some fs
    → ((convert_options_to_list alloc (some fs.defaults) (some fs) uid gid l).0 ≡ success)
      × ((convert_options_to_list alloc (some fs.mandatory_options) (some fs) uid gid l).0
          ≡ success)
unfolding get_fsopts_for_fs
own_options-success alloc name fs uid gid l answers e =
    let own =
      find_filesystem-All AcceptsOwn name filesystem_mount_options fs
        filesystem_mount_options-AcceptsOwn e in
    (
      convert_options_to_list-success alloc fs answers fs.defaults uid gid l own.0,
      convert_options_to_list-success alloc fs answers fs.mandatory_options uid gid l own.1,
    )
