-- ===== src/Options/Forced.antt =====
-- The mandatory options of the tables, and what their conversion leaves in the list.
use dtmd.Common.{
  sym, Mem, mem-cast, mem-cons_self, mem-cons_of_mem, mem-append_left, mem-map_of_mem, ◌≡◌, refl,
  subst, ◌∙◌, Bool, true, Option, none, some, List, [], ◌∷◌, ◌++◌, ◌⊎◌, inl, inr, if_cases, All,
  Bytes, codes, str_eq, some_inj,
}
use dtmd.Misc.Types.{ReturnCode, success}
use dtmd.Options.Types.{Flag, ms_nodev, ms_nosuid, MountFlag, FilesystemOptions, Item, FsoptsList}
use dtmd.Options.Tables.{string_to_mount_flag_list, filesystem_mount_options}
use dtmd.Options.Convert.{
  find_filesystem, get_fsopts_for_fs, option_length, option_starts, behind_commas, is_duplicate,
  find_mount_flag, OptionAllocator, convert_option, convert_loop, convert_ids, convert_all,
  convert_options_to_list,
}
use dtmd.Options.Generate.{mount_flags}
use dtmd.Options.Writes.{option_text}
use dtmd.Options.Strings.{id_texts, full_texts}
use dtmd.Options.TakeOut.{Member}
use dtmd.Options.Distinct.{IsDistinct}
use dtmd.Options.Proper.{after_success, convert_ids-options}
use dtmd.Options.Mandatory.{
  flag_of, flag_item, Spares, convert_option-Member, convert_loop-Stays, mount_flags-Member,
}

module _ (P : FilesystemOptions → Type 0) where
  pub find_filesystem-All :
      (name : Bytes) (table : List FilesystemOptions) (fs : FilesystemOptions)
      → All P table
      → find_filesystem name table ≡ some fs
      → P fs
  unfolding find_filesystem
  find_filesystem-All name [] fs h = λ e. cc
  find_filesystem-All name (entry ∷ table) fs h =
      if_cases (λ (r : Option FilesystemOptions). r ≡ some fs → P fs) (str_eq entry.fstype name)
        (λ t e. subst P (some_inj e) h.0) (λ t e. find_filesystem-All name table fs h.1 e)

module _ (alloc : OptionAllocator) (fs : FilesystemOptions) where
  -- The item is in the list behind every conversion of the options that succeeds.
  unfoldable Leaves : Item → List Bytes → Type 0
  Leaves x options =
      (items : List Item)
      → (convert_loop alloc fs options items).0 ≡ success
      → Member x (convert_loop alloc fs options items).1

  Leaves-first :
      (option : Bytes) (options : List Bytes) (m : MountFlag)
      → flag_of option ≡ some m
      → Spares (flag_item option m) options
      → Leaves (flag_item option m) (option ∷ options)
  unfolding Leaves convert_loop
  Leaves-first option options m e s items =
      let round = convert_option alloc fs option items in
      after_success
        (λ (r : ReturnCode × List Item). r.0 ≡ success → Member (flag_item option m) r.1) round.0
        (convert_loop alloc fs options round.1) (λ failure. (failure, round.1))
        (λ r k.
          convert_loop-Stays alloc fs (flag_item option m) options round.1 s
            (convert_option-Member alloc fs option m items e r))
        (λ r k. absurd (r k))

  Leaves-later :
      (x : Item) (option : Bytes) (options : List Bytes)
      → Leaves x options
      → Leaves x (option ∷ options)
  unfolding Leaves convert_loop
  Leaves-later x option options h items =
      let round = convert_option alloc fs option items in
      after_success (λ (r : ReturnCode × List Item). r.0 ≡ success → Member x r.1) round.0
        (convert_loop alloc fs options round.1) (λ failure. (failure, round.1)) (λ r k. h round.1 k)
        (λ r k. absurd (r k))

-- The two strings that the tables have for mandatory options.
abbrev pub IsRestricting : Bytes → Type 0
IsRestricting options_list =
    (options_list ≡ codes "nodev,nosuid") ⊎ (options_list ≡ codes "nodev,nosuid,norecover")

pub mandatory_options-IsRestricting :
    (name : Bytes) (fs : FilesystemOptions)
    → get_fsopts_for_fs name ≡ some fs
    → IsRestricting fs.mandatory_options
unfolding get_fsopts_for_fs filesystem_mount_options
mandatory_options-IsRestricting name fs =
    find_filesystem-All (λ f. IsRestricting f.mandatory_options) name filesystem_mount_options fs
      (inl refl, (inl refl, (inr refl, (inr refl, (inl refl, (inl refl, tt))))))

-- One of the items is an option of the text that enables the flag.
abbrev pub Enables : Flag → Bytes → List Item → Type 0
Enables f text items =
    (x : Item) × (x.flag ≡ some f) × (x.enabled ≡ true) × (option_text x ≡ text) × Member x items

abbrev pub EnablesBoth : List Item → Type 0
EnablesBoth items =
    Enables ms_nodev (codes "nodev") items × Enables ms_nosuid (codes "nosuid") items

abbrev Restricts : ReturnCode × List Item → Type 0
Restricts r = r.0 ≡ success → EnablesBoth r.1

abbrev nodev : MountFlag
nodev = record { option = codes "nodev"; flag = ms_nodev; enabled = true }

abbrev nosuid : MountFlag
nosuid = record { option = codes "nosuid"; flag = ms_nosuid; enabled = true }

leaves-Restricts :
    (alloc : OptionAllocator) (fs : FilesystemOptions) (rest : Bytes) (options : List Bytes)
    → flag_of (codes "nodev,nosuid" ++ rest) ≡ some nodev
    → flag_of (codes "nosuid" ++ rest) ≡ some nosuid
    → option_text (flag_item (codes "nodev,nosuid" ++ rest) nodev) ≡ codes "nodev"
    → option_text (flag_item (codes "nosuid" ++ rest) nosuid) ≡ codes "nosuid"
    → Spares (flag_item (codes "nodev,nosuid" ++ rest) nodev) ((codes "nosuid" ++ rest) ∷ options)
    → Spares (flag_item (codes "nosuid" ++ rest) nosuid) options
    → (items : List Item)
    → Restricts (
        convert_loop alloc fs
          ((codes "nodev,nosuid" ++ rest) ∷ (codes "nosuid" ++ rest) ∷ options)
          items)
unfolding Leaves
leaves-Restricts alloc fs rest options e f a b s t items k =
    let first = codes "nodev,nosuid" ++ rest in
    let second = codes "nosuid" ++ rest in
    (
      (
        flag_item first nodev,
        refl,
        refl,
        a,
        Leaves-first alloc fs first (second ∷ options) nodev e s items k,
      ),
      (
        flag_item second nosuid,
        refl,
        refl,
        b,
        Leaves-later alloc fs (flag_item second nosuid) first (second ∷ options)
            (Leaves-first alloc fs second options nosuid f t) items k,
      ),
    )

IsRestricting-Restricts :
    (alloc : OptionAllocator) (fs : FilesystemOptions) (options_list : Bytes) (items : List Item)
    → IsRestricting options_list
    → Restricts (convert_loop alloc fs (option_starts options_list) items)
unfolding option_starts behind_commas find_mount_flag string_to_mount_flag_list option_length
    is_duplicate option_text
IsRestricting-Restricts alloc fs options_list items (inl e) =
    rw e (leaves-Restricts alloc fs [] [] refl refl refl refl (refl, tt) tt items)
IsRestricting-Restricts alloc fs options_list items (inr e) = rw e (
    leaves-Restricts alloc fs (codes ",norecover") (codes "norecover" ∷ []) refl refl refl refl
      (refl, (refl, tt)) (refl, tt) items)

pub convert_options_to_list-Restricts :
    (alloc : OptionAllocator) (fs : FilesystemOptions) (options_list : Bytes) (l : FsoptsList)
    → IsRestricting options_list
    → (convert_options_to_list alloc (some options_list) (some fs) none none l).0 ≡ success
    → EnablesBoth
        (convert_options_to_list alloc (some options_list) (some fs) none none l).1.options
unfolding convert_options_to_list convert_all
convert_options_to_list-Restricts alloc fs options_list l h =
    let loop = convert_loop alloc fs (option_starts options_list) l.options in
    let l' : FsoptsList = record l { options = loop.1 } in
    after_success (λ (r : ReturnCode × FsoptsList). r.0 ≡ success → EnablesBoth r.1.options) loop.0
      (convert_ids alloc fs none none l') (λ failure. (failure, l'))
      (λ e k.
        rw (convert_ids-options alloc fs none none l')
          (IsRestricting-Restricts alloc fs options_list l.options h e))
      (λ e k. absurd (e k))

pub Enables-mount_flags :
    (f : Flag) (text : Bytes) (items : List Item) (flags : Flag → Bool)
    → IsDistinct items
    → Enables f text items
    → mount_flags items flags f ≡ true
Enables-mount_flags f text items flags d (x, e, t, same, m) =
    mount_flags-Member f x items flags e d m ∙ t

Member-Mem : (x : Item) (items : List Item) → Member x items → Mem x items
Member-Mem x [] m = absurd m
Member-Mem x (i ∷ items) (inl e) = mem-cast (sym e) mem-cons_self
Member-Mem x (i ∷ items) (inr m) = mem-cons_of_mem i (Member-Mem x items m)

pub Enables-full_texts :
    (f : Flag) (text : Bytes) (l : FsoptsList) → Enables f text l.options → Mem text (full_texts l)
Enables-full_texts f text l (x, e, t, same, m) = mem-append_left (id_texts l.option_gid) (
    mem-append_left (id_texts l.option_uid)
      (mem-cast (sym same) (mem-map_of_mem option_text (Member-Mem x l.options m))))
