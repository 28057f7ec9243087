-- ===== src/Options/Proper.antt =====
-- What `convert_options_to_list` keeps of its list: every item is an allowed option, and no two
-- items are of one mount flag.
use dtmd.Common.{
  option_cases, if_both, ◌⊎◌, ℕ, ◌≡◌, ◌≢◌, refl, Bool, Option, none, some, List, [], ◌∷◌, inl, inr,
  Bool-cases, Option-cases, All, All-append, Bytes, ◌==◌,
}
use dtmd.Misc.Types.{ReturnCode, success, fail, client_error, fatal_error, bug}
use dtmd.Options.Types.{Flag, MountFlag, MountOption, FilesystemOptions, Item, FsoptsList}
use dtmd.Options.Tables.{string_to_mount_flag_list}
use dtmd.Options.Convert.{
  find_option_in_list, option_length, option_starts, validate, is_duplicate, take_out, fill_item,
  find_mount_flag, OptionAllocator, place_item, convert_found, convert_option, convert_loop,
  convert_ids, convert_id, convert_all, convert_options_to_list,
}
use dtmd.Options.TakeOut.{take_out-Taken}
use dtmd.Options.Distinct.{
  Lacks, IsDistinct, take_out-IsDistinct, take_out-WithoutFlag, IsDistinct-append,
}

-- An item that the tables allow, with an accepted value, and that ends where the option ends.
abbrev pub IsAllowed : FilesystemOptions → Item → Type 0
IsAllowed fs item =
    (o : MountOption) × (find_option_in_list item.option item.option_full_len fs ≡ some o)
    × (validate o item.option item.option_full_len ≡ success)
    × (item.option_full_len ≡ option_length item.option)

-- The invariant of the list.
abbrev pub IsProper : FilesystemOptions → List Item → Type 0
IsProper fs items = All (IsAllowed fs) items × IsDistinct items

-- A test that leaves a list without the flag of the new item.
abbrev Clears : Option Flag → List Item → Option (List Item) → Type 0
Clears f items none = Lacks f items
Clears f items (some others) = IsDistinct items → Lacks f others

is_duplicate-Clears :
    (option : Bytes) (option_len : ℕ) (o : MountOption) (m : Option MountFlag) (items : List Item)
    → Clears (fill_item option option_len o m).flag items (take_out (is_duplicate option m) items)
unfolding fill_item
is_duplicate-Clears option option_len o none items =
    elim (Option-cases (take_out (is_duplicate option none) items)) [
      | inl n ↦ rw n tt
      | inr s ↦ rw s.1 (λ d. tt)
    ]
is_duplicate-Clears option option_len o (some m) items =
    let without = take_out-WithoutFlag option m items in
    elim (Option-cases (take_out (is_duplicate option (some m)) items)) [
      | inl n ↦ rw n (rw n at without)
      | inr s ↦ rw s.1 (rw s.1 at without)
    ]

place_item-IsProper :
    (fs : FilesystemOptions) (allocated : Bool) (test : Item → Bool) (new : Item)
    (items : List Item)
    → IsAllowed fs new
    → Clears new.flag items (take_out test items)
    → IsProper fs items
    → IsProper fs (place_item allocated test new items).1
unfolding place_item
place_item-IsProper fs allocated test new items a c h =
    let taken = take_out-Taken (IsAllowed fs) test items in
    let distinct = take_out-IsDistinct test items in
    option_cases (λ (r : ReturnCode × List Item). IsProper fs r.1) (take_out test items)
      (λ n.
        if_both (λ (r : ReturnCode × List Item). IsProper fs r.1) allocated
          (
            All-append (IsAllowed fs) items (new ∷ []) h.0 (a, tt),
            IsDistinct-append items new h.1 (rw n at c),
          )
          h)
      (λ others s. (
        All-append (IsAllowed fs) others (new ∷ []) ((rw s at taken) h.0) (a, tt),
        IsDistinct-append others new ((rw s at distinct) h.1) ((rw s at c) h.1),
      ))

fill_item-IsAllowed :
    (fs : FilesystemOptions) (option : Bytes) (o : MountOption) (m : Option MountFlag)
    → find_option_in_list option (option_length option) fs ≡ some o
    → validate o option (option_length option) ≡ success
    → IsAllowed fs (fill_item option (option_length option) o m)
unfolding fill_item
fill_item-IsAllowed fs option o none e v = (o, e, v, refl)
fill_item-IsAllowed fs option o (some m) e v = (o, e, v, refl)

pub success-cases : (rc : ReturnCode) → (rc ≡ success) ⊎ (rc ≢ success)
success-cases success = inl refl
success-cases fail = inr (λ e. cc)
success-cases client_error = inr (λ e. cc)
success-cases fatal_error = inr (λ e. cc)
success-cases bug = inr (λ e. cc)

-- What holds where a step succeeds, and where its failure is passed on.
pub after_success {ℓ κ} :
    {A : Type ℓ} (P : A → Type κ) (rc : ReturnCode) (next : A) (other : ReturnCode → A)
    → (rc ≡ success → P next)
    → (rc ≢ success → P (other rc))
    → P (elim rc [ success ↦ next | failure ↦ other failure ])
after_success P success next other p q = p refl
after_success P fail next other p q = q (λ e. cc)
after_success P client_error next other p q = q (λ e. cc)
after_success P fatal_error next other p q = q (λ e. cc)
after_success P bug next other p q = q (λ e. cc)

convert_option-IsProper :
    (alloc : OptionAllocator) (fs : FilesystemOptions) (option : Bytes) (items : List Item)
    → IsProper fs items
    → IsProper fs (convert_option alloc fs option items).1
unfolding convert_option convert_found
convert_option-IsProper alloc fs option items h =
    let len = option_length option in
    let m = find_mount_flag option len string_to_mount_flag_list in
    elim (Bool-cases (len == 0)) [
      | inl z ↦ rw z h
      | inr z ↦ elim (Option-cases (find_option_in_list option len fs)) [
        | inl n ↦ rw (z, n) h
        | inr s ↦
            rw (z, s.1)
              (after_success (λ (r : ReturnCode × List Item). IsProper fs r.1)
                (validate s.0 option len)
                (place_item (alloc.item option) (is_duplicate option m) (fill_item option len s.0 m)
                  items)
                (λ failure. (failure, items))
                (λ v.
                  place_item-IsProper fs (alloc.item option) (is_duplicate option m)
                    (fill_item option len s.0 m) items (fill_item-IsAllowed fs option s.0 m s.1 v)
                    (is_duplicate-Clears option len s.0 m items) h)
                (λ v. h))
      ]
    ]

convert_loop-IsProper :
    (alloc : OptionAllocator) (fs : FilesystemOptions) (options : List Bytes) (items : List Item)
    → IsProper fs items
    → IsProper fs (convert_loop alloc fs options items).1
unfolding convert_loop
convert_loop-IsProper alloc fs [] items h = h
convert_loop-IsProper alloc fs (option ∷ options) items h =
    let round = convert_option alloc fs option items in
    let kept = convert_option-IsProper alloc fs option items h in
    after_success (λ (r : ReturnCode × List Item). IsProper fs r.1) round.0
      (convert_loop alloc fs options round.1) (λ failure. (failure, round.1))
      (λ e. convert_loop-IsProper alloc fs options round.1 kept) (λ e. kept)

pub convert_ids-options :
    (alloc : OptionAllocator) (fs : FilesystemOptions) (uid gid : Option ℕ) (l : FsoptsList)
    → (convert_ids alloc fs uid gid l).1.options ≡ l.options
unfolding convert_ids
convert_ids-options alloc fs uid gid l =
    after_success (λ (r : ReturnCode × FsoptsList). r.1.options ≡ l.options)
      (convert_id alloc.uid uid fs.option_uid l.option_uid).0
      (
        (convert_id alloc.gid gid fs.option_gid l.option_gid).0,
        record l {
          option_uid = (convert_id alloc.uid uid fs.option_uid l.option_uid).1;
          option_gid = (convert_id alloc.gid gid fs.option_gid l.option_gid).1;
        },
      )
      (λ failure. (
        failure,
        record l { option_uid = (convert_id alloc.uid uid fs.option_uid l.option_uid).1 },
      ))
      (λ e. refl) (λ e. refl)

-- `convert_options_to_list`, whatever it returns, keeps each item an option that the tables of the
-- file system allow, with a value that the option's validation function accepts and that ends
-- where the option ends, and keeps the items' mount flags distinct.
pub convert_options_to_list-IsProper :
    (alloc : OptionAllocator) (options_list : Option Bytes) (fs : FilesystemOptions)
    (uid gid : Option ℕ) (l : FsoptsList)
    → IsProper fs l.options
    → IsProper fs (convert_options_to_list alloc options_list (some fs) uid gid l).1.options
unfolding convert_options_to_list convert_all
convert_options_to_list-IsProper alloc none fs uid gid l h = h
convert_options_to_list-IsProper alloc (some options_list) fs uid gid l h =
    let loop = convert_loop alloc fs (option_starts options_list) l.options in
    let kept = convert_loop-IsProper alloc fs (option_starts options_list) l.options h in
    let l' : FsoptsList = record l { options = loop.1 } in
    after_success (λ (r : ReturnCode × FsoptsList). IsProper fs r.1.options) loop.0
      (convert_ids alloc fs uid gid l') (λ failure. (failure, l'))
      (λ e. rw (convert_ids-options alloc fs uid gid l') kept) (λ e. kept)
