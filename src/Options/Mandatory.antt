-- ===== src/Options/Mandatory.antt =====
-- Options that a conversion puts into the list stay in it, behind what was there before, and what
-- that means for the mount flags.
use dtmd.Common.{
  ◌≡◌, ◌≢◌, refl, ap, subst, ◌∙◌, Bool, false, Option, some, List, [], ◌∷◌, inl, inr, option_cases,
  if_cases, All, Bytes, ◌==◌,
}
use dtmd.Misc.Types.{ReturnCode, success}
use dtmd.Options.Types.{Flag, flag_eq, MountFlag, MountOption, FilesystemOptions, Item}
use dtmd.Options.Tables.{string_to_mount_flag_list}
use dtmd.Options.Convert.{
  find_option_in_list, option_length, validate, is_duplicate, take_out, fill_item, find_mount_flag,
  OptionAllocator, place_item, convert_found, convert_option, convert_loop,
}
use dtmd.Options.Generate.{set_flag, mount_flags}
use dtmd.Options.Flags.{flag_eq_eq, flag_eq_refl}
use dtmd.Options.TakeOut.{Member, Member-append, Member-last, take_out-Stays}
use dtmd.Options.Distinct.{Lacks, IsDistinct}
use dtmd.Options.Proper.{after_success}

-- The new item is in the list, if there is one.
place_item-Member :
    (allocated : Bool) (test : Item → Bool) (new : Item) (items : List Item)
    → (place_item allocated test new items).0 ≡ success
    → Member new (place_item allocated test new items).1
unfolding place_item
place_item-Member allocated test new items =
    option_cases (λ (r : ReturnCode × List Item). r.0 ≡ success → Member new r.1)
      (take_out test items)
      (λ n.
        if_cases (λ (r : ReturnCode × List Item). r.0 ≡ success → Member new r.1) allocated
          (λ a e. Member-last new items) (λ a e. cc))
      (λ others s e. Member-last new others)

place_item-Stays :
    (allocated : Bool) (test : Item → Bool) (new x : Item) (items : List Item)
    → test x ≡ false
    → Member x items
    → Member x (place_item allocated test new items).1
unfolding place_item
place_item-Stays allocated test new x items e m =
    let stays = take_out-Stays x test items e in
    option_cases (λ (r : ReturnCode × List Item). Member x r.1) (take_out test items)
      (λ n.
        if_cases (λ (r : ReturnCode × List Item). Member x r.1) allocated
          (λ a. Member-append x items (new ∷ []) m) (λ a. m))
      (λ others s. Member-append x others (new ∷ []) ((rw s at stays) m))

abbrev pub flag_of : Bytes → Option MountFlag
flag_of option = find_mount_flag option (option_length option) string_to_mount_flag_list

-- The item that a flag option makes.
abbrev pub flag_item : Bytes → MountFlag → Item
flag_item option m = record {
  option = option;
  flag = some m.flag;
  enabled = m.enabled;
  option_full_len = option_length option;
  option_len = option_length option;
}

fill_item-flag_item :
    (option : Bytes) (o : MountOption) (m : MountFlag)
    → fill_item option (option_length option) o (some m) ≡ flag_item option m
unfolding fill_item
fill_item-flag_item option o m = refl

-- The two properties of a round at once: `R` of the list if the round succeeds.
round-cases :
    (R : ReturnCode × List Item → Type 0) (alloc : OptionAllocator) (fs : FilesystemOptions)
    (option : Bytes) (items : List Item)
    → ((rc : ReturnCode) → rc ≢ success → R (rc, items))
    → ((o : MountOption)
        → R (
            place_item
              (alloc.item option)
              (is_duplicate option (flag_of option))
              (fill_item option (option_length option) o (flag_of option))
              items))
    → R (convert_option alloc fs option items)
unfolding convert_option convert_found
round-cases R alloc fs option items lost found =
    if_cases R (option_length option == 0) (λ z. lost _ (λ e. cc))
      (λ z.
        option_cases R (find_option_in_list option (option_length option) fs)
          (λ n. lost _ (λ e. cc))
          (λ o s.
            after_success R (validate o option (option_length option))
              (place_item (alloc.item option) (is_duplicate option (flag_of option))
                (fill_item option (option_length option) o (flag_of option)) items)
              (λ failure. (failure, items)) (λ v. found o) (λ v. lost _ v)))

pub convert_option-Member :
    (alloc : OptionAllocator) (fs : FilesystemOptions) (option : Bytes) (m : MountFlag)
    (items : List Item)
    → flag_of option ≡ some m
    → (convert_option alloc fs option items).0 ≡ success
    → Member (flag_item option m) (convert_option alloc fs option items).1
convert_option-Member alloc fs option m items e =
    round-cases (λ r. r.0 ≡ success → Member (flag_item option m) r.1) alloc fs option items
      (λ rc f s. absurd (f s))
      (λ o s.
        subst
          (λ x.
            Member x
              (place_item (alloc.item option) (is_duplicate option (flag_of option))
                (fill_item option (option_length option) o (flag_of option)) items).1)
          (ap (fill_item option (option_length option) o) e ∙ fill_item-flag_item option o m)
          (place_item-Member (alloc.item option) (is_duplicate option (flag_of option))
            (fill_item option (option_length option) o (flag_of option)) items s))

pub convert_option-Stays :
    (alloc : OptionAllocator) (fs : FilesystemOptions) (option : Bytes) (x : Item)
    (items : List Item)
    → is_duplicate option (flag_of option) x ≡ false
    → Member x items
    → Member x (convert_option alloc fs option items).1
convert_option-Stays alloc fs option x items e m =
    round-cases (λ r. Member x r.1) alloc fs option items (λ rc f. m)
      (λ o.
        place_item-Stays (alloc.item option) (is_duplicate option (flag_of option))
          (fill_item option (option_length option) o (flag_of option)) x items e m)

-- No option of the list is a duplicate of the item.
abbrev pub Spares : Item → List Bytes → Type 0
Spares x options = All (λ option. is_duplicate option (flag_of option) x ≡ false) options

pub convert_loop-Stays :
    (alloc : OptionAllocator) (fs : FilesystemOptions) (x : Item) (options : List Bytes)
    (items : List Item)
    → Spares x options
    → Member x items
    → Member x (convert_loop alloc fs options items).1
unfolding convert_loop
convert_loop-Stays alloc fs x [] items s m = m
convert_loop-Stays alloc fs x (option ∷ options) items s m =
    let round = convert_option alloc fs option items in
    let kept = convert_option-Stays alloc fs option x items s.0 m in
    after_success (λ (r : ReturnCode × List Item). Member x r.1) round.0
      (convert_loop alloc fs options round.1) (λ failure. (failure, round.1))
      (λ e. convert_loop-Stays alloc fs x options round.1 s.1 kept) (λ e. kept)

-- The flags that are read off a list.
mount_flags-Lacks :
    (f : Flag) (items : List Item) (flags : Flag → Bool)
    → Lacks (some f) items
    → mount_flags items flags f ≡ flags f
unfolding mount_flags set_flag
mount_flags-Lacks f [] flags h = refl
mount_flags-Lacks f (i ∷ items) flags h =
    option_cases (λ (r : Flag → Bool). r f ≡ flags f) i.flag
      (λ n. mount_flags-Lacks f items flags h.1)
      (λ g s.
        mount_flags-Lacks f items (set_flag g i.enabled flags) h.1
        ∙ if_cases (λ (b : Bool). b ≡ flags f) (flag_eq g f)
            (λ e. absurd (h.0 (s ∙ ap some (flag_eq_eq g f e)))) (λ e. refl))

pub mount_flags-Member :
    (f : Flag) (x : Item) (items : List Item) (flags : Flag → Bool)
    → x.flag ≡ some f
    → IsDistinct items
    → Member x items
    → mount_flags items flags f ≡ x.enabled
unfolding mount_flags set_flag
mount_flags-Member f x [] flags e d m = absurd m
mount_flags-Member f x (i ∷ items) flags e d (inr m) =
    option_cases (λ (r : Flag → Bool). r f ≡ x.enabled) i.flag
      (λ n. mount_flags-Member f x items flags e d.1 m)
      (λ g s. mount_flags-Member f x items (set_flag g i.enabled flags) e d.1 m)
mount_flags-Member f x (i ∷ items) flags e d (inl p) =
    let same = ap (λ (y : Item). y.flag) p ∙ e in
    rw same (
      mount_flags-Lacks f items (set_flag f i.enabled flags) (subst (λ g. Lacks g items) same d.0)
      ∙ rw (flag_eq_refl f, set_flag) (ap (λ (y : Item). y.enabled) p))
