-- ===== src/Options/Distinct.antt =====
-- Lists of options with distinct mount flags, and what `take_out` and the place at the end do to
-- them.
use dtmd.Common.{
  subst, ◌≡◌, ◌≢◌, refl, sym, ap, ◌∙◌, Bool, true, false, Option, none, some, List, [], ◌∷◌, ◌++◌,
  inl, inr, Option-cases, All, All-append, Bytes,
}
use dtmd.Options.Types.{Flag, MountFlag, Item}
use dtmd.Options.Convert.{is_duplicate, take_out}
use dtmd.Options.TakeOut.{take_out-cases, take_out-Taken}
use dtmd.Options.Flags.{flag_eq_eq, flag_eq_refl}

-- No item of the list is of the flag.
abbrev pub Lacks : Option Flag → List Item → Type 0
Lacks none items = Unit
Lacks (some f) items = All (λ i. i.flag ≢ some f) items

abbrev pub IsDistinct : List Item → Type 0
IsDistinct [] = Unit
IsDistinct (i ∷ items) = Lacks i.flag items × IsDistinct items

-- Taking an item out keeps the flags distinct.
abbrev pub StillDistinct : List Item → Option (List Item) → Type 0
StillDistinct items none = Unit
StillDistinct items (some others) = IsDistinct items → IsDistinct others

Lacks-Taken :
    (f : Option Flag) (test : Item → Bool) (items others : List Item)
    → take_out test items ≡ some others
    → Lacks f items
    → Lacks f others
Lacks-Taken none test items others e h = tt
Lacks-Taken (some f) test items others e h =
    let taken = take_out-Taken (λ i. i.flag ≢ some f) test items in (rw e at taken) h

pub take_out-IsDistinct :
    (test : Item → Bool) (items : List Item) → StillDistinct items (take_out test items)
unfolding take_out
take_out-IsDistinct test [] = tt
take_out-IsDistinct test (i ∷ items) =
    let rest = take_out-IsDistinct test items in
    take_out-cases (StillDistinct (i ∷ items)) test i items (λ e d. d.1) (λ e n. tt)
      (λ others e s d. (Lacks-Taken i.flag test items others s d.0, (rw s at rest) d.1))

-- Without the item that is a duplicate, the list lacks the flag.
abbrev pub WithoutFlag : Flag → List Item → Option (List Item) → Type 0
WithoutFlag f items none = Lacks (some f) items
WithoutFlag f items (some others) = IsDistinct items → Lacks (some f) others

is_duplicate-same :
    (option : Bytes) (m : MountFlag) (i : Item)
    → is_duplicate option (some m) i ≡ true
    → i.flag ≡ some m.flag
unfolding is_duplicate
is_duplicate-same option m i e = elim (Option-cases i.flag) [
  | inl n ↦ cc (rw n at e)
  | inr s ↦ s.1 ∙ ap some (sym (flag_eq_eq m.flag s.0 (rw s.1 at e)))
]

is_duplicate-other :
    (option : Bytes) (m : MountFlag) (i : Item)
    → is_duplicate option (some m) i ≡ false
    → i.flag ≢ some m.flag
unfolding is_duplicate
is_duplicate-other option m i e = λ s. let same = flag_eq_refl m.flag in let other = rw s at e in cc

pub take_out-WithoutFlag :
    (option : Bytes) (m : MountFlag) (items : List Item)
    → WithoutFlag m.flag items (take_out (is_duplicate option (some m)) items)
unfolding take_out
take_out-WithoutFlag option m [] = tt
take_out-WithoutFlag option m (i ∷ items) =
    let rest = take_out-WithoutFlag option m items in
    take_out-cases (WithoutFlag m.flag (i ∷ items)) (is_duplicate option (some m)) i items
      (λ e d. subst (λ f. Lacks f items) (is_duplicate-same option m i e) d.0)
      (λ e n. (is_duplicate-other option m i e, rw n at rest))
      (λ others e s d. (is_duplicate-other option m i e, (rw s at rest) d.1))

-- An item behind the others.
Lacks-append :
    (f : Option Flag) (items : List Item) (new : Item)
    → Lacks f items
    → ((g : Flag) → f ≡ some g → new.flag ≢ some g)
    → Lacks f (items ++ new ∷ [])
Lacks-append none items new h other = tt
Lacks-append (some f) items new h other =
    All-append (λ i. i.flag ≢ some f) items (new ∷ []) h (other f refl, tt)

pub Lacks-nil : (f : Option Flag) → Lacks f []
Lacks-nil none = tt
Lacks-nil (some f) = tt

Lacks-tail : (f : Option Flag) (i : Item) (items : List Item) → Lacks f (i ∷ items) → Lacks f items
Lacks-tail none i items h = tt
Lacks-tail (some f) i items h = h.1

Lacks-head :
    (i new : Item) (items : List Item)
    → Lacks new.flag (i ∷ items)
    → (g : Flag) → i.flag ≡ some g
    → new.flag ≢ some g
Lacks-head i new items h g e = λ k. (rw k at h).0 e

pub IsDistinct-append :
    (items : List Item) (new : Item)
    → IsDistinct items
    → Lacks new.flag items
    → IsDistinct (items ++ new ∷ [])
IsDistinct-append [] new d h = (Lacks-nil new.flag, tt)
IsDistinct-append (i ∷ items) new d h = (
  Lacks-append i.flag items new d.0 (Lacks-head i new items h),
  IsDistinct-append items new d.1 (Lacks-tail new.flag i items h),
)
