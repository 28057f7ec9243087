-- ===== src/Options/TakeOut.antt =====
-- `take_out`, the move of the items behind a duplicate.
use dtmd.Common.{
  ◌⊎◌, ◌≡◌, refl, Bool, true, false, Option, none, some, List, [], ◌∷◌, ◌++◌, inl, inr, Bool-cases,
  Option-cases, All,
}
use dtmd.Options.Types.{Item}
use dtmd.Options.Convert.{take_out}

-- The two ways in which `take_out` ends at an item.
pub take_out-cases {ℓ} :
    (R : Option (List Item) → Type ℓ) (test : Item → Bool) (i : Item) (items : List Item)
    → (test i ≡ true → R (some items))
    → (test i ≡ false → take_out test items ≡ none → R none)
    → ((others : List Item)
        → test i ≡ false
        → take_out test items ≡ some others
        → R (some (i ∷ others)))
    → R (take_out test (i ∷ items))
unfolding take_out
take_out-cases R test i items here lost later = elim (Bool-cases (test i)) [
  | inl e ↦ rw e (here e)
  | inr e ↦ elim (Option-cases (take_out test items)) [
    | inl n ↦ rw (e, n) (lost e n)
    | inr s ↦ rw (e, s.1) (later s.0 e s.1)
  ]
]

-- What holds of all items holds of those that are left, and of a list without the item the test
-- fails throughout.
abbrev pub Taken : (Item → Type 0) → List Item → (Item → Bool) → Option (List Item) → Type 0
Taken P items test none = All (λ i. test i ≡ false) items
Taken P items test (some others) = All P items → All P others

pub take_out-Taken :
    (P : Item → Type 0) (test : Item → Bool) (items : List Item)
    → Taken P items test (take_out test items)
unfolding take_out
take_out-Taken P test [] = tt
take_out-Taken P test (i ∷ items) =
    let rest = take_out-Taken P test items in
    take_out-cases (Taken P (i ∷ items) test) test i items (λ e h. h.1) (λ e n. (e, rw n at rest))
      (λ others e s h. (h.0, (rw s at rest) h.1))

-- An item of which the test fails stays.
abbrev pub Member : Item → List Item → Type 0
Member x [] = ⊥
Member x (i ∷ items) = (i ≡ x) ⊎ Member x items

abbrev pub Stays : Item → List Item → Option (List Item) → Type 0
Stays x items none = Unit
Stays x items (some others) = Member x items → Member x others

pub take_out-Stays :
    (x : Item) (test : Item → Bool) (items : List Item)
    → test x ≡ false
    → Stays x items (take_out test items)
unfolding take_out
take_out-Stays x test [] e = tt
take_out-Stays x test (i ∷ items) e =
    let rest = take_out-Stays x test items e in
    take_out-cases (Stays x (i ∷ items)) test i items (λ h. λ m. elim m [ inl p ↦ cc | inr k ↦ k ])
      (λ h n. tt) (λ others h s. λ m. elim m [ inl p ↦ inl p | inr k ↦ inr ((rw s at rest) k) ])

pub Member-append :
    (x : Item) (items others : List Item) → Member x items → Member x (items ++ others)
Member-append x [] others m = absurd m
Member-append x (i ∷ items) others (inl p) = inl p
Member-append x (i ∷ items) others (inr m) = inr (Member-append x items others m)

pub Member-last : (x : Item) (items : List Item) → Member x (items ++ x ∷ [])
Member-last x [] = inl refl
Member-last x (i ∷ items) = inr (Member-last x items)
