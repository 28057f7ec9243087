-- ===== src/Commands/Printed.antt =====
-- The listing is the abstract view of the tree, entry by entry.
use dtmd.Common.{
  ◌≡◌, refl, sym, ap, ◌∙◌, true, Option, none, some, List, [], ◌∷◌, ◌++◌, map, append-nil,
  append_assoc, All, length, Bytes,
}
use dtmd.Misc.Types.{success, fail, client_error, fatal_error, bug}
use dtmd.Media.Tree.{Media, null, node, Found}
use dtmd.Media.Entries.{Entry, entries}
use dtmd.Commands.Message.{line, device_arguments}
use dtmd.Commands.Wire.{Wire, Sent, dprintf, and_then}
use dtmd.Commands.Listing.{
  print_removable_device_common, removable_device, print_siblings,
  print_all_removable_devices_recursive,
}

-- The entries one by one, until one fails.
abbrev pub print_entries : Wire → List Entry → List Bytes → Sent
print_entries wire [] sent = (success, sent)
print_entries wire (e ∷ es) sent =
    and_then (print_removable_device_common wire removable_device e.0 e.1 sent)
      (λ s. print_entries wire es s)

and_then_assoc :
    (a : Sent) (f g : List Bytes → Sent)
    → and_then (and_then a f) g ≡ and_then a (λ s. and_then (f s) g)
and_then_assoc (success, sent) f g = refl
and_then_assoc (fail, sent) f g = refl
and_then_assoc (client_error, sent) f g = refl
and_then_assoc (fatal_error, sent) f g = refl
and_then_assoc (bug, sent) f g = refl

and_then_cong :
    (a : Sent) (f g : List Bytes → Sent)
    → ((s : List Bytes) → f s ≡ g s)
    → and_then a f ≡ and_then a g
and_then_cong (success, sent) f g h = h sent
and_then_cong (fail, sent) f g h = refl
and_then_cong (client_error, sent) f g h = refl
and_then_cong (fatal_error, sent) f g h = refl
and_then_cong (bug, sent) f g h = refl

print_entries-append :
    (wire : Wire) (es fs : List Entry) (sent : List Bytes)
    → print_entries wire (es ++ fs) sent
      ≡ and_then (print_entries wire es sent) (λ s. print_entries wire fs s)
print_entries-append wire [] fs sent = refl
print_entries-append wire (e ∷ es) fs sent =
    let first = print_removable_device_common wire removable_device e.0 e.1 sent in
    and_then_cong first (λ s. print_entries wire (es ++ fs) s)
      (λ s. and_then (print_entries wire es s) (λ t. print_entries wire fs t))
      (λ s. print_entries-append wire es fs s)
    ∙ sym (and_then_assoc first (λ s. print_entries wire es s) (λ s. print_entries wire fs s))

-- Whatever writes are accepted, and whatever the devices are, the loop over siblings prints what
-- printing the entries of the tree in their order prints, and has the same result.
pub print_siblings-entries :
    (wire : Wire) (parent_path : Bytes) (m : Media) (sent : List Bytes)
    → print_siblings wire parent_path m sent ≡ print_entries wire (entries parent_path m) sent
unfolding print_siblings entries
print_siblings-entries wire parent_path null sent = refl
print_siblings-entries wire parent_path (node i children next) sent =
    let first = print_removable_device_common wire removable_device parent_path i sent in
    let below = entries i.path children in
    let behind = entries parent_path next in
    and_then_assoc first (λ s. print_siblings wire i.path children s)
      (λ s. print_siblings wire parent_path next s)
    ∙ and_then_cong first
        (λ s.
          and_then (print_siblings wire i.path children s)
            (λ t. print_siblings wire parent_path next t))
        (λ s. print_entries wire (below ++ behind) s)
        (λ s.
          ap (λ a. and_then a (λ t. print_siblings wire parent_path next t))
            (print_siblings-entries wire i.path children s)
          ∙ and_then_cong (print_entries wire below s) (λ t. print_siblings wire parent_path next t)
              (λ t. print_entries wire behind t)
              (λ t. print_siblings-entries wire parent_path next t)
          ∙ sym (print_entries-append wire below behind s))

-- The subtree at a node.
pub print_recursive-entries :
    (wire : Wire) (f : Found) (sent : List Bytes)
    → print_all_removable_devices_recursive wire f sent
      ≡ print_entries wire ((f.parent_path, f.info) ∷ entries f.info.path f.children) sent
unfolding print_all_removable_devices_recursive
print_recursive-entries wire f sent =
    and_then_cong (print_removable_device_common wire removable_device f.parent_path f.info sent)
      (λ s. print_siblings wire f.info.path f.children s)
      (λ s. print_entries wire (entries f.info.path f.children) s)
      (λ s. print_siblings-entries wire f.info.path f.children s)

-- Every write is accepted.
abbrev pub Accepts : Wire → Type 0
Accepts wire = (sent : List Bytes) → wire (length sent) ≡ true

pub dprintf-Accepts :
    (wire : Wire) (text : Bytes) (sent : List Bytes)
    → Accepts wire
    → dprintf wire text sent ≡ (success, sent ++ text ∷ [])
unfolding dprintf
dprintf-Accepts wire text sent a = rw (a sent) refl

-- The device's type is known, so that there is a line for it.
abbrev pub IsPrintable : Entry → Type 0
IsPrintable e = (arguments : List (Option Bytes)) × (device_arguments e.0 e.1 ≡ some arguments)

abbrev pub entry_line : Entry → Bytes
entry_line e = elim (device_arguments e.0 e.1) [
  | none ↦ []
  | some arguments ↦ line removable_device arguments
]

print_common-Accepts :
    (wire : Wire) (e : Entry) (sent : List Bytes)
    → Accepts wire
    → IsPrintable e
    → print_removable_device_common wire removable_device e.0 e.1 sent
      ≡ (success, sent ++ entry_line e ∷ [])
unfolding print_removable_device_common
print_common-Accepts wire e sent a p =
    rw (p.1, print_removable_device_common, entry_line)
      (dprintf-Accepts wire (line removable_device p.0) sent a)

pub print_entries-Accepts :
    (wire : Wire) (es : List Entry) (sent : List Bytes)
    → Accepts wire
    → All IsPrintable es
    → print_entries wire es sent ≡ (success, sent ++ map entry_line es)
print_entries-Accepts wire [] sent a p = ap (λ s. (success, s)) (sym (append-nil sent))
print_entries-Accepts wire (e ∷ es) sent a p =
    ap (λ x. and_then x (λ s. print_entries wire es s)) (print_common-Accepts wire e sent a p.0)
    ∙ print_entries-Accepts wire es (sent ++ entry_line e ∷ []) a p.1
    ∙ ap (λ s. (success, s)) (append_assoc sent (entry_line e ∷ []) (map entry_line es))
