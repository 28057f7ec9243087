-- ===== src/Commands/Answered.antt =====
-- The answers to the listing commands.
use dtmd.Common.{
  ◌≡◌, ap, subst, ◌∙◌, Option, none, some, List, [], ◌∷◌, inl, inr, ◌++◌, map, Bool-cases,
  Option-cases, if◌then◌else◌, All, All-append_left, All-append_right, Bytes, str_eq,
}
use dtmd.Misc.Types.{success, fail, no_such_removable_device}
use dtmd.Misc.Names.{error_code_to_string}
use dtmd.Media.Tree.{Media, Found, pointer, root_device_path, find_media}
use dtmd.Media.Entries.{Entry, entries, at_media-Splits}
use dtmd.Commands.Message.{line}
use dtmd.Commands.Wire.{Wire, Sent, dprintf, and_then}
use dtmd.Commands.Listing.{print_all_removable_devices_recursive, print_all_removable_devices}
use dtmd.Commands.Invoke.{
  Services, started, finished, failed, list_removable_device, bracket, list_device, invoke_one,
  invoke_command,
}
use dtmd.Commands.Printed.{
  print_entries, print_siblings-entries, print_recursive-entries, Accepts, dprintf-Accepts,
  IsPrintable, entry_line, print_entries-Accepts,
}

-- A listing: what was sent, the line that starts it, a line for each entry, the line that ends it.
abbrev pub answer : Bytes → List (Option Bytes) → List Entry → List Bytes → List Bytes
answer name arguments es sent =
    ((sent ++ line started (some name ∷ arguments) ∷ []) ++ map entry_line es)
    ++ line finished (some name ∷ arguments) ∷ []

bracket-answer :
    (wire : Wire) (name : Bytes) (arguments : List (Option Bytes)) (listing : List Bytes → Sent)
    (es : List Entry) (sent : List Bytes)
    → Accepts wire
    → All IsPrintable es
    → ((s : List Bytes) → listing s ≡ print_entries wire es s)
    → bracket wire name arguments listing sent ≡ (success, answer name arguments es sent)
unfolding bracket
bracket-answer wire name arguments listing es sent a p h =
    let open_line = line started (some name ∷ arguments) in
    let close_line = line finished (some name ∷ arguments) in
    let end = λ (s : List Bytes). dprintf wire close_line s in
    ap (λ (x : Sent). and_then (and_then x listing) end) (dprintf-Accepts wire open_line sent a)
    ∙ ap (λ (x : Sent). and_then x end)
        (h (sent ++ open_line ∷ []) ∙ print_entries-Accepts wire es (sent ++ open_line ∷ []) a p)
    ∙ dprintf-Accepts wire close_line ((sent ++ open_line ∷ []) ++ map entry_line es) a

-- The entries that a path asks for: all of them, or those of the first node with the path.
abbrev pub asked_entries : Bytes → Media → Option (List Entry)
asked_entries path root =
    if str_eq path root_device_path
    then some (entries root_device_path root)
    else elim (find_media path root_device_path root) [
      | none ↦ none
      | some f ↦ some ((f.parent_path, f.info) ∷ entries f.info.path f.children)
    ]

abbrev pub list_answer : Bytes → Option (List Entry) → List Bytes → Sent
list_answer path (some es) sent = (success, answer list_removable_device (some path ∷ []) es sent)
list_answer path none sent = (
  fail,
  sent
      ++ line failed (
          some list_removable_device
          ∷ some path
          ∷ some (error_code_to_string no_such_removable_device)
          ∷ [])
        ∷ [],
)

subtree-IsPrintable :
    (path : Bytes) (root : Media) (f : Found)
    → find_media path root_device_path root ≡ some f
    → All IsPrintable (entries root_device_path root)
    → All IsPrintable ((f.parent_path, f.info) ∷ entries f.info.path f.children)
unfolding entries
subtree-IsPrintable path root f e p =
    let s = at_media-Splits path root_device_path root f e in
    let all = subst (All IsPrintable) s.entries_are p in
    let pointed =
      All-append_left IsPrintable (entries f.parent_path (pointer f)) s.behind (
        All-append_right IsPrintable s.before (entries f.parent_path (pointer f) ++ s.behind)
          all) in
    (
      pointed.0,
      All-append_left IsPrintable (entries f.info.path f.children) (entries f.parent_path f.next)
          pointed.1,
    )

list_device-answer :
    (wire : Wire) (root : Media) (path : Bytes) (sent : List Bytes)
    → Accepts wire
    → All IsPrintable (entries root_device_path root)
    → list_device wire root path sent ≡ list_answer path (asked_entries path root) sent
unfolding list_device print_all_removable_devices
list_device-answer wire root path sent a p = elim (Bool-cases (str_eq path root_device_path)) [
  | inl e ↦
      rw (e, list_device, asked_entries)
        (bracket-answer wire list_removable_device (some path ∷ [])
          (print_all_removable_devices wire root) (entries root_device_path root) sent a p
          (λ s. print_siblings-entries wire root_device_path root s))
  | inr e ↦ elim (Option-cases (find_media path root_device_path root)) [
    | inl n ↦
        rw (e, n, list_device, asked_entries)
          (ap (λ (x : Sent). and_then x (λ s. (fail, s))) (dprintf-Accepts wire _ sent a))
    | inr f ↦
        rw (e, f.1, list_device, asked_entries)
          (bracket-answer wire list_removable_device (some path ∷ [])
            (print_all_removable_devices_recursive wire f.0)
            ((f.0.parent_path, f.0.info) ∷ entries f.0.info.path f.0.children) sent a
            (subtree-IsPrintable path root f.0 f.1 p) (λ s. print_recursive-entries wire f.0 s))
  ]
]

-- Where every write is accepted and every device in the tree is of a known type,
-- `list_removable_device` answers with the entries of the device and all below it, or of the whole
-- tree for the path of the root, in the order of the tree, between the two lines that start and
-- finish it, and for a path that is not in the tree with the one error line.
pub invoke_command-list_removable_device :
    (wire : Wire) (services : Services) (root : Media) (path : Bytes) (sent : List Bytes)
    → Accepts wire
    → All IsPrintable (entries root_device_path root)
    → invoke_command wire services root
        (record { cmd = list_removable_device; args = some path ∷ [] })
        sent
      ≡ list_answer path (asked_entries path root) sent
unfolding invoke_command invoke_one str_eq
invoke_command-list_removable_device wire services root path sent a p =
    list_device-answer wire root path sent a p
