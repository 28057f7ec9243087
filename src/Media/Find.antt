-- ===== src/Media/Find.antt =====
-- What `dtmd_find_media` finds, and when it finds nothing.
use dtmd.Common.{
  Option, none, some, List, [], ◌∷◌, ◌++◌, ◌≡◌, inl, inr, refl, arith, Bytes, str_eq, Bool-cases,
  if◌then◌else◌,
}
use dtmd.Media.Tree.{Media, null, node, Found, found_or, find_media}
use dtmd.Media.Entries.{Entry, entries}

-- The first entry of the tree with this path.
unfoldable pub first_entry : Bytes → List Entry → Option Entry
first_entry path [] = none
first_entry path (e ∷ es) = if str_eq path e.1.path then some e else first_entry path es

abbrev pub entry_of : Option Found → Option Entry
entry_of none = none
entry_of (some f) = some (f.parent_path, f.info)

or_else : Option Entry → Option Entry → Option Entry
or_else none o = o
or_else (some e) o = some e

entry_of-found_or :
    (a b : Option Found) → entry_of (found_or a b) ≡ or_else (entry_of a) (entry_of b)
unfolding or_else
entry_of-found_or none b = refl
entry_of-found_or (some f) b = refl

first_entry-append :
    (path : Bytes) (xs ys : List Entry)
    → first_entry path (xs ++ ys) ≡ or_else (first_entry path xs) (first_entry path ys)
unfolding first_entry or_else
first_entry-append path [] ys = refl
first_entry-append path (e ∷ xs) ys = ground (arith, first_entry-append path xs ys)

-- `dtmd_find_media` returns the first node with the given path in the order in which the tree is
-- printed, together with its parent, and NULL if there is none.
pub find_media-first_entry :
    (path parent : Bytes) (m : Media)
    → entry_of (find_media path parent m) ≡ first_entry path (entries parent m)
unfolding find_media first_entry entries
find_media-first_entry path parent null = refl
find_media-first_entry path parent (node i children next) = elim (Bool-cases (str_eq path i.path)) [
  | inl e ↦ rw e
  | inr e ↦
      rw
        (
          e,
          first_entry-append path (entries i.path children) (entries parent next),
          ← find_media-first_entry path i.path children,
          ← find_media-first_entry path parent next,
        )
        (entry_of-found_or (find_media path i.path children) (find_media path parent next))
]
