-- ===== src/Media/Entries.antt =====
-- The tree as a list of entries, each node with the path of its parent.
use dtmd.Common.{
  List, [], ◌∷◌, ◌++◌, ◌≡◌, ap, sym, ◌∙◌, inl, inr, some_inj, some, none, true, false, Bool-cases,
  Option-cases, append_assoc, append-nil, Bytes, str_eq, str_eq_iff,
}
use dtmd.Media.Tree.{MediaInfo, Media, null, node, Found, pointer, find_media, at_media}

abbrev pub Entry : Type 0
Entry = Bytes × MediaInfo

-- In the order of `print_all_removable_devices`.
unfoldable pub entries : Bytes → Media → List Entry
entries parent null = []
entries parent (node i children next) =
    (parent, i) ∷ (entries i.path children ++ entries parent next)

-- The entries before and behind the list that a pointer leads to.
pub record Splits (path parent : Bytes) (m : Media) (f : Found) : Type 0 where
  pub path_is : f.info.path ≡ path
  pub before : List Entry
  pub behind : List Entry
  pub entries_are : entries parent m ≡ before ++ (entries f.parent_path (pointer f) ++ behind)
  pub entries_become :
      (g : Media → Media)
      → entries parent (at_media path g m)
        ≡ before ++ (entries f.parent_path (g (pointer f)) ++ behind)

module _ (path parent : Bytes) (i : MediaInfo) (children next : Media) where
  pub at_media-here :
      (g : Media → Media)
      → str_eq path i.path ≡ true
      → at_media path g (node i children next) ≡ g (node i children next)
  unfolding at_media
  at_media-here g e = rw e

  at_media-below :
      (g : Media → Media) (c : Found)
      → str_eq path i.path ≡ false
      → find_media path i.path children ≡ some c
      → at_media path g (node i children next) ≡ node i (at_media path g children) next
  unfolding at_media
  at_media-below g c e y = rw (e, y)

  at_media-behind :
      (g : Media → Media)
      → str_eq path i.path ≡ false
      → find_media path i.path children ≡ none
      → at_media path g (node i children next) ≡ node i children (at_media path g next)
  unfolding at_media
  at_media-behind g e n = rw (e, n)

  -- The three places where the node can be.
  data Place (f : Found) : Type 0 where
    here :
        str_eq path i.path ≡ true
        → record { parent_path = parent; info = i; children = children; next = next } ≡ f
        → Place f
    below : str_eq path i.path ≡ false → find_media path i.path children ≡ some f → Place f
    behind :
        str_eq path i.path ≡ false
        → find_media path i.path children ≡ none
        → find_media path parent next ≡ some f
        → Place f

  find_media-Place : {f : Found} → find_media path parent (node i children next) ≡ some f → Place f
  unfolding find_media
  find_media-Place h = elim (Bool-cases (str_eq path i.path)) [
    | inl e ↦ here e (some_inj (rw e at h))
    | inr e ↦ elim (Option-cases (find_media path i.path children)) [
      | inl n ↦ behind e n (rw (e, n) at h)
      | inr (c, y) ↦ below e (y ∙ (rw (e, y) at h))
    ]
  ]

placed :
    (path parent : Bytes) (i : MediaInfo) (children next : Media) {f : Found}
    → ((c : Found) → find_media path i.path children ≡ some c → Splits path i.path children c)
    → ((c : Found) → find_media path parent next ≡ some c → Splits path parent next c)
    → Place path parent i children next f
    → Splits path parent (node i children next) f
unfolding entries
placed path parent i children next left right (here e r) = rw (← r) (record {
  path_is = sym ((str_eq_iff path i.path).0 e);
  before = [];
  behind = [];
  entries_are = sym (append-nil _);
  entries_become = λ g. rw (at_media-here path parent i children next g e) (sym (append-nil _));
})
placed path parent i children next {f} left right (below e y) =
    let s = left f y in
    let pre = s.before in
    record {
      path_is = s.path_is;
      before = (parent, i) ∷ pre;
      behind = s.behind ++ entries parent next;
      entries_are = ap (λ (l : List Entry). (parent, i) ∷ l) (rw s.entries_are (simp append_assoc));
      entries_become = λ g.
          rw (at_media-below path parent i children next g f e y) (
            ap (λ (l : List Entry). (parent, i) ∷ l) (rw (s.entries_become g) (simp append_assoc)));
    }
placed path parent i children next {f} left right (behind e n y) =
    let s = right f y in
    record {
      path_is = s.path_is;
      before = (parent, i) ∷ (entries i.path children ++ s.before);
      behind = s.behind;
      entries_are = ap (λ (l : List Entry). (parent, i) ∷ l) (rw s.entries_are (simp append_assoc));
      entries_become = λ g.
          rw (at_media-behind path parent i children next g e n) (
            ap (λ (l : List Entry). (parent, i) ∷ l) (rw (s.entries_become g) (simp append_assoc)));
    }

-- Writing through the pointer that `dtmd_find_media` returns changes nothing but what it leads to.
pub at_media-Splits :
    (path parent : Bytes) (m : Media) (f : Found)
    → find_media path parent m ≡ some f
    → Splits path parent m f
unfolding find_media
at_media-Splits path parent null f h = cc
at_media-Splits path parent (node i children next) f h =
    placed path parent i children next (at_media-Splits path i.path children)
      (at_media-Splits path parent next) (find_media-Place path parent i children next h)
