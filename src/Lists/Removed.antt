-- ===== src/Lists/Removed.antt =====
-- What `remove_media` and `remove_all_media` do to the tree, and what they announce.
use mathlib.Core.List.{Perm, perm_append_singleton, map-append}
use mathlib.Core.List.Perm
use dtmd.Common.{
  false, none, some, List, [], ◌∷◌, ◌++◌, ◌≡◌, inl, inr, refl, ap, map, append_assoc, Option-cases,
  Bytes,
}
use dtmd.Misc.Types.{success, fail}
use dtmd.Media.Tree.{MediaInfo, Media, null, node, Found, root_device_path, str_lt, find_media}
use dtmd.Media.Entries.{Entry, entries, at_media-Splits}
use dtmd.Media.Order.{IsSorted, Follows, KeepsOrder, at_media-IsSorted, str_le_trans}
use dtmd.Lists.Device.{Notification, device_removed, Update}
use dtmd.Lists.Update.{unlink_media, removal, remove_siblings, remove_media, remove_all_media}

-- The paths whose removal is announced.
unfoldable pub removed_paths : List Notification → List Bytes
removed_paths [] = []
removed_paths (device_removed path ∷ notes) = path ∷ removed_paths notes
removed_paths (_ ∷ notes) = removed_paths notes

removed_paths-append :
    (a b : List Notification) → removed_paths (a ++ b) ≡ removed_paths a ++ removed_paths b
unfolding removed_paths
removed_paths-append [] b = refl
removed_paths-append (device_removed path ∷ a) b =
    ap (λ (l : List Bytes). path ∷ l) (removed_paths-append a b)
removed_paths-append (_ ∷ a) b = removed_paths-append a b

removed_paths-removal : (i : MediaInfo) → removed_paths (removal i) ≡ i.path ∷ []
unfolding removed_paths removal
removed_paths-removal i = elim (Option-cases i.mnt_point) [
  | inl e ↦ rw (e, removal)
  | inr (p, e) ↦ rw (e, removal)
]

abbrev entry_path : Entry → Bytes
entry_path e = e.1.path

-- Every node of a list that is removed is announced once.
remove_siblings-paths :
    (parent : Bytes) (m : Media)
    → Perm (removed_paths (remove_siblings m)) (map entry_path (entries parent m))
unfolding remove_siblings entries
remove_siblings-paths parent null = unfold removed_paths in Perm.nil
remove_siblings-paths parent (node i c n) =
    rw
      (
        removed_paths-append (remove_siblings c ++ removal i) (remove_siblings n),
        removed_paths-append (remove_siblings c) (removal i),
        removed_paths-removal i,
        map-append entry_path (entries i.path c) (entries parent n),
      )
      (Perm.append
        (Perm.trans (perm_append_singleton i.path (removed_paths (remove_siblings c)))
          (Perm.cons i.path (remove_siblings-paths i.path c)))
        (remove_siblings-paths parent n))

-- The entries of a node and of all below it.
abbrev pub subtree : Found → List Entry
subtree f = (f.parent_path, f.info) ∷ entries f.info.path f.children

-- What a removal that succeeds has done, for the node that was found.
pub record IsRemoved (root : Media) (f : Found) (u : Update) : Type 0 where
  pub returned : u.rc ≡ success
  pub before : List Entry
  pub behind : List Entry
  pub entries_were : entries root_device_path root ≡ before ++ (subtree f ++ behind)
  pub entries_are : entries root_device_path u.media ≡ before ++ behind
  pub announced : Perm (removed_paths u.notes) (map entry_path (subtree f))

-- Where `path` is that of a known device, `remove_media` takes the first such node out of the tree
-- with all below it, leaves every other entry in its place, and announces the removal of each
-- node that it took out, once each.
pub remove_media-IsRemoved :
    (path : Bytes) (root : Media) (f : Found)
    → find_media path root_device_path root ≡ some f
    → IsRemoved root f (remove_media path root)
unfolding remove_media
remove_media-IsRemoved path root f h =
    let s = at_media-Splits path root_device_path root f h in
    rw (h, remove_media)
      (record {
        returned = refl;
        before = s.before;
        behind = entries f.parent_path f.next ++ s.behind;
        entries_were = rw s.entries_are (unfold entries in simp append_assoc);
        entries_are = rw (s.entries_become unlink_media) (unfold unlink_media in refl);
        announced =
            rw
              (
                removed_paths-append (remove_siblings f.children) (removal f.info),
                removed_paths-removal f.info,
              )
              (Perm.trans
                (perm_append_singleton f.info.path (removed_paths (remove_siblings f.children)))
                (Perm.cons f.info.path (remove_siblings-paths f.info.path f.children)));
      })

-- Where no node has the path, nothing changes and nothing is announced.
pub remove_media_unknown :
    (path : Bytes) (root : Media)
    → find_media path root_device_path root ≡ none
    → remove_media path root ≡ record { rc = fail; media = root; notes = [] }
unfolding remove_media
remove_media_unknown path root h = rw (h, remove_media)

unlinked-Follows :
    (p : Bytes) (i : MediaInfo) (n : Media)
    → Follows i.path n
    → str_lt i.path p ≡ false
    → Follows p n
unlinked-Follows p i null h k = tt
unlinked-Follows p i (node j c n) h k = str_le_trans p i.path j.path k h

unlink_media-KeepsOrder : (path : Bytes) → KeepsOrder path unlink_media
unfolding unlink_media
unlink_media-KeepsOrder path = record {
  sorted = λ i c n e s. s.2;
  follows = λ p i c n e s h. unlinked-Follows p i n s.0 h;
}

-- After `remove_media` each list of siblings is in the order of `strcmp`, if it was so before.
pub remove_media-IsSorted :
    (path : Bytes) (root : Media) → IsSorted root → IsSorted (remove_media path root).media
unfolding remove_media
remove_media-IsSorted path root s = elim (Option-cases (find_media path root_device_path root)) [
  | inl e ↦ rw (e, remove_media) s
  | inr (f, e) ↦ rw (e, remove_media) (at_media-IsSorted path (unlink_media-KeepsOrder path) root s)
]

-- `remove_all_media` leaves no device, and announces the removal of each one once.
pub remove_all_media_lem :
    (root : Media)
    → ((remove_all_media root).0 ≡ null)
      × Perm
          (removed_paths (remove_all_media root).1)
          (map entry_path (entries root_device_path root))
unfolding remove_all_media
remove_all_media_lem root = (refl, remove_siblings-paths root_device_path root)
