-- ===== src/Lists/Added.antt =====
-- What `add_media` does to the tree.
use mathlib.Core.List.{Perm, perm_middle}
use mathlib.Core.List.Perm
use dtmd.Common.{
  false, some, [], ◌∷◌, ◌++◌, ◌≡◌, ◌≢◌, ◌⊎◌, str_eq_refl, inl, inr, refl, ap, sym, subst, ok_inj,
  if_both, Bool-cases, Option-cases, Bytes, str_eq, str_eq_iff, Outcome, ok, failed,
}
use dtmd.Misc.Types.{success}
use dtmd.Media.Tree.{
  MediaInfo, Media, null, node, Found, pointer, root_device_path, str_lt, find_media, at_media,
}
use dtmd.Media.Entries.{entries, at_media-Splits}
use dtmd.Media.Order.{IsSorted, Follows, KeepsOrder, at_media-IsSorted, str_lt_asymm}
use dtmd.Lists.Device.{Device, Allocator, device_added, Update}
use dtmd.Lists.Construct.{construct_media}
use dtmd.Lists.Constructed.{IsConstructed, construct_media-IsConstructed}
use dtmd.Lists.Update.{insert_sibling, insert_child, link_media, finish_add, add_media, refusal}

-- The parent that a device names is the root path, or a node of the tree.
abbrev pub HasParent : Bytes → Media → Type 0
HasParent parent root =
    (parent ≡ root_device_path) ⊎ ((f : Found) × (find_media parent root_device_path root ≡ some f))

insert_sibling-perm :
    (p : Bytes) (new : MediaInfo) (m : Media)
    → Perm (entries p (insert_sibling new m)) ((p, new) ∷ entries p m)
unfolding insert_sibling entries
insert_sibling-perm p new null = Perm.refl _
insert_sibling-perm p new (node i c n) =
    if_both (λ m. Perm (entries p m) ((p, new) ∷ entries p (node i c n))) (str_lt new.path i.path)
      (Perm.refl _)
      (Perm.trans
        (Perm.cons (p, i) (Perm.append_left (entries i.path c) (insert_sibling-perm p new n)))
        (perm_middle ((p, i) ∷ entries i.path c) (entries p n)))

insert_child-perm :
    (f : Found) (new : MediaInfo)
    → Perm
        (entries f.parent_path (insert_child new (pointer f)))
        ((f.info.path, new) ∷ entries f.parent_path (pointer f))
unfolding insert_child entries
insert_child-perm f new =
    Perm.trans
      (Perm.cons (f.parent_path, f.info)
        (Perm.append_right (entries f.parent_path f.next)
          (insert_sibling-perm f.info.path new f.children)))
      (Perm.swap _ _ _)

at_media-perm :
    (path : Bytes) (new : MediaInfo) (root : Media) (f : Found)
    → find_media path root_device_path root ≡ some f
    → Perm
        (entries root_device_path (at_media path (insert_child new) root))
        ((path, new) ∷ entries root_device_path root)
at_media-perm path new root f h =
    let s = at_media-Splits path root_device_path root f h in
    let below = entries f.parent_path (pointer f) in
    rw (s.entries_become (insert_child new), s.entries_are, ← s.path_is)
      (Perm.trans (Perm.append_left s.before (Perm.append_right s.behind (insert_child-perm f new)))
        (perm_middle s.before (below ++ s.behind)))

insert_sibling-Follows :
    (p : Bytes) (new : MediaInfo) (m : Media)
    → str_lt new.path p ≡ false
    → Follows p m
    → Follows p (insert_sibling new m)
unfolding insert_sibling
insert_sibling-Follows p new null h k = h
insert_sibling-Follows p new (node i c n) h k = if_both (Follows p) (str_lt new.path i.path) h k

insert_sibling-IsSorted :
    (new : MediaInfo) (m : Media) → IsSorted m → IsSorted (insert_sibling new m)
unfolding insert_sibling
insert_sibling-IsSorted new null s = (tt, tt, tt)
insert_sibling-IsSorted new (node i c n) s = elim (Bool-cases (str_lt new.path i.path)) [
  | inl e ↦ rw e (str_lt_asymm new.path i.path e, tt, s)
  | inr e ↦ rw e (insert_sibling-Follows i.path new n e s.0, s.1, insert_sibling-IsSorted new n s.2)
]

insert_child-KeepsOrder : (path : Bytes) (new : MediaInfo) → KeepsOrder path (insert_child new)
unfolding insert_child
insert_child-KeepsOrder path new = record {
  sorted = λ i c n e s. (s.0, insert_sibling-IsSorted new c s.1, s.2);
  follows = λ p i c n e s h. h;
}

link_media-IsSorted :
    (parent : Bytes) (new : MediaInfo) (root : Media)
    → IsSorted root
    → IsSorted (link_media parent new root)
unfolding link_media
link_media-IsSorted parent new root s =
    if_both IsSorted (str_eq parent root_device_path) (insert_sibling-IsSorted new root s)
      (at_media-IsSorted parent (insert_child-KeepsOrder parent new) root s)

link_media-perm :
    (parent : Bytes) (new : MediaInfo) (root : Media)
    → HasParent parent root
    → Perm
        (entries root_device_path (link_media parent new root))
        ((parent, new) ∷ entries root_device_path root)
unfolding link_media
link_media-perm parent new root (inl e) =
    rw (e, str_eq_refl root_device_path) (insert_sibling-perm root_device_path new root)
link_media-perm parent new root (inr (f, h)) = elim (Bool-cases (str_eq parent root_device_path)) [
  | inl y ↦
      rw ((str_eq_iff parent root_device_path).0 y, str_eq_refl root_device_path)
        (insert_sibling-perm root_device_path new root)
  | inr n ↦ rw n (at_media-perm parent new root f h)
]

-- What a call that succeeds has done, for the node that was constructed.
pub record IsAdded (d : Device) (root : Media) (new : MediaInfo) (u : Update) : Type 0 where
  pub constructed : IsConstructed d new
  pub returned : u.rc ≡ success
  pub entries_are :
      Perm (entries root_device_path u.media) ((d.parent_path, new) ∷ entries root_device_path root)
  pub announced : u.notes ≡ device_added (record d { label = new.label }) ∷ []

finish_add-IsAdded :
    (d : Device) (root : Media) (new : MediaInfo)
    → HasParent d.parent_path root
    → IsConstructed d new
    → (u : Update) × (finish_add d root (ok new) ≡ ok u) × IsAdded d root new u
unfolding finish_add
finish_add-IsAdded d root new h k = (
  record {
    rc = success;
    media = link_media d.parent_path new root;
    notes = device_added (record d { label = new.label }) ∷ [];
  },
  refl,
  record {
    constructed = k;
    returned = refl;
    entries_are = link_media-perm d.parent_path new root h;
    announced = refl;
  },
)

add_media-finish :
    (alloc : Allocator) (d : Device) (root : Media)
    → HasParent d.parent_path root
    → add_media alloc d root ≡ finish_add d root (construct_media alloc d)
unfolding add_media
add_media-finish alloc d root (inl e) = rw (e, str_eq_refl root_device_path)
add_media-finish alloc d root (inr (f, h)) =
    elim (Bool-cases (str_eq d.parent_path root_device_path)) [ inl y ↦ rw y | inr n ↦ rw (n, h) ]

-- If the parent is the root path or the path of a known device, and the node could be
-- constructed, `add_media` succeeds: the tree has one entry more, that of the new node below its
-- parent, and the addition is announced once. The node, and the announcement, have the label that
-- `decode_label` reads in the device's label, or none if the device has none; all else that the
-- node holds is as the device gives it.
pub add_media-IsAdded :
    (alloc : Allocator) (d : Device) (root : Media) (new : MediaInfo)
    → HasParent d.parent_path root
    → construct_media alloc d ≡ ok new
    → (u : Update) × (add_media alloc d root ≡ ok u) × IsAdded d root new u
add_media-IsAdded alloc d root new h c =
    rw (add_media-finish alloc d root h, c)
      (finish_add-IsAdded d root new h (construct_media-IsConstructed alloc d new c))

-- The two ways to return.
add_media-cases :
    (alloc : Allocator) (d : Device) (root : Media) {u : Update}
    → add_media alloc d root ≡ ok u
    → (finish_add d root (construct_media alloc d) ≡ ok u) ⊎ (refusal root ≡ ok u)
unfolding add_media
add_media-cases alloc d root h = elim (Bool-cases (str_eq d.parent_path root_device_path)) [
  | inl y ↦ inl (rw y at h)
  | inr n ↦ elim (Option-cases (find_media d.parent_path root_device_path root)) [
    | inl none_found ↦ inr (rw (n, none_found) at h)
    | inr (f, found) ↦ inl (rw (n, found) at h)
  ]
]

finish_add_refused :
    (d : Device) (root : Media) (o : Outcome MediaInfo) (u : Update)
    → finish_add d root o ≡ ok u
    → u.rc ≢ success
    → (u.media ≡ root) × (u.notes ≡ [])
unfolding finish_add
finish_add_refused d root (ok new) u h n = absurd (n (ap (λ (v : Update). v.rc) (sym (ok_inj h))))
finish_add_refused d root failed u h n =
    let e = sym (ok_inj h) in (ap (λ (v : Update). v.media) e, ap (λ (v : Update). v.notes) e)
finish_add_refused d root _ u h n = cc

-- If `add_media` returns anything but success, for want of a parent, of memory or of a readable
-- label, the tree is as it was and nothing was announced.
pub add_media_refused :
    (alloc : Allocator) (d : Device) (root : Media) (u : Update)
    → add_media alloc d root ≡ ok u
    → u.rc ≢ success
    → (u.media ≡ root) × (u.notes ≡ [])
add_media_refused alloc d root u h n = elim (add_media-cases alloc d root h) [
  | inl e ↦ finish_add_refused d root (construct_media alloc d) u e n
  | inr e ↦
      let e' = sym (ok_inj e) in (ap (λ (v : Update). v.media) e', ap (λ (v : Update). v.notes) e')
]

finish_add-IsSorted :
    (d : Device) (root : Media) (o : Outcome MediaInfo) (u : Update)
    → finish_add d root o ≡ ok u
    → IsSorted root
    → IsSorted u.media
unfolding finish_add
finish_add-IsSorted d root (ok new) u h s =
    subst (λ (v : Update). IsSorted v.media) (ok_inj h)
      (link_media-IsSorted d.parent_path new root s)
finish_add-IsSorted d root failed u h s = subst (λ (v : Update). IsSorted v.media) (ok_inj h) s
finish_add-IsSorted d root _ u h s = cc

-- After `add_media`, whatever it returns, each list of siblings is in the order of `strcmp`, if
-- it was so before.
pub add_media-IsSorted :
    (alloc : Allocator) (d : Device) (root : Media) (u : Update)
    → add_media alloc d root ≡ ok u
    → IsSorted root
    → IsSorted u.media
add_media-IsSorted alloc d root u h s = elim (add_media-cases alloc d root h) [
  | inl e ↦ finish_add-IsSorted d root (construct_media alloc d) u e s
  | inr e ↦ subst (λ (v : Update). IsSorted v.media) (ok_inj e) s
]
