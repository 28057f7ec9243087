-- ===== src/Lists/Changed/InTree.antt =====
-- The tree that `change_media` leaves.
use dtmd.Common.{
  Bool, true, false, some, List, [], ◌∷◌, ◌++◌, ◌≡◌, ◌≢◌, ◌⊎◌, inl, inr, refl, ap, sym, subst,
  ok_inj, arith, ◌∙◌, if◌then◌else◌, Bool-cases, Option-cases, Bytes, str_eq, ok, ◌>>=◌, >>=-eq-ok,
}
use dtmd.Misc.Types.{ReturnCode, success, fail, bug}
use dtmd.Media.Tree.{MediaInfo, Media, Found, root_device_path, str_lt, find_media}
use dtmd.Media.Entries.{Entry, entries, at_media-Splits}
use dtmd.Media.Order.{IsSorted, Follows, KeepsOrder, at_media-IsSorted}
use dtmd.Lists.Device.{Device, Allocator, Notification, device_changed, Update}
use dtmd.Lists.Change.{
  same_text, is_unchanged, change_info, set_info, finish_change, change_found, change_media, Edit,
}
use dtmd.Lists.Changed.{SameDevice, HasFields, LabelIs, change_info-IsUpdated}

-- What a change that succeeds has done, for the node that was found.
pub record IsChanged (d : Device) (root : Media) (f : Found) (u : Update) : Type 0 where
  pub info : MediaInfo
  pub same : SameDevice f.info info
  pub fields : HasFields d info
  pub label_is : LabelIs d.label info.label
  pub before : List Entry
  pub behind : List Entry
  pub entries_were : entries root_device_path root ≡ before ++ ((f.parent_path, f.info) ∷ behind)
  pub entries_are : entries root_device_path u.media ≡ before ++ ((f.parent_path, info) ∷ behind)
  pub earlier : List Notification
  pub announced : u.notes ≡ earlier ++ device_changed (record d { label = info.label }) ∷ []

abbrev Untouched : Media → Update → Type 0
Untouched root u = (u.media ≡ root) × (u.notes ≡ []) × (u.rc ≢ success)

-- The edit behind a call that wrote to the tree.
abbrev Edited : Allocator → Device → Media → Found → Update → Type 0
Edited alloc d root f u =
    (e : Edit) × (change_info alloc d f.info ≡ ok e) × (finish_change d root e ≡ u)

answered-Untouched :
    (rc : ReturnCode) (root : Media) (u : Update)
    → rc ≢ success
    → record { rc = rc; media = root; notes = [] } ≡ u
    → Untouched root u
answered-Untouched rc root u n e = (
  ap (λ (v : Update). v.media) (sym e),
  ap (λ (v : Update). v.notes) (sym e),
  λ s. n (ap (λ (v : Update). v.rc) e ∙ s),
)

compared-cases :
    (alloc : Allocator) (d : Device) (root : Media) (f : Found) (u : Update) (same : Bool)
    → (if same
        then ok (record { rc = fail; media = root; notes = [] })
        else (do e ← change_info alloc d f.info; ok (finish_change d root e)))
      ≡ ok u
    → Untouched root u ⊎ Edited alloc d root f u
compared-cases alloc d root f u true h = inl (answered-Untouched fail root u (λ e. cc) (ok_inj h))
compared-cases alloc d root f u false h =
    let (e, c, k) = >>=-eq-ok (change_info alloc d f.info) (λ e. ok (finish_change d root e)) h in
    inr (e, c, ok_inj k)

change_found-cases :
    (alloc : Allocator) (d : Device) (root : Media) (f : Found) (u : Update)
    → change_found alloc d root f ≡ ok u
    → Untouched root u ⊎ Edited alloc d root f u
unfolding change_found
change_found-cases alloc d root f u h = elim (Bool-cases (str_eq d.parent_path f.parent_path)) [
  | inr n ↦ inl (answered-Untouched bug root u (λ e. cc) (ok_inj (rw n at h)))
  | inl y ↦ elim (Bool-cases (same_text d.sysfs_path f.info.sysfs_path)) [
    | inr n ↦ inl (answered-Untouched bug root u (λ e. cc) (ok_inj (rw (y, n) at h)))
    | inl z ↦
        let next = λ (same : Bool).
          if same
          then ok (record { rc = fail; media = root; notes = [] })
          else (do e ← change_info alloc d f.info; ok (finish_change d root e)) in
        let (same, c, k) = >>=-eq-ok (is_unchanged d f.info) next (rw (y, z) at h) in
        compared-cases alloc d root f u same k
  ]
]

finish_change-IsChanged :
    (alloc : Allocator) (d : Device) (root : Media) (f : Found) (e : Edit)
    → find_media d.path root_device_path root ≡ some f
    → change_info alloc d f.info ≡ ok e
    → e.memory ≡ true
    → IsChanged d root f (finish_change d root e)
unfolding finish_change
finish_change-IsChanged alloc d root f e h c m =
    let s = at_media-Splits d.path root_device_path root f h in
    let w = change_info-IsUpdated alloc d f.info e c in
    record {
      info = e.info;
      same = w.same;
      fields = w.fields m;
      label_is = w.label_is m;
      before = s.before;
      behind = (entries f.info.path f.children ++ entries f.parent_path f.next) ++ s.behind;
      entries_were = rw s.entries_are (unfold entries in refl);
      entries_are = rw (s.entries_become (set_info e.info)) (
          unfold entries set_info in
          ap
            (λ (p : Bytes).
              s.before
              ++ ((f.parent_path, e.info)
                  ∷ ((entries p f.children ++ entries f.parent_path f.next) ++ s.behind)))
            (sym w.same.same_path));
      earlier = e.notes;
      announced = rw m;
    }

finish_change-memory :
    (d : Device) (root : Media) (e : Edit) → (finish_change d root e).rc ≡ success → e.memory ≡ true
unfolding finish_change
finish_change-memory d root e h = ground arith

-- If `change_media` succeeds, the first node with the path has the new state, file system, label,
-- mount point and options, all else in the tree is as it was, and the last notification announces
-- the change with the decoded label.
pub change_media-IsChanged :
    (alloc : Allocator) (d : Device) (root : Media) (f : Found) (u : Update)
    → find_media d.path root_device_path root ≡ some f
    → change_media alloc d root ≡ ok u
    → u.rc ≡ success
    → IsChanged d root f u
unfolding change_media
change_media-IsChanged alloc d root f u h c r =
    elim (change_found-cases alloc d root f u (rw (h, change_media) at c)) [
      | inl (a, b, n) ↦ absurd (n r)
      | inr (e, k, w) ↦ subst (IsChanged d root f) w (
          finish_change-IsChanged alloc d root f e h k
            (finish_change-memory d root e (ap (λ (v : Update). v.rc) w ∙ r)))
    ]

finish_change-fatal :
    (d : Device) (root : Media) (e : Edit)
    → ((finish_change d root e).rc ≡ fail) ⊎ ((finish_change d root e).rc ≡ bug)
    → ⊥
unfolding finish_change
finish_change-fatal d root e h = ground arith

-- If `change_media` returns `result_fail` or `result_bug`, for an unknown path, a parent or a sysfs
-- path that differs, or because nothing has changed, the tree is as it was and nothing was
-- announced.
pub change_media_refused :
    (alloc : Allocator) (d : Device) (root : Media) (u : Update)
    → change_media alloc d root ≡ ok u
    → (u.rc ≡ fail) ⊎ (u.rc ≡ bug)
    → (u.media ≡ root) × (u.notes ≡ [])
unfolding change_media
change_media_refused alloc d root u c r =
    elim (Option-cases (find_media d.path root_device_path root)) [
      | inl n ↦
          let a = answered-Untouched fail root u (λ e. cc) (ok_inj (rw (n, change_media) at c)) in
          (a.0, a.1)
      | inr (f, h) ↦ elim (change_found-cases alloc d root f u (rw (h, change_media) at c)) [
        | inl a ↦ (a.0, a.1)
        | inr (e, k, w) ↦ absurd (
            finish_change-fatal d root e
              (subst (λ (v : Update). (v.rc ≡ fail) ⊎ (v.rc ≡ bug)) (sym w) r))
      ]
    ]

set_info-KeepsOrder :
    (path : Bytes) (new : MediaInfo) → path ≡ new.path → KeepsOrder path (set_info new)
unfolding set_info
set_info-KeepsOrder path new p = record {
  sorted = λ i c n e s. (subst (λ (q : Bytes). Follows q n) (sym e ∙ p) s.0, s.1, s.2);
  follows = λ q i c n e s h. subst (λ (x : Bytes). str_lt x q ≡ false) (sym e ∙ p) h;
}

finish_change-IsSorted :
    (d : Device) (root : Media) (e : Edit)
    → IsSorted root
    → d.path ≡ e.info.path
    → IsSorted (finish_change d root e).media
unfolding finish_change
finish_change-IsSorted d root e s p =
    at_media-IsSorted d.path (set_info-KeepsOrder d.path e.info p) root s

-- After `change_media`, whatever it returns, each list of siblings is in the order of `strcmp`, if
-- it was so before.
pub change_media-IsSorted :
    (alloc : Allocator) (d : Device) (root : Media) (u : Update)
    → change_media alloc d root ≡ ok u
    → IsSorted root
    → IsSorted u.media
unfolding change_media
change_media-IsSorted alloc d root u c s =
    elim (Option-cases (find_media d.path root_device_path root)) [
      | inl n ↦ subst (λ (v : Update). IsSorted v.media) (ok_inj (rw (n, change_media) at c)) s
      | inr (f, h) ↦ elim (change_found-cases alloc d root f u (rw (h, change_media) at c)) [
        | inl a ↦ subst IsSorted (sym a.0) s
        | inr (e, k, w) ↦
            let at = at_media-Splits d.path root_device_path root f h in
            let same = (change_info-IsUpdated alloc d f.info e k).same in
            subst (λ (v : Update). IsSorted v.media) w
              (finish_change-IsSorted d root e s (sym at.path_is ∙ same.same_path))
      ]
    ]
