-- ===== src/Mounts/Devices.antt =====
-- A check of the mount table changes nothing of the devices but how they are mounted.
use dtmd.Common.{
  ℕ, suc, ◌≡◌, ◌≢◌, refl, sym, ap, ◌∙◌, Bool, true, false, not, ◌&&◌, Option, none, some, some_inj,
  List, [], ◌∷◌, inl, inr, Option-cases, Bool-cases, option_cases, if_both, Bytes, str_eq, Outcome,
  ok, >>=-eq-ok, ok_inj,
}
use dtmd.Misc.Types.{success, is_fatal_error}
use dtmd.Media.Tree.{MediaInfo, Media, null, node, is_found, root_device_path, find_media, at_media}
use dtmd.Media.Order.{IsSorted, Follows}
use dtmd.Lists.Device.{Notification}
use dtmd.Mounts.Table.{
  MountEntry, EntryMemory, Entered, mark_each_device, enter_point, enter_opts, enter, set_node,
  Reading, read_entry, read_table, process_node, process_changes, Checked, finish_check,
  check_mount_changes, has_text, is_processed, is_mounted_now, is_mounted_last,
}
use dtmd.Mounts.Nodes.{info_at, info_of, find_media-info_at, is_found-none, is_found-some}
use dtmd.Mounts.Settled.{mapped, map_nodes, info_at-map_nodes}

-- A device without how it is mounted.
abbrev pub unmounted : MediaInfo → MediaInfo
unmounted i = record i { mnt_point = none; mnt_opts = none; mount_counter = 0 }

abbrev pub devices : Media → Media
devices m = map_nodes unmounted m

devices-mark_each_device : (m : Media) → devices (mark_each_device m) ≡ devices m
unfolding mark_each_device
devices-mark_each_device null = refl
devices-mark_each_device (node i children next) =
    ap (λ c. node (unmounted i) c (devices (mark_each_device next)))
      (devices-mark_each_device children)
    ∙ ap (node (unmounted i) (devices children)) (devices-mark_each_device next)

enter_point-unmounted :
    (memory : Bool) (dir opts : Bytes) (i : MediaInfo)
    → unmounted (enter_point memory dir opts i).info ≡ unmounted i
unfolding enter_point
enter_point-unmounted memory dir opts i =
    if_both (λ (e : Entered). unmounted e.info ≡ unmounted i) (has_text i.mnt_point dir) refl
      (if_both (λ (e : Entered). unmounted e.info ≡ unmounted i) memory refl refl)

enter_opts-unmounted :
    (memory : Bool) (opts : Bytes) (e : Entered)
    → unmounted (enter_opts memory opts e).info ≡ unmounted e.info
unfolding enter_opts
enter_opts-unmounted memory opts e =
    if_both (λ (x : Entered). unmounted x.info ≡ unmounted e.info) (not e.memory) refl
      (if_both (λ (x : Entered). unmounted x.info ≡ unmounted e.info)
        (has_text e.info.mnt_opts opts) refl
        (if_both (λ (x : Entered). unmounted x.info ≡ unmounted e.info) memory refl refl))

enter-unmounted :
    (memory : EntryMemory) (ent : MountEntry) (i : MediaInfo)
    → unmounted (enter memory ent i).info ≡ unmounted i
unfolding enter
enter-unmounted memory ent i =
    option_cases (λ (e : Entered). unmounted e.info ≡ unmounted i) ent.mnt_dir (λ n. refl)
      (λ dir s.
        option_cases (λ (e : Entered). unmounted e.info ≡ unmounted i) ent.mnt_opts (λ n. refl)
          (λ opts t.
            enter_opts-unmounted memory.mnt_opts opts (enter_point memory.mnt_point dir opts _)
            ∙ enter_point-unmounted memory.mnt_point dir opts _))

some≢none : {i : MediaInfo} → some i ≢ none
some≢none e = cc

is_found_not :
    (path parent : Bytes) (m : Media)
    → info_at path m ≡ none
    → is_found (find_media path parent m) ≡ false
is_found_not path parent m n = elim (Bool-cases (is_found (find_media path parent m))) [
  | inl y ↦ absurd (is_found-some path parent m y n)
  | inr y ↦ y
]

is_found_at :
    (path parent : Bytes) (m : Media)
    → info_at path m ≢ none
    → is_found (find_media path parent m) ≡ true
is_found_at path parent m h = elim (Bool-cases (is_found (find_media path parent m))) [
  | inl y ↦ y
  | inr y ↦ absurd (h (is_found-none path parent m y))
]

-- A change of the node at a path that only concerns how it is mounted.
at_media-devices :
    (path : Bytes) (new i : MediaInfo) (m : Media)
    → info_at path m ≡ some i
    → unmounted new ≡ unmounted i
    → devices (at_media path (set_node new) m) ≡ devices m
unfolding at_media set_node info_at
at_media-devices path new i null h e = refl
at_media-devices path new i (node j children next) h e = elim (Bool-cases (str_eq path j.path)) [
  | inl t ↦
      let same : j ≡ i = some_inj (rw (t, info_at) at h) in
      rw (t, at_media, set_node)
        (ap (λ x. node x (devices children) (devices next)) (e ∙ ap unmounted (sym same)))
  | inr t ↦ elim (Option-cases (info_at path children)) [
    | inl n ↦
        let f = is_found_not path j.path children n in
        rw (t, f, at_media)
          (ap (node (unmounted j) (devices children))
            (at_media-devices path new i next (rw (t, n, info_at) at h) e))
    | inr (k, s) ↦
        let f = is_found_at path j.path children (λ x. some≢none (sym s ∙ x)) in
        rw (t, f, at_media)
          (ap (λ c. node (unmounted j) c (devices next))
            (at_media-devices path new i children (s ∙ rw (t, s, info_at) at h) e))
  ]
]

read_entry-devices :
    (memory : EntryMemory) (ent : MountEntry) (root : Media)
    → devices (read_entry memory ent root).media ≡ devices root
unfolding read_entry
read_entry-devices memory ent root =
    option_cases (λ (r : Reading). devices r.media ≡ devices root)
      (find_media ent.mnt_fsname root_device_path root) (λ n. refl)
      (λ f s.
        if_both (λ (r : Reading). devices r.media ≡ devices root)
          (is_processed f.info.mount_counter) refl
          (at_media-devices ent.mnt_fsname (enter memory ent f.info).info f.info root
            (sym (find_media-info_at ent.mnt_fsname root_device_path root) ∙ ap info_of s)
            (enter-unmounted memory ent f.info)))

read_table-devices :
    (memory : ℕ → EntryMemory) (n : ℕ) (table : List MountEntry) (root : Media)
    → devices (read_table memory n table root).media ≡ devices root
unfolding read_table
read_table-devices memory n [] root = refl
read_table-devices memory n (ent ∷ table) root =
    let first = read_entry (memory n) ent root in
    if_both (λ (r : Reading). devices r.media ≡ devices root) first.memory
      (read_table-devices memory (suc n) table first.media ∙ read_entry-devices (memory n) ent root)
      (read_entry-devices (memory n) ent root)

process_node-unmounted :
    (i : MediaInfo) (done : MediaInfo × List Notification)
    → process_node i ≡ ok done
    → unmounted done.0 ≡ unmounted i
unfolding process_node
process_node-unmounted i done =
    if_both
      (λ (o : Outcome (MediaInfo × List Notification)).
        o ≡ ok done → unmounted done.0 ≡ unmounted i)
      (not (is_mounted_now i.mount_counter) && is_mounted_last i.mount_counter)
      (option_cases
        (λ (o : Outcome (MediaInfo × List Notification)).
          o ≡ ok done → unmounted done.0 ≡ unmounted i)
        i.mnt_point (λ n e. cc) (λ point s e. ap (λ d. unmounted d.0) (sym (ok_inj e))))
      (λ e. ap (λ d. unmounted d.0) (sym (ok_inj e)))

process_changes-devices :
    (m : Media) (done : Media × List Notification)
    → process_changes m ≡ ok done
    → devices done.0 ≡ devices m
unfolding process_changes
process_changes-devices null done e = ap (λ d. devices d.0) (sym (ok_inj e))
process_changes-devices (node i children next) done e =
    let (a, ea, ra) = >>=-eq-ok (process_node i) _ e in
    let (b, eb, rb) = >>=-eq-ok (process_changes children) _ ra in
    let (c, ec, rc) = >>=-eq-ok (process_changes next) _ rb in
    ap (λ d. devices d.0) (sym (ok_inj rc))
    ∙ ap (λ x. node x (devices b.0) (devices c.0)) (process_node-unmounted i a ea)
    ∙ ap (λ x. node (unmounted i) x (devices c.0)) (process_changes-devices children b eb)
    ∙ ap (node (unmounted i) (devices children)) (process_changes-devices next c ec)

-- Whatever `check_mount_changes` returns, it changes nothing of the tree of devices but how they
-- are mounted: the same devices are in the same places, with the same types, states, file systems
-- and labels.
pub check_mount_changes-devices :
    (memory : ℕ → EntryMemory) (table : Option (List MountEntry)) (root : Media) (c : Checked)
    → check_mount_changes memory table root ≡ ok c
    → devices c.media ≡ devices root
unfolding check_mount_changes finish_check
check_mount_changes-devices memory none root c e =
    ap (λ (x : Checked). devices x.media) (sym (ok_inj e))
check_mount_changes-devices memory (some table) root c e =
    let r = read_table memory 0 table (mark_each_device root) in
    let read =
      read_table-devices memory 0 table (mark_each_device root) ∙ devices-mark_each_device root in
    elim (Bool-cases r.memory) [
      | inl m ↦
          let (done, p, q) = >>=-eq-ok (process_changes r.media) _ (rw (m, finish_check) at e) in
          ap (λ (x : Checked). devices x.media) (sym (ok_inj q))
          ∙ process_changes-devices r.media done p
          ∙ read
      | inr m ↦
          ap (λ (x : Checked). devices x.media) (sym (ok_inj (rw (m, finish_check) at e))) ∙ read
    ]

-- What depends on the devices alone.
Follows-devices : (p : Bytes) (m : Media) → Follows p (devices m) ≡ Follows p m
Follows-devices p null = refl
Follows-devices p (node i children next) = refl

pub IsSorted-devices : (m : Media) → IsSorted (devices m) ≡ IsSorted m
IsSorted-devices null = refl
IsSorted-devices (node i children next) =
    λ k. Follows-devices i.path next k × IsSorted-devices children k × IsSorted-devices next k

pub info_at-devices :
    (path : Bytes) (m : Media) → info_at path (devices m) ≡ mapped unmounted (info_at path m)
info_at-devices path m = info_at-map_nodes unmounted (λ i. refl) path m

-- A check either succeeds or is fatal.
pub check_mount_changes-code :
    (memory : ℕ → EntryMemory) (table : Option (List MountEntry)) (root : Media) (c : Checked)
    → check_mount_changes memory table root ≡ ok c
    → is_fatal_error c.rc ≡ false
    → c.rc ≡ success
unfolding check_mount_changes finish_check
check_mount_changes-code memory none root c e f =
    let code = ap (λ (x : Checked). is_fatal_error x.rc) (ok_inj e) in cc
check_mount_changes-code memory (some table) root c e f =
    let r = read_table memory 0 table (mark_each_device root) in
    elim (Bool-cases r.memory) [
      | inl m ↦
          let (done, p, q) = >>=-eq-ok (process_changes r.media) _ (rw (m, finish_check) at e) in
          ap (λ (x : Checked). x.rc) (sym (ok_inj q))
      | inr m ↦
          let code =
            ap (λ (x : Checked). is_fatal_error x.rc) (ok_inj (rw (m, finish_check) at e)) in
          cc
    ]
