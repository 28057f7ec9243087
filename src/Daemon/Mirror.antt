-- ===== src/Daemon/Mirror.antt =====
-- Behind a round that looks at the mount table, the tree shows what the table says.
use dtmd.Common.{
  ◌≡◌, refl, sym, ap, subst, ◌∙◌, Bool, true, false, not, ◌||◌, Option, none, some, List, inl, inr,
  Option-cases, Bool-cases, Bytes, Outcome, ok, ◌>>=◌, >>=-eq-ok, ok_inj, some_inj,
}
use dtmd.Misc.Types.{is_fatal_error}
use dtmd.Media.Tree.{MediaInfo}
use dtmd.Lists.Device.{Update}
use dtmd.Lists.Change.{change_media}
use dtmd.Mounts.Table.{MountEntry, Checked, check_mount_changes}
use dtmd.Mounts.Nodes.{info_at}
use dtmd.Mounts.Devices.{
  unmounted, info_at-devices, check_mount_changes-devices, check_mount_changes-code,
}
use dtmd.Mounts.Settled.{mapped}
use dtmd.Mounts.Synced.{listed_point}
use dtmd.Mounts.Reflected.{check_mount_changes-reflects}
use dtmd.Daemon.Counted.{IsCounted}
use dtmd.Daemon.Events.{
  change, usable, Watched, Round, finish_event, in_turn, change_device, handle_device, Monitored,
  device, watch_devices, watch_mounts, Polled, watch,
}
use dtmd.Daemon.Reach.{Reach, Reach-IsSound, watch_devices-IsSound}

-- The event changes a device that the daemon is for.
abbrev pub changes_device : Monitored → Bool
changes_device (device change i) = elim (usable i) [ none ↦ false | some d ↦ true ]
changes_device _ = false

-- What a round calls for: a look at the mount table.
abbrev pub asks_check : Polled → Bool
asks_check p = p.mounts_changed || changes_device p.monitored

force_of :
    (force : Bool) (o : Outcome Update) (t : Round)
    → (o >>= λ (u : Update). ok (finish_event force u)) ≡ ok t
    → t.state.force_mounts_check ≡ force
force_of force o t e =
    let (u, f, q) = >>=-eq-ok o _ e in
    ap (λ (r : Round). r.state.force_mounts_check) (sym (ok_inj q))

-- A change of a device asks for a check.
forced :
    (p : Polled) (s : Watched) (t : Round) (m : Monitored)
    → watch_devices p.allocator m s ≡ ok t
    → changes_device m ≡ true
    → t.state.force_mounts_check ≡ true
unfolding watch_devices handle_device change_device
forced p s t (device change i) e a = elim (Option-cases (usable i)) [
  | inl n ↦ let no = rw (n, changes_device) at a in cc
  | inr (d, u) ↦ force_of true (change_media p.allocator d s.media) t (rw (u, change_device) at e)
]
forced p s t _ e a = cc

watch_devices-force :
    (p : Polled) (s : Watched) (t : Round)
    → watch_devices p.allocator p.monitored s ≡ ok t
    → asks_check p ≡ true
    → (p.mounts_changed || t.state.force_mounts_check) ≡ true
watch_devices-force p s t e a = elim (Bool-cases p.mounts_changed) [
  | inl m ↦ rw m refl
  | inr m ↦ rw m (forced p s t p.monitored e (rw m at a))
]

-- Both halves of a round that goes on.
in_turn-both :
    (first : Outcome Round) (next : Watched → Outcome Round) (r : Round)
    → in_turn first next ≡ ok r
    → r.going ≡ true
    → (t : Round) × (first ≡ ok t)
      × (t.going ≡ true)
      × ((u : Round) × (next t.state ≡ ok u) × (u.state ≡ r.state) × (u.going ≡ true))
in_turn-both first next r e g =
    let (t, f, q) = >>=-eq-ok first _ e in
    elim (Bool-cases t.going) [
      | inl y ↦
          let (u, n, v) = >>=-eq-ok (next t.state) _ (rw y at q) in
          (
            t,
            f,
            y,
            (
              u,
              n,
              ap (λ (x : Round). x.state) (ok_inj v),
              ap (λ (x : Round). x.going) (ok_inj v) ∙ g,
            ),
          )
      | inr y ↦ let stops = ap (λ (x : Round). x.going) (ok_inj (rw y at q)) in cc
    ]

mapped-some :
    (f : MediaInfo → MediaInfo) (a b : Option MediaInfo) {k : MediaInfo}
    → mapped f a ≡ mapped f b
    → a ≡ some k
    → (i : MediaInfo) × (b ≡ some i)
unfolding mapped
mapped-some f none b e h = cc
mapped-some f (some j) none e h = cc
mapped-some f (some j) (some i) e h = (i, refl)

not-true : (b : Bool) → not b ≡ true → b ≡ false
not-true true e = cc
not-true false e = refl

-- The check within a round.
watch_mounts-reflects :
    (p : Polled) (s : Watched) (u : Round) (path : Bytes) (k : MediaInfo)
    → IsCounted s.media
    → (p.mounts_changed || s.force_mounts_check) ≡ true
    → watch_mounts p.memory p.mounts_changed p.table s ≡ ok u
    → u.going ≡ true
    → info_at path u.state.media ≡ some k
    → (table : List MountEntry) × (p.table ≡ some table) × (k.mnt_point ≡ listed_point path table)
unfolding watch_mounts check_mount_changes
watch_mounts-reflects p s u path k h a e g at_k =
    let (c, f, q) =
      >>=-eq-ok (check_mount_changes p.memory p.table s.media) _ (rw (a, watch_mounts) at e) in
    let goes = ap (λ (x : Round). x.going) (ok_inj q) ∙ g in
    let code =
      check_mount_changes-code p.memory p.table s.media c f (not-true (is_fatal_error c.rc) goes) in
    let at_c = ap (λ (x : Round). info_at path x.state.media) (ok_inj q) ∙ at_k in
    let same = check_mount_changes-devices p.memory p.table s.media c f in
    let (i, at_i) =
      mapped-some unmounted (info_at path c.media) (info_at path s.media)
        (sym (info_at-devices path c.media) ∙ ap (info_at path) same ∙ info_at-devices path s.media)
        at_c in
    elim (Option-cases p.table) [
      | inl n ↦
          let closed : check_mount_changes p.memory none s.media ≡ ok c =
            subst (λ o. check_mount_changes p.memory o s.media ≡ ok c) n f in
          let stops = ap (λ (x : Checked). is_fatal_error x.rc) (ok_inj closed) in
          let fine = not-true (is_fatal_error c.rc) goes in cc
      | inr (table, t) ↦
          let (j, at_j, point) =
            check_mount_changes-reflects p.memory table s.media c path i h
              (subst (λ o. check_mount_changes p.memory o s.media ≡ ok c) t f) code at_i in
          (table, t, ap (λ (x : MediaInfo). x.mnt_point) (some_inj (sym at_c ∙ at_j)) ∙ point)
    ]

-- Behind a round that goes on, where the mount table has changed or a device has, the table could be
-- read, and each device that a path leads to has the mount point of the first entry of the table for
-- its path, or none if there is no such entry.
pub watch-reflects :
    (p : Polled) (s : Watched) (r : Round) (path : Bytes) (k : MediaInfo)
    → Reach s
    → asks_check p ≡ true
    → watch p s ≡ ok r
    → r.going ≡ true
    → info_at path r.state.media ≡ some k
    → (table : List MountEntry) × (p.table ≡ some table) × (k.mnt_point ≡ listed_point path table)
unfolding watch
watch-reflects p s r path k h a e g at_k =
    let (t, f, y, u) =
      in_turn-both (watch_devices p.allocator p.monitored s)
        (λ t. watch_mounts p.memory p.mounts_changed p.table t) r e g in
    let sound = watch_devices-IsSound p.allocator p.monitored s t (Reach-IsSound s h) f y in
    watch_mounts-reflects p t.state u.0 path k sound.1 (watch_devices-force p s t f a) u.1 u.3
      (ap (λ (x : Watched). info_at path x.media) u.2 ∙ at_k)
