-- ===== src/Daemon/Reach.antt =====
-- The states of the main loop, from the start of the daemon through its rounds.
use dtmd.Common.{
  ℕ, suc, ◌≡◌, refl, sym, ap, subst, ◌∙◌, Bool, true, false, not, ◌||◌, Option, List, [], ◌∷◌, ◌++◌,
  option_cases, if_both, if_cases, Outcome, ok, failed, undefined, out_of_fuel, ◌>>=◌,
}
use dtmd.Misc.Types.{ReturnCode, success, is_fatal_error}
use dtmd.Media.Tree.{Media}
use dtmd.Media.Order.{IsSorted}
use dtmd.Lists.Device.{Allocator, Update}
use dtmd.Lists.Update.{add_media}
use dtmd.Lists.Change.{change_media}
use dtmd.Lists.Added.{add_media-IsSorted}
use dtmd.Lists.Removed.{remove_media-IsSorted}
use dtmd.Lists.Changed.InTree.{change_media-IsSorted}
use dtmd.Mounts.Table.{MountEntry, EntryMemory, Checked, check_mount_changes}
use dtmd.Mounts.Consistent.{ChecksOut, check_mount_changes-ChecksOut}
use dtmd.Mounts.Devices.{IsSorted-devices, check_mount_changes-devices, check_mount_changes-code}
use dtmd.Daemon.Events.{
  DeviceInfo, DeviceAction, unknown, add, online, remove, offline, change, usable, Watched, Round,
  finish_event, finish_mounts, in_turn, add_device, remove_device, change_device, handle_device,
  Monitored, quiet, refused, device, watch_devices, watch_mounts, Polled, watch, enumerate,
  nothing_watched, start,
}
use dtmd.Daemon.Counted.{IsCounted, Keeps, add_media-Keeps, remove_media-IsCounted}
use dtmd.Daemon.Recounted.{change_media-Keeps}

-- A tree between two rounds: siblings are in order, and counters agree with mount points.
abbrev pub IsSound : Media → Type 0
IsSound m = IsSorted m × IsCounted m

-- A round that goes on leaves a tree that is sound.
abbrev GoesOn : Outcome Round → Type 0
GoesOn (ok r) = r.going ≡ true → IsSound r.state.media
GoesOn _ = Unit

-- What an update by a function of daemon/lists.c leaves.
module _ (force : Bool) where
  update-GoesOn :
      (o : Outcome Update)
      → ((u : Update) → o ≡ ok u → IsSorted u.media)
      → Keeps o
      → GoesOn (o >>= λ (u : Update). ok (finish_event force u))
  update-GoesOn (ok u) s k = λ g. (s u refl, k)
  update-GoesOn failed s k = tt
  update-GoesOn undefined s k = tt
  update-GoesOn out_of_fuel s k = tt

add_device-GoesOn :
    (alloc : Allocator) (i : DeviceInfo) (s : Watched)
    → IsSound s.media
    → GoesOn (add_device alloc i s)
unfolding add_device
add_device-GoesOn alloc i s h =
    option_cases GoesOn (usable i) (λ n g. h)
      (λ d e.
        update-GoesOn s.force_mounts_check (add_media alloc d s.media)
          (λ u a. add_media-IsSorted alloc d s.media u a h.0) (add_media-Keeps alloc d s.media h.1))

remove_device-GoesOn : (i : DeviceInfo) (s : Watched) → IsSound s.media → GoesOn (remove_device i s)
unfolding remove_device
remove_device-GoesOn i s h =
    option_cases GoesOn i.path (λ n g. h)
      (λ path e g.
        (remove_media-IsSorted path s.media h.0, remove_media-IsCounted path s.media h.1))

change_device-GoesOn :
    (alloc : Allocator) (i : DeviceInfo) (s : Watched)
    → IsSound s.media
    → GoesOn (change_device alloc i s)
unfolding change_device
change_device-GoesOn alloc i s h =
    option_cases GoesOn (usable i) (λ n g. h)
      (λ d e.
        update-GoesOn true (change_media alloc d s.media)
          (λ u c. change_media-IsSorted alloc d s.media u c h.0)
          (change_media-Keeps alloc d s.media h.1))

handle_device-GoesOn :
    (alloc : Allocator) (action : DeviceAction) (i : DeviceInfo) (s : Watched)
    → IsSound s.media
    → GoesOn (handle_device alloc action i s)
unfolding handle_device
handle_device-GoesOn alloc unknown i s h = λ g. h
handle_device-GoesOn alloc add i s h = add_device-GoesOn alloc i s h
handle_device-GoesOn alloc online i s h = add_device-GoesOn alloc i s h
handle_device-GoesOn alloc remove i s h = remove_device-GoesOn i s h
handle_device-GoesOn alloc offline i s h = remove_device-GoesOn i s h
handle_device-GoesOn alloc change i s h = change_device-GoesOn alloc i s h

watch_devices-GoesOn :
    (alloc : Allocator) (m : Monitored) (s : Watched)
    → IsSound s.media
    → GoesOn (watch_devices alloc m s)
unfolding watch_devices
watch_devices-GoesOn alloc quiet s h = λ g. h
watch_devices-GoesOn alloc (refused rc) s h = λ g. h
watch_devices-GoesOn alloc (device action i) s h = handle_device-GoesOn alloc action i s h

pub watch_devices-IsSound :
    (alloc : Allocator) (m : Monitored) (s : Watched) (t : Round)
    → IsSound s.media
    → watch_devices alloc m s ≡ ok t
    → t.going ≡ true
    → IsSound t.state.media
watch_devices-IsSound alloc m s t h e = subst GoesOn e (watch_devices-GoesOn alloc m s h)

-- A check of the mount table does not leave the defined behaviour of C.
abbrev Safe : Outcome Round → Type 0
Safe (ok r) = r.going ≡ true → IsSound r.state.media
Safe _ = ⊥

Safe-GoesOn : (o : Outcome Round) → Safe o → GoesOn o
Safe-GoesOn (ok r) h = h
Safe-GoesOn failed h = tt
Safe-GoesOn undefined h = tt
Safe-GoesOn out_of_fuel h = tt

finish_mounts-Safe :
    (o : Outcome Checked)
    → ChecksOut o
    → ((c : Checked) → o ≡ ok c → IsSorted c.media)
    → ((c : Checked) → o ≡ ok c → is_fatal_error c.rc ≡ false → c.rc ≡ success)
    → Safe (o >>= λ (c : Checked). ok (finish_mounts c))
finish_mounts-Safe (ok c) h s f = λ g. (s c refl, h (f c refl (not-true (is_fatal_error c.rc) g)))
  where
    not-true : (b : Bool) → not b ≡ true → b ≡ false
    not-true true e = cc
    not-true false e = refl
finish_mounts-Safe failed h s f = h
finish_mounts-Safe undefined h s f = h
finish_mounts-Safe out_of_fuel h s f = h

watch_mounts-Safe :
    (memory : ℕ → EntryMemory) (changed : Bool) (table : Option (List MountEntry)) (s : Watched)
    → IsSound s.media
    → Safe (watch_mounts memory changed table s)
unfolding watch_mounts
watch_mounts-Safe memory changed table s h =
    if_both Safe (changed || s.force_mounts_check)
      (finish_mounts-Safe (check_mount_changes memory table s.media)
        (check_mount_changes-ChecksOut memory table s.media h.1)
        (λ c e.
          let same = check_mount_changes-devices memory table s.media c e in
          subst (λ A. A)
            (sym (IsSorted-devices s.media) ∙ ap IsSorted (sym same) ∙ IsSorted-devices c.media)
            h.0)
        (λ c e. check_mount_changes-code memory table s.media c e))
      (λ g. h)

in_turn-GoesOn :
    (first : Outcome Round) (next : Watched → Outcome Round)
    → GoesOn first
    → ((t : Watched) → IsSound t.media → GoesOn (next t))
    → GoesOn (in_turn first next)
in_turn-GoesOn (ok r) next h k =
    if_cases GoesOn r.going (λ g. noted (next r.state) (k r.state (h g))) (λ g. h)
  where
    noted :
        (o : Outcome Round)
        → GoesOn o
        → GoesOn (o >>= λ (t : Round). ok (record t { notes = r.notes ++ t.notes }))
    noted (ok t) h = h
    noted failed h = tt
    noted undefined h = tt
    noted out_of_fuel h = tt
in_turn-GoesOn failed next h k = tt
in_turn-GoesOn undefined next h k = tt
in_turn-GoesOn out_of_fuel next h k = tt

watch-GoesOn : (p : Polled) (s : Watched) → IsSound s.media → GoesOn (watch p s)
unfolding watch
watch-GoesOn p s h =
    in_turn-GoesOn (watch_devices p.allocator p.monitored s)
      (λ t. watch_mounts p.memory p.mounts_changed p.table t)
      (watch_devices-GoesOn p.allocator p.monitored s h)
      (λ t k.
        Safe-GoesOn (watch_mounts p.memory p.mounts_changed p.table t)
          (watch_mounts-Safe p.memory p.mounts_changed p.table t k))

enumerate-GoesOn :
    (alloc : ℕ → Allocator) (rc : ReturnCode) (n : ℕ) (found : List DeviceInfo) (s : Watched)
    → IsSound s.media
    → GoesOn (enumerate alloc rc n found s)
unfolding enumerate
enumerate-GoesOn alloc rc n [] s h = λ g. h
enumerate-GoesOn alloc rc n (i ∷ found) s h =
    in_turn-GoesOn (add_device (alloc n) i s) (λ t. enumerate alloc rc (suc n) found t)
      (add_device-GoesOn (alloc n) i s h) (λ t k. enumerate-GoesOn alloc rc (suc n) found t k)

start-GoesOn :
    (alloc : ℕ → Allocator) (rc : ReturnCode) (found : List DeviceInfo) (memory : ℕ → EntryMemory)
    (table : Option (List MountEntry))
    → GoesOn (start alloc rc found memory table)
unfolding start
start-GoesOn alloc rc found memory table =
    in_turn-GoesOn (enumerate alloc rc 0 found nothing_watched)
      (λ t. watch_mounts memory true table t)
      (enumerate-GoesOn alloc rc 0 found nothing_watched (tt, tt))
      (λ t k.
        Safe-GoesOn (watch_mounts memory true table t) (watch_mounts-Safe memory true table t k))

-- The states behind the start of the daemon and behind each round of its loop.
pub data Reach : Watched → Type 0 where
  started :
      (alloc : ℕ → Allocator) (rc : ReturnCode) (found : List DeviceInfo) (memory : ℕ → EntryMemory)
      (table : Option (List MountEntry)) (r : Round)
      → start alloc rc found memory table ≡ ok r
      → r.going ≡ true
      → Reach r.state
  watched :
      (p : Polled) (s : Watched) (r : Round)
      → Reach s
      → watch p s ≡ ok r
      → r.going ≡ true
      → Reach r.state

-- In every state that the loop comes to, whatever devices came and went and whatever the mount
-- table was, siblings stand in the order of their paths, and the counter of each device says
-- whether it has a mount point.
pub Reach-IsSound : (s : Watched) → Reach s → IsSound s.media
Reach-IsSound _ (started alloc rc found memory table r e g) =
    subst GoesOn e (start-GoesOn alloc rc found memory table) g
Reach-IsSound _ (watched p s r h e g) = subst GoesOn e (watch-GoesOn p s (Reach-IsSound s h)) g
