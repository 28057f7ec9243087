-- ===== src/Daemon/Events.antt =====
-- What the main loop of daemon/daemon-main.c does to the tree of media, in the Linux build: the
-- devices that are enumerated, the events of devices, and the checks of the mount table.
use dtmd.Common.{
  ℕ, suc, Bool, true, false, not, ◌&&◌, ◌||◌, Option, none, some, List, [], ◌∷◌, ◌++◌,
  if◌then◌else◌, Bytes, Outcome, ok, ◌>>=◌,
}
use dtmd.Misc.Types.{MediaType, MediaSubtype, MediaState, ReturnCode, is_fatal_error}
use dtmd.Media.Tree.{Media, null}
use dtmd.Lists.Device.{Device, Allocator, Notification, Update}
use dtmd.Lists.Update.{add_media, remove_media}
use dtmd.Lists.Change.{change_media}
use dtmd.Mounts.Table.{MountEntry, EntryMemory, Checked, check_mount_changes}

-- `dtmd_info_t`, what a device module tells of a device.
pub record DeviceInfo : Type 0 where
  pub path_parent : Option Bytes
  pub path : Option Bytes
  pub media_type : MediaType
  pub media_subtype : MediaSubtype
  pub sysfs_path : Option Bytes
  pub fstype : Option Bytes
  pub label : Option Bytes
  pub state : MediaState

pub data DeviceAction : Type 0 where
  unknown add online remove offline change : DeviceAction

abbrev is_known_type : MediaType → Bool
is_known_type MediaType.unknown_or_persistent = false
is_known_type _ = true

abbrev is_known_subtype : MediaSubtype → Bool
is_known_subtype MediaSubtype.unknown_or_persistent = false
is_known_subtype _ = true

abbrev both {ℓ} : {A : Type ℓ} → Option Bytes → Option Bytes → (Bytes → Bytes → A) → Option A
both none b f = none
both (some a) none f = none
both (some a) (some b) f = some (f a b)

-- The test in front of `add_media` and `change_media`, and their arguments.
unfoldable pub usable : DeviceInfo → Option Device
usable i =
    if is_known_type i.media_type && is_known_subtype i.media_subtype
    then both i.path i.path_parent (λ path parent. record {
      parent_path = parent;
      path = path;
      sysfs_path = i.sysfs_path;
      media_type = i.media_type;
      subtype = i.media_subtype;
      state = i.state;
      fstype = i.fstype;
      label = i.label;
      mnt_point = none;
      mnt_opts = none;
    })
    else none

-- The media, and `force_mounts_check`.
pub record Watched : Type 0 where
  pub media : Media
  pub force_mounts_check : Bool

-- The loop goes on with a state, or is left for `exit_8`; with what has been announced.
pub record Round : Type 0 where
  pub going : Bool
  pub state : Watched
  pub notes : List Notification

abbrev pub finish_event : Bool → Update → Round
finish_event force u = record {
  going = not (is_fatal_error u.rc);
  state = record { media = u.media; force_mounts_check = force };
  notes = u.notes;
}

abbrev pub ignored : Watched → Outcome Round
ignored s = ok (record { going = true; state = s; notes = [] })

unfoldable pub add_device : Allocator → DeviceInfo → Watched → Outcome Round
add_device alloc i s = elim (usable i) [
  | none ↦ ignored s
  | some d ↦ add_media alloc d s.media >>= λ (u : Update). ok (finish_event s.force_mounts_check u)
]

unfoldable pub remove_device : DeviceInfo → Watched → Outcome Round
remove_device i s = elim i.path [
  | none ↦ ignored s
  | some path ↦ ok (finish_event s.force_mounts_check (remove_media path s.media))
]

unfoldable pub change_device : Allocator → DeviceInfo → Watched → Outcome Round
change_device alloc i s = elim (usable i) [
  | none ↦ ignored s
  | some d ↦ change_media alloc d s.media >>= λ (u : Update). ok (finish_event true u)
]

unfoldable pub handle_device : Allocator → DeviceAction → DeviceInfo → Watched → Outcome Round
handle_device alloc unknown i s = ignored s
handle_device alloc add i s = add_device alloc i s
handle_device alloc online i s = add_device alloc i s
handle_device alloc remove i s = remove_device i s
handle_device alloc offline i s = remove_device i s
handle_device alloc change i s = change_device alloc i s

-- What `poll` has for the monitor of devices: nothing, or an answer of
-- `device_system_monitor_get_device`.
pub data Monitored : Type 0 where
  quiet : Monitored
  refused : ReturnCode → Monitored
  device : DeviceAction → DeviceInfo → Monitored

unfoldable pub watch_devices : Allocator → Monitored → Watched → Outcome Round
watch_devices alloc quiet s = ignored s
watch_devices alloc (refused rc) s =
    ok (record { going = not (is_fatal_error rc); state = s; notes = [] })
watch_devices alloc (device action i) s = handle_device alloc action i s

abbrev pub finish_mounts : Checked → Round
finish_mounts c = record {
  going = not (is_fatal_error c.rc);
  state = record { media = c.media; force_mounts_check = false };
  notes = c.notes;
}

-- `changed` is `POLLERR` on the mount table, which is how Linux tells that it has changed.
unfoldable pub watch_mounts :
    (ℕ → EntryMemory) → Bool → Option (List MountEntry) → Watched → Outcome Round
watch_mounts memory changed table s =
    if changed || s.force_mounts_check
    then (check_mount_changes memory table s.media >>= λ (c : Checked). ok (finish_mounts c))
    else ignored s

-- What a round of the loop meets.
pub record Polled : Type 0 where
  pub allocator : Allocator
  pub monitored : Monitored
  pub memory : ℕ → EntryMemory
  pub mounts_changed : Bool
  pub table : Option (List MountEntry)

abbrev pub in_turn : Outcome Round → (Watched → Outcome Round) → Outcome Round
in_turn first next = first >>= λ (r : Round).
    if r.going
    then (next r.state >>= λ (t : Round). ok (record t { notes = r.notes ++ t.notes }))
    else ok r

-- The devices and then the mount table, in one round.
unfoldable pub watch : Polled → Watched → Outcome Round
watch p s =
    in_turn (watch_devices p.allocator p.monitored s)
      (λ t. watch_mounts p.memory p.mounts_changed p.table t)

-- The loop over the devices that are enumerated; `end` is the answer that ends it.
unfoldable pub enumerate :
    (ℕ → Allocator) → ReturnCode → ℕ → List DeviceInfo → Watched → Outcome Round
enumerate alloc rc n [] s = ok (record { going = not (is_fatal_error rc); state = s; notes = [] })
enumerate alloc rc n (i ∷ devices) s =
    in_turn (add_device (alloc n) i s) (λ t. enumerate alloc rc (suc n) devices t)

abbrev pub nothing_watched : Watched
nothing_watched = record { media = null; force_mounts_check = false }

-- The devices that are there at the start, and where they are mounted.
unfoldable pub start :
    (ℕ → Allocator)
    → ReturnCode
    → List DeviceInfo
    → (ℕ → EntryMemory)
    → Option (List MountEntry)
    → Outcome Round
start alloc rc devices memory table =
    in_turn (enumerate alloc rc 0 devices nothing_watched) (λ t. watch_mounts memory true table t)
