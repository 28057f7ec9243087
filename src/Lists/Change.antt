-- ===== src/Lists/Change.antt =====
-- `change_media`.
use dtmd.Common.{
  ℕ, Bool, true, false, not, ◌&&◌, Option, none, some, List, [], ◌∷◌, ◌++◌, ◌==◌, if◌then◌else◌,
  Bytes, str_eq, Outcome, ok, failed, undefined, out_of_fuel, ◌>>=◌,
}
use dtmd.Misc.Types.{MediaType, MediaSubtype, MediaState, success, fail, fatal_error, bug}
use dtmd.Label.Decode.{decode_label}
use dtmd.Label.Compare.{compare_labels}
use dtmd.Media.Tree.{MediaInfo, Media, null, node, Found, root_device_path, find_media, at_media}
use dtmd.Lists.Device.{
  Device, Allocator, Notification, device_changed, device_mounted, device_unmounted, Update,
  fstype_site, label_site, mnt_point_site, mnt_opts_site,
}

-- The values of the enumerators.
unfoldable pub type_value : MediaType → ℕ
type_value MediaType.unknown_or_persistent = 0
type_value MediaType.device_partition = 1
type_value MediaType.stateless_device = 2
type_value MediaType.stateful_device = 3

unfoldable pub subtype_value : MediaSubtype → ℕ
subtype_value MediaSubtype.unknown_or_persistent = 0
subtype_value MediaSubtype.removable_disk = 1
subtype_value MediaSubtype.sd_card = 2
subtype_value MediaSubtype.cdrom = 3

unfoldable pub state_value : MediaState → ℕ
state_value MediaState.unknown = 0
state_value MediaState.empty = 1
state_value MediaState.clear = 2
state_value MediaState.all_right = 3

-- Both NULL, or equal texts.
unfoldable pub same_text : Option Bytes → Option Bytes → Bool
same_text none none = true
same_text (some a) (some b) = str_eq a b
same_text _ _ = false

unfoldable pub is_match : Outcome (Unit {0}) → Outcome Bool
is_match (ok u) = ok true
is_match failed = ok false
is_match undefined = undefined
is_match out_of_fuel = out_of_fuel

unfoldable pub same_label : Option Bytes → Option Bytes → Outcome Bool
same_label none none = ok true
same_label (some decoded) (some encoded) = is_match (compare_labels decoded encoded)
same_label _ _ = ok false

-- The test on all that may have changed.
unfoldable pub is_unchanged : Device → MediaInfo → Outcome Bool
is_unchanged d i =
    if type_value i.media_type == type_value d.media_type
      && subtype_value i.subtype == subtype_value d.subtype
      && state_value i.state == state_value d.state
      && same_text i.fstype d.fstype
    then (do
      same ← same_label i.label d.label
      ok (same && same_text i.mnt_point d.mnt_point && same_text i.mnt_opts d.mnt_opts))
    else ok false

-- Drops a text that differs and copies the new one; the flag is false where memory was short.
unfoldable pub replace_text : Bool → Option Bytes → Option Bytes → Option Bytes × Bool
replace_text memory old none = (none, true)
replace_text memory none (some new) = if memory then (some new, true) else (none, false)
replace_text memory (some old) (some new) =
    if str_eq old new then (some old, true) else if memory then (some new, true) else (none, false)

unfoldable pub decoded_label : Outcome Bytes → Outcome (Option Bytes × Bool)
decoded_label (ok decoded) = ok (some decoded, true)
decoded_label failed = ok (none, false)
decoded_label undefined = undefined
decoded_label out_of_fuel = out_of_fuel

unfoldable pub new_label : Bool → Bytes → Outcome (Option Bytes × Bool)
new_label memory encoded = if memory then decoded_label (decode_label encoded) else ok (none, false)

unfoldable pub replace_label : Bool → Option Bytes → Option Bytes → Outcome (Option Bytes × Bool)
replace_label memory old none = ok (none, true)
replace_label memory none (some encoded) = new_label memory encoded
replace_label memory (some decoded) (some encoded) = do
  same ← is_match (compare_labels decoded encoded)
  if same then ok (some decoded, true) else new_label memory encoded

-- A node as it is left, what was announced on the way, and whether memory sufficed.
pub record Edit : Type 0 where
  pub info : MediaInfo
  pub notes : List Notification
  pub memory : Bool

unfoldable pub announce_mount : Bytes → Bytes → Option Bytes → List Notification
announce_mount path point none = []
announce_mount path point (some opts) = device_mounted path point (some opts) ∷ []

-- The part on a mount point that is not NULL where the node has none.
unfoldable pub set_mount : Bool → Device → MediaInfo → Bytes → List Notification → Edit
set_mount memory d i point notes =
    if memory
    then record {
      info = record i { mnt_point = some point; mount_counter = 1 };
      notes = notes ++ announce_mount i.path point d.mnt_opts;
      memory = true;
    }
    else record { info = i; notes = notes; memory = false }

abbrev pub dropped_mount : MediaInfo → MediaInfo
dropped_mount i = record i { mnt_point = none; mount_counter = 0 }

unfoldable pub replace_mount : Bool → Device → MediaInfo → Option Bytes → Option Bytes → Edit
replace_mount memory d i none none = record { info = i; notes = []; memory = true }
replace_mount memory d i none (some new) = set_mount memory d i new []
replace_mount memory d i (some old) none = record {
  info = dropped_mount i;
  notes = device_unmounted i.path old ∷ [];
  memory = true;
}
replace_mount memory d i (some old) (some new) =
    if str_eq old new
    then record { info = i; notes = []; memory = true }
    else set_mount memory d (dropped_mount i) new (device_unmounted i.path old ∷ [])

unfoldable pub replace_opts : Allocator → Device → Edit → Edit
replace_opts alloc d e =
    if not e.memory
    then e
    else let (opts, memory) = replace_text (alloc mnt_opts_site) e.info.mnt_opts d.mnt_opts in
      record e { info = record e.info { mnt_opts = opts }; memory = memory }

-- Behind the label: the mount point and the options.
unfoldable pub change_mount : Allocator → Device → MediaInfo → Option Bytes × Bool → Edit
change_mount alloc d i (label, enough) =
    let labelled = record i { label = label } in
    if not enough
    then record { info = labelled; notes = []; memory = false }
    else replace_opts alloc d
        (replace_mount (alloc mnt_point_site) d labelled labelled.mnt_point d.mnt_point)

-- Behind the file system's type: the label, and what comes behind it.
unfoldable pub change_label : Allocator → Device → MediaInfo → Bool → Outcome Edit
change_label alloc d i memory =
    if not memory
    then ok (record { info = i; notes = []; memory = false })
    else do r ← replace_label (alloc label_site) i.label d.label; ok (change_mount alloc d i r)

unfoldable pub change_info : Allocator → Device → MediaInfo → Outcome Edit
change_info alloc d i =
    let (fstype, memory) = replace_text (alloc fstype_site) i.fstype d.fstype in
    change_label alloc d (record i { state = d.state; fstype = fstype }) memory

unfoldable pub set_info : MediaInfo → Media → Media
set_info new null = null
set_info new (node i children next) = node new children next

unfoldable pub finish_change : Device → Media → Edit → Update
finish_change d root e = record {
  rc = if e.memory then success else fatal_error;
  media = at_media d.path (set_info e.info) root;
  notes =
      if e.memory
      then e.notes ++ device_changed (record d { label = e.info.label }) ∷ []
      else e.notes;
}

-- A node that was found.
unfoldable pub change_found : Allocator → Device → Media → Found → Outcome Update
change_found alloc d root f =
    if not (str_eq d.parent_path f.parent_path)
    then ok (record { rc = bug; media = root; notes = [] })
    else if not (same_text d.sysfs_path f.info.sysfs_path)
    then ok (record { rc = bug; media = root; notes = [] })
    else do
      same ← is_unchanged d f.info
      if same
          then ok (record { rc = fail; media = root; notes = [] })
          else do e ← change_info alloc d f.info; ok (finish_change d root e)

unfoldable pub change_media : Allocator → Device → Media → Outcome Update
change_media alloc d root = elim (find_media d.path root_device_path root) [
  | none ↦ ok (record { rc = fail; media = root; notes = [] })
  | some f ↦ change_found alloc d root f
]
