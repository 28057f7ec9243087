-- ===== src/Mounts/Table.antt =====
-- `check_mount_changes` and `point_mount_count` of daemon/mnt_funcs.c in the Linux build.
use dtmd.Common.{
  ℕ, suc, ◌+◌, ◌*◌, ◌/◌, ◌%◌, Bool, true, false, not, ◌&&◌, Option, none, some, List, [], ◌∷◌, ◌++◌,
  ltb, ◌==◌, if◌then◌else◌, Bytes, str_eq, Outcome, ok, undefined, ◌>>=◌,
}
use dtmd.Misc.Types.{ReturnCode, success, fatal_error}
use dtmd.Media.Tree.{MediaInfo, Media, null, node, root_device_path, find_media, at_media}
use dtmd.Lists.Device.{Notification, device_mounted, device_unmounted}

-- What `getmntent` gives for a line of the table.
pub record MountEntry : Type 0 where
  pub mnt_fsname : Bytes
  pub mnt_dir : Option Bytes
  pub mnt_opts : Option Bytes

-- The flags of a counter, which are its three lowest bits.
abbrev pub is_mounted_now : ℕ → Bool
is_mounted_now c = c % 2 == 1

abbrev pub is_mounted_last : ℕ → Bool
is_mounted_last c = c / 2 % 2 == 1

abbrev pub is_processed : ℕ → Bool
is_processed c = c / 4 % 2 == 1

unfoldable pub set_processed : ℕ → ℕ
set_processed c = if is_processed c then c else c + 4

unfoldable pub set_mounted_now : ℕ → ℕ
set_mounted_now c = if is_mounted_now c then c else c + 1

unfoldable pub clear_mounted_now : ℕ → ℕ
clear_mounted_now c = c / 2 * 2

abbrev pub marked : MediaInfo → MediaInfo
marked i = record i { mount_counter = i.mount_counter * 2 }

-- `mark_each_device_recursive` on each node of a list.
unfoldable pub mark_each_device : Media → Media
mark_each_device null = null
mark_each_device (node i children next) =
    node (marked i) (mark_each_device children) (mark_each_device next)

-- A node as it is left, what was announced, and whether memory sufficed.
pub record Entered : Type 0 where
  pub info : MediaInfo
  pub notes : List Notification
  pub memory : Bool

-- What the allocator answers to the two copies for an entry of the table.
pub record EntryMemory : Type 0 where
  pub mnt_point : Bool
  pub mnt_opts : Bool

unfoldable pub unmounted_notes : MediaInfo → List Notification
unmounted_notes i = elim i.mnt_point [ none ↦ [] | some point ↦ device_unmounted i.path point ∷ [] ]

unfoldable pub has_text : Option Bytes → Bytes → Bool
has_text none text = false
has_text (some old) text = str_eq old text

unfoldable pub enter_point : Bool → Bytes → Bytes → MediaInfo → Entered
enter_point memory dir opts i =
    if has_text i.mnt_point dir
    then record { info = i; notes = []; memory = true }
    else if memory
    then record {
      info = record i { mnt_point = some dir };
      notes = unmounted_notes i ++ device_mounted i.path dir (some opts) ∷ [];
      memory = true;
    }
    else record { info = record i { mnt_point = none }; notes = unmounted_notes i; memory = false }

unfoldable pub enter_opts : Bool → Bytes → Entered → Entered
enter_opts memory opts e =
    if not e.memory
    then e
    else if has_text e.info.mnt_opts opts
    then e
    else if memory
    then record e { info = record e.info { mnt_opts = some opts } }
    else record e { info = record e.info { mnt_opts = none }; memory = false }

-- An entry of the table for a node that no entry was for before.
unfoldable pub enter : EntryMemory → MountEntry → MediaInfo → Entered
enter memory ent i =
    let processed = set_processed i.mount_counter in
    elim ent.mnt_dir [
      | none ↦ record {
        info = record i { mount_counter = clear_mounted_now processed };
        notes = [];
        memory = true;
      }
      | some dir ↦ elim ent.mnt_opts [
        | none ↦ record {
          info = record i { mount_counter = clear_mounted_now processed };
          notes = [];
          memory = true;
        }
        | some opts ↦ enter_opts memory.mnt_opts opts (
            enter_point memory.mnt_point dir opts
              (record i { mount_counter = set_mounted_now processed }))
      ]
    ]

unfoldable pub set_node : MediaInfo → Media → Media
set_node new null = null
set_node new (node i children next) = node new children next

-- The tree behind some entries, what was announced, and whether memory sufficed.
pub record Reading : Type 0 where
  pub media : Media
  pub notes : List Notification
  pub memory : Bool

unfoldable pub read_entry : EntryMemory → MountEntry → Media → Reading
read_entry memory ent root = elim (find_media ent.mnt_fsname root_device_path root) [
  | none ↦ record { media = root; notes = []; memory = true }
  | some f ↦
      if is_processed f.info.mount_counter
      then record { media = root; notes = []; memory = true }
      else let e = enter memory ent f.info in
        record {
          media = at_media ent.mnt_fsname (set_node e.info) root;
          notes = e.notes;
          memory = e.memory;
        }
]

-- The loop over the table, up to the entry for which memory is short.
unfoldable pub read_table : (ℕ → EntryMemory) → ℕ → List MountEntry → Media → Reading
read_table memory n [] root = record { media = root; notes = []; memory = true }
read_table memory n (ent ∷ table) root =
    let first = read_entry (memory n) ent root in
    let rest = read_table memory (suc n) table first.media in
    if first.memory then record rest { notes = first.notes ++ rest.notes } else first

abbrev pub settled : MediaInfo → MediaInfo
settled i = record i { mount_counter = i.mount_counter % 2 }

-- `process_changes_recursive` on a node, without its children. Where the node has no mount point to
-- announce, the code passes NULL to `strlen`.
unfoldable pub process_node : MediaInfo → Outcome (MediaInfo × List Notification)
process_node i =
    if not (is_mounted_now i.mount_counter) && is_mounted_last i.mount_counter
    then elim i.mnt_point [
      | none ↦ undefined
      | some point ↦ ok (
        settled (record i { mnt_point = none; mnt_opts = none }),
        device_unmounted i.path point ∷ [],
      )
    ]
    else ok (settled i, [])

-- `process_changes_recursive` on each node of a list.
unfoldable pub process_changes : Media → Outcome (Media × List Notification)
process_changes null = ok (null, [])
process_changes (node i children next) =
    process_node i >>= λ (done : MediaInfo × List Notification).
    process_changes children >>= λ (below : Media × List Notification).
    process_changes next >>= λ (behind : Media × List Notification).
    ok (node done.0 below.0 behind.0, done.1 ++ (below.1 ++ behind.1))

pub record Checked : Type 0 where
  pub rc : ReturnCode
  pub media : Media
  pub notes : List Notification

unfoldable pub finish_check : Reading → Outcome Checked
finish_check r =
    if r.memory
    then (process_changes r.media >>= λ (done : Media × List Notification).
        ok (record { rc = success; media = done.0; notes = r.notes ++ done.1 }))
    else ok (record { rc = fatal_error; media = r.media; notes = r.notes })

-- `none` is a table that cannot be opened.
unfoldable pub check_mount_changes :
    (ℕ → EntryMemory) → Option (List MountEntry) → Media → Outcome Checked
check_mount_changes memory none root = ok (record { rc = fatal_error; media = root; notes = [] })
check_mount_changes memory (some table) root =
    finish_check (read_table memory 0 table (mark_each_device root))

-- The number of entries mounted at a path; a `max` that is not 0 bounds it.
unfoldable pub count_points : Bytes → ℕ → ℕ → List MountEntry → ℕ
count_points path max result [] = result
count_points path max result (ent ∷ table) =
    let same = count_points path max (suc result) table in
    let other = count_points path max result table in
    if has_text ent.mnt_dir path
    then (if ltb 0 max && suc result == max then suc result else same)
    else other

-- `none` is -1.
unfoldable pub point_mount_count : Option (List MountEntry) → Bytes → ℕ → Option ℕ
point_mount_count none path max = none
point_mount_count (some table) path max = some (count_points path max 0 table)
