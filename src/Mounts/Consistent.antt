-- ===== src/Mounts/Consistent.antt =====
-- The counter of each node says whether it has a mount point, and `check_mount_changes` keeps this.
use dtmd.Common.{
  ℕ, ◌%◌, ◌≡◌, arith, true, false, not, ◌&&◌, Option, none, some, List, ◌++◌, option_cases,
  if_cases, Bytes, Outcome, ok, failed, undefined, out_of_fuel, ◌>>=◌,
}
use dtmd.Misc.Types.{success}
use dtmd.Media.Tree.{MediaInfo, Media, null, node}
use dtmd.Lists.Device.{Notification}
use dtmd.Mounts.Table.{
  MountEntry, EntryMemory, is_mounted_now, is_mounted_last, mark_each_device, Reading, read_table,
  process_node, process_changes, Checked, finish_check, check_mount_changes,
}
use dtmd.Mounts.Nodes.{AllNodes}
use dtmd.Mounts.Phases.{
  mounted, IsConsistent, Phase, IsMarked, mark_each_device-IsMarked, Reads, read_table-Reads,
}

-- The end of the check: nothing is announced without a mount point.
abbrev Settles : Outcome (MediaInfo × List Notification) → Type 0
Settles (ok done) = IsConsistent done.0
Settles _ = ⊥

Phase-last :
    (c point : ℕ)
    → Phase c point
    → (not (is_mounted_now c) && is_mounted_last c) ≡ true
    → (point ≡ 1) × (c % 2 ≡ 0)
Phase-last c point h t = ground arith

Phase-settled :
    (c point : ℕ)
    → Phase c point
    → (not (is_mounted_now c) && is_mounted_last c) ≡ false
    → c % 2 ≡ point
Phase-settled c point h t = ground arith

process_node-Settles : (i : MediaInfo) → IsMarked i → Settles (process_node i)
unfolding process_node
process_node-Settles i h =
    if_cases Settles (not (is_mounted_now i.mount_counter) && is_mounted_last i.mount_counter)
      (λ t.
        let last = Phase-last i.mount_counter (mounted i.mnt_point) h t in
        option_cases Settles i.mnt_point (λ n. absurd (no_point i.mnt_point n last.0))
          (λ point s. last.1))
      (λ t. Phase-settled i.mount_counter (mounted i.mnt_point) h t)
  where
    cc_none : {s : Bytes} → some s ≡ none → ⊥
    cc_none e = cc

    no_point : (o : Option Bytes) → o ≡ none → mounted o ≡ 1 → ⊥
    no_point none n e = omega (arith, e)
    no_point (some s) n e = absurd (cc_none n)

-- The tree behind the check is consistent again.
abbrev SettlesAll : Outcome (Media × List Notification) → Type 0
SettlesAll (ok done) = AllNodes IsConsistent done.0
SettlesAll _ = ⊥

settle_nodes :
    (a : Outcome (MediaInfo × List Notification)) (b c : Outcome (Media × List Notification))
    → Settles a
    → SettlesAll b
    → SettlesAll c
    → SettlesAll (
        a >>= λ (done : MediaInfo × List Notification). b >>= λ (below : Media × List Notification).
        c >>= λ (behind : Media × List Notification).
        ok (node done.0 below.0 behind.0, done.1 ++ (below.1 ++ behind.1)))
settle_nodes (ok a) (ok b) (ok c) h k l = (h, k, l)
settle_nodes (ok a) (ok b) failed h k l = l
settle_nodes (ok a) (ok b) undefined h k l = l
settle_nodes (ok a) (ok b) out_of_fuel h k l = l
settle_nodes (ok a) failed c h k l = k
settle_nodes (ok a) undefined c h k l = k
settle_nodes (ok a) out_of_fuel c h k l = k
settle_nodes failed b c h k l = h
settle_nodes undefined b c h k l = h
settle_nodes out_of_fuel b c h k l = h

process_changes-SettlesAll : (m : Media) → AllNodes IsMarked m → SettlesAll (process_changes m)
unfolding process_changes
process_changes-SettlesAll null h = tt
process_changes-SettlesAll (node i children next) h =
    settle_nodes (process_node i) (process_changes children) (process_changes next)
      (process_node-Settles i h.0) (process_changes-SettlesAll children h.1)
      (process_changes-SettlesAll next h.2)

-- A check that comes to its end leaves a consistent tree, if it succeeds.
abbrev pub ChecksOut : Outcome Checked → Type 0
ChecksOut (ok c) = c.rc ≡ success → AllNodes IsConsistent c.media
ChecksOut _ = ⊥

finish_check-ChecksOut : (r : Reading) → Reads r → ChecksOut (finish_check r)
unfolding finish_check
finish_check-ChecksOut r h =
    if_cases ChecksOut r.memory
      (λ m. finished (process_changes r.media) r.notes (process_changes-SettlesAll r.media (h m)))
      (λ m. λ e. cc)
  where
    finished :
        (o : Outcome (Media × List Notification)) (notes : List Notification)
        → SettlesAll o
        → ChecksOut (
            o >>= λ (done : Media × List Notification).
            ok (record { rc = success; media = done.0; notes = notes ++ done.1 }))
    finished (ok done) notes h = λ e. h
    finished failed notes h = h
    finished undefined notes h = h
    finished out_of_fuel notes h = h

-- On a tree in which the counter of each node says whether it has a mount point,
-- `check_mount_changes` never announces a mount point that is NULL, whatever the table is, and if it
-- succeeds, the tree is so again.
pub check_mount_changes-ChecksOut :
    (memory : ℕ → EntryMemory) (table : Option (List MountEntry)) (root : Media)
    → AllNodes IsConsistent root
    → ChecksOut (check_mount_changes memory table root)
unfolding check_mount_changes
check_mount_changes-ChecksOut memory none root h = λ e. cc
check_mount_changes-ChecksOut memory (some table) root h =
    finish_check-ChecksOut (read_table memory 0 table (mark_each_device root))
      (read_table-Reads memory 0 table (mark_each_device root) (mark_each_device-IsMarked root h))
