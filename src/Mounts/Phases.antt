-- ===== src/Mounts/Phases.antt =====
-- The counter of each node while the table is read.
use dtmd.Common.{
  ℕ, suc, ◌/◌, ◌%◌, ◌≡◌, refl, sym, ap, subst, ◌∙◌, arith, Bool, true, false, not, Option, none,
  some, List, [], ◌∷◌, inl, inr, Option-cases, option_cases, if_cases, Bytes,
}
use dtmd.Media.Tree.{MediaInfo, Media, null, node, root_device_path, find_media}
use dtmd.Mounts.Table.{
  MountEntry, EntryMemory, is_mounted_now, is_processed, set_processed, set_mounted_now,
  clear_mounted_now, marked, mark_each_device, Entered, has_text, enter_point, enter_opts, enter,
  Reading, read_entry, read_table,
}
use dtmd.Mounts.Nodes.{AllNodes, info_of, find_media-info_at, AllNodes-info_at, at_media-AllNodes}

abbrev pub mounted : Option Bytes → ℕ
mounted none = 0
mounted (some point) = 1

-- Between two checks.
abbrev pub IsConsistent : MediaInfo → Type 0
IsConsistent i = i.mount_counter ≡ mounted i.mnt_point

-- While the table is read: a mount point is there if the table has it, and as long as the table
-- does not have it, it is the last one.
abbrev pub Phase : ℕ → ℕ → Type 0
Phase c point =
    (is_mounted_now c ≡ true → point ≡ 1)
    × (is_mounted_now c ≡ false → point ≡ c / 2 % 2)
    × (is_processed c ≡ false → is_mounted_now c ≡ false)

abbrev pub IsMarked : MediaInfo → Type 0
IsMarked i = Phase i.mount_counter (mounted i.mnt_point)

pub Phase-clear :
    (c point : ℕ)
    → Phase c point
    → is_processed c ≡ false
    → Phase (clear_mounted_now (set_processed c)) point
unfolding set_processed clear_mounted_now
Phase-clear c point h p = ground (arith, h.2 p)

Phase-set :
    (c : ℕ)
    → is_processed c ≡ false
    → is_mounted_now c ≡ false
    → Phase (set_mounted_now (set_processed c)) 1
unfolding set_processed set_mounted_now
Phase-set c p n = ground arith

pub marked-IsMarked : (i : MediaInfo) → IsConsistent i → IsMarked (marked i)
marked-IsMarked i h = elim (Option-cases i.mnt_point) [
  | inl n ↦ ground arith
  | inr s ↦ ground arith
]

pub mark_each_device-IsMarked :
    (m : Media) → AllNodes IsConsistent m → AllNodes IsMarked (mark_each_device m)
unfolding mark_each_device
mark_each_device-IsMarked null h = tt
mark_each_device-IsMarked (node i children next) h = (
  marked-IsMarked i h.0,
  mark_each_device-IsMarked children h.1,
  mark_each_device-IsMarked next h.2,
)

-- An entry for a node leaves it marked, if memory suffices.
abbrev Leaves : Entered → Type 0
Leaves e = e.memory ≡ true → IsMarked e.info

has_text-mounted : (o : Option Bytes) (text : Bytes) → has_text o text ≡ true → mounted o ≡ 1
unfolding has_text
has_text-mounted none text h = cc
has_text-mounted (some s) text h = refl

enter_point-Leaves :
    (memory : Bool) (dir opts : Bytes) (i : MediaInfo)
    → Phase i.mount_counter 1
    → Leaves (enter_point memory dir opts i)
unfolding enter_point
enter_point-Leaves memory dir opts i h =
    if_cases Leaves (has_text i.mnt_point dir)
      (λ t m. subst (Phase i.mount_counter) (sym (has_text-mounted i.mnt_point dir t)) h)
      (λ t. if_cases Leaves memory (λ a m. h) (λ a m. cc))

enter_opts-Leaves :
    (memory : Bool) (opts : Bytes) (e : Entered) → Leaves e → Leaves (enter_opts memory opts e)
unfolding enter_opts
enter_opts-Leaves memory opts e h =
    if_cases Leaves (not e.memory) (λ t. h)
      (λ t.
        if_cases Leaves (has_text e.info.mnt_opts opts) (λ a. h)
          (λ a. if_cases Leaves memory (λ b m. h m) (λ b m. cc)))

enter-Leaves :
    (memory : EntryMemory) (ent : MountEntry) (i : MediaInfo)
    → IsMarked i
    → is_processed i.mount_counter ≡ false
    → Leaves (enter memory ent i)
unfolding enter
enter-Leaves memory ent i h p =
    option_cases Leaves ent.mnt_dir (λ n m. Phase-clear i.mount_counter (mounted i.mnt_point) h p)
      (λ dir s.
        option_cases Leaves ent.mnt_opts
          (λ n m. Phase-clear i.mount_counter (mounted i.mnt_point) h p)
          (λ opts t.
            enter_opts-Leaves memory.mnt_opts opts
              (enter_point memory.mnt_point dir opts
                (record i { mount_counter = set_mounted_now (set_processed i.mount_counter) }))
              (enter_point-Leaves memory.mnt_point dir opts
                (record i { mount_counter = set_mounted_now (set_processed i.mount_counter) })
                (Phase-set i.mount_counter p (h.2 p)))))

abbrev pub Reads : Reading → Type 0
Reads r = r.memory ≡ true → AllNodes IsMarked r.media

read_entry-Reads :
    (memory : EntryMemory) (ent : MountEntry) (root : Media)
    → AllNodes IsMarked root
    → Reads (read_entry memory ent root)
unfolding read_entry
read_entry-Reads memory ent root h =
    option_cases Reads (find_media ent.mnt_fsname root_device_path root) (λ n m. h)
      (λ f s.
        if_cases Reads (is_processed f.info.mount_counter) (λ t m. h)
          (λ t m. at_media-AllNodes IsMarked ent.mnt_fsname (enter memory ent f.info).info root h (
            enter-Leaves memory ent f.info
              (AllNodes-info_at IsMarked ent.mnt_fsname root f.info h
                (sym (find_media-info_at ent.mnt_fsname root_device_path root) ∙ ap info_of s))
              t m)))

pub read_table-Reads :
    (memory : ℕ → EntryMemory) (n : ℕ) (table : List MountEntry) (root : Media)
    → AllNodes IsMarked root
    → Reads (read_table memory n table root)
unfolding read_table
read_table-Reads memory n [] root h = λ m. h
read_table-Reads memory n (ent ∷ table) root h =
    let first = read_entry (memory n) ent root in
    let kept = read_entry-Reads (memory n) ent root h in
    if_cases Reads first.memory (λ t. read_table-Reads memory (suc n) table first.media (kept t))
      (λ f. kept)
