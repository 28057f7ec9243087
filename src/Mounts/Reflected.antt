-- ===== src/Mounts/Reflected.antt =====
-- Behind a check that succeeds, each device is mounted where the table says.
use dtmd.Common.{
  ◌≤◌, ℕ, ◌*◌, ◌≡◌, refl, sym, ap, ◌∙◌, arith, Bool, true, false, not, ◌&&◌, Option, none, some,
  some_inj, List, inl, inr, Bool-cases, Option-cases, if_cases, Bytes, str_eq_iff, ok, >>=-eq-ok,
  ok_inj,
}
use dtmd.Misc.Types.{success}
use dtmd.Media.Tree.{MediaInfo, Media}
use dtmd.Mounts.Table.{
  MountEntry, EntryMemory, is_mounted_now, is_mounted_last, is_processed, set_processed,
  set_mounted_now, clear_mounted_now, marked, mark_each_device, Entered, has_text, enter_point,
  enter_opts, enter, read_table, process_changes, Checked, finish_check, check_mount_changes,
}
use dtmd.Mounts.Nodes.{AllNodes, info_at}
use dtmd.Mounts.Nodes.{AllNodes-info_at}
use dtmd.Mounts.Phases.{mounted, Phase, IsMarked, IsConsistent}
use dtmd.Mounts.Phases.{marked-IsMarked, Phase-clear}
use dtmd.Mounts.Entered.{enter_opts-keeps, counter_set, enter_point-counter}
use dtmd.Mounts.Synced.{entry_for, entry_point, listed_point, Entries, read_table-Becomes}
use dtmd.Mounts.Settled.{
  mapped, info_at-mark_each_device, point_after, Follows, process_changes-Follows,
}

mounted-zero : (o : Option Bytes) → mounted o ≡ 0 → o ≡ none
mounted-zero none e = refl
mounted-zero (some s) e = absurd (omega (arith, e))

-- A node that the table does not have.
point_after-none :
    (i : MediaInfo) → IsMarked i → is_mounted_now i.mount_counter ≡ false → point_after i ≡ none
point_after-none i h n =
    if_cases (λ (o : Option Bytes). o ≡ none)
      (not (is_mounted_now i.mount_counter) && is_mounted_last i.mount_counter) (λ t. refl)
      (λ t. mounted-zero i.mnt_point (gone i.mount_counter (mounted i.mnt_point) h n t))
  where
    gone :
        (c point : ℕ)
        → Phase c point
        → is_mounted_now c ≡ false
        → (not (is_mounted_now c) && is_mounted_last c) ≡ false
        → point ≡ 0
    gone c point h n t = ground arith

-- A node that the table has.
point_after-some :
    (i : MediaInfo) → is_mounted_now i.mount_counter ≡ true → point_after i ≡ i.mnt_point
point_after-some i n = rw (n, point_after) refl

now_clear : (c : ℕ) → is_mounted_now (clear_mounted_now c) ≡ false
unfolding clear_mounted_now
now_clear c = ground arith

enter_point-point :
    (memory : Bool) (dir opts : Bytes) (i : MediaInfo)
    → (enter_point memory dir opts i).memory ≡ true
    → (enter_point memory dir opts i).info.mnt_point ≡ some dir
unfolding enter_point has_text
enter_point-point memory dir opts i =
    if_cases (λ (e : Entered). e.memory ≡ true → e.info.mnt_point ≡ some dir)
      (has_text i.mnt_point dir) (λ t m. has_text-eq i.mnt_point dir t)
      (λ t.
        if_cases (λ (e : Entered). e.memory ≡ true → e.info.mnt_point ≡ some dir) memory
          (λ a m. refl) (λ a m. cc))
  where
    has_text-eq : (o : Option Bytes) (s : Bytes) → has_text o s ≡ true → o ≡ some s
    has_text-eq none s h = cc
    has_text-eq (some t) s h = ap some ((str_eq_iff t s).0 h)

enter-point :
    (memory : EntryMemory) (ent : MountEntry) (i : MediaInfo)
    → IsMarked i
    → is_processed i.mount_counter ≡ false
    → (enter memory ent i).memory ≡ true
    → point_after (enter memory ent i).info ≡ entry_point ent
unfolding enter
enter-point memory ent i h p =
    let c = set_processed i.mount_counter in
    let cleared = record i { mount_counter = clear_mounted_now c } in
    let missing =
      point_after-none cleared (Phase-clear i.mount_counter (mounted i.mnt_point) h p)
        (now_clear c) in
    elim (Option-cases ent.mnt_dir) [
      | inl n ↦ rw (n, enter) (λ m. missing ∙ no_dir ent.mnt_opts)
      | inr (dir, s) ↦ elim (Option-cases ent.mnt_opts) [
        | inl n ↦ rw (s, n, enter) (λ m. missing)
        | inr (opts, t) ↦
            let j = record i { mount_counter = set_mounted_now c } in
            let pointed = enter_point memory.mnt_point dir opts j in
            let keeps = enter_opts-keeps memory.mnt_opts opts pointed in
            rw (s, t, enter)
              (λ m.
                point_after-some (enter_opts memory.mnt_opts opts pointed).info (
                  ap is_mounted_now (keeps.2 ∙ enter_point-counter memory.mnt_point dir opts j)
                  ∙ (counter_set i.mount_counter).1)
                ∙ keeps.1
                ∙ enter_point-point memory.mnt_point dir opts j (keeps.3 m))
      ]
    ]
  where
    no_dir :
        (o : Option Bytes)
        → none ≡ (elim o as (λ x. Option Bytes) [ none ↦ none | some opts ↦ none ])
    no_dir none = refl
    no_dir (some opts) = refl

unprocessed : (i : MediaInfo) → IsConsistent i → is_processed (marked i).mount_counter ≡ false
unprocessed i h = small i.mount_counter (mounted i.mnt_point) h (mounted-bound i.mnt_point)
  where
    mounted-bound : (o : Option Bytes) → mounted o ≤ 1
    mounted-bound none = omega arith
    mounted-bound (some s) = omega arith

    small : (c point : ℕ) → c ≡ point → point ≤ 1 → is_processed (c * 2) ≡ false
    small c point e l = ground arith

Entries-point :
    (path : Bytes) (table : List MountEntry) (i k : MediaInfo)
    → IsMarked i
    → is_processed i.mount_counter ≡ false
    → Entries path table i k
    → point_after k ≡ listed_point path table
Entries-point path table i k h p = elim (Option-cases (entry_for path table)) [
  | inl n ↦ rw (n, Entries, listed_point) (λ e. ap point_after e ∙ point_after-none i h (h.2 p))
  | inr (ent, s) ↦
      rw (s, Entries, listed_point) (λ e. ap point_after e.2 ∙ enter-point e.0 ent i h p e.1)
]

Follows-some :
    (a b : Option MediaInfo) (i : MediaInfo)
    → a ≡ some i
    → Follows a b
    → (k : MediaInfo) × (b ≡ some k) × (k.mnt_point ≡ point_after i)
Follows-some none b i e h = cc
Follows-some (some j) none i e h = absurd h
Follows-some (some j) (some k) i e h = (k, refl, h ∙ ap point_after (some_inj e))

-- On a tree in which the counter of each node says whether it has a mount point: if
-- `check_mount_changes` succeeds, each device that a path leads to has the mount point of the first
-- entry of the table for its path, and none if there is no such entry.
pub check_mount_changes-reflects :
    (memory : ℕ → EntryMemory) (table : List MountEntry) (root : Media) (c : Checked) (path : Bytes)
    (i : MediaInfo)
    → AllNodes IsConsistent root
    → check_mount_changes memory (some table) root ≡ ok c
    → c.rc ≡ success
    → info_at path root ≡ some i
    → (k : MediaInfo) × (info_at path c.media ≡ some k) × (k.mnt_point ≡ listed_point path table)
unfolding check_mount_changes finish_check mapped
check_mount_changes-reflects memory table root c path i h e s f =
    let r = read_table memory 0 table (mark_each_device root) in
    let consistent = AllNodes-info_at IsConsistent path root i h f in
    let isMarked = marked-IsMarked i consistent in
    let start = info_at-mark_each_device path root ∙ ap (mapped marked) f in
    elim (Bool-cases r.memory) [
      | inr m ↦ cc (ap (λ (x : Checked). x.rc) (ok_inj (rw (m, finish_check) at e)) ∙ s)
      | inl m ↦
          let (j, found, had, new) =
            read_table-Becomes path memory 0 table (mark_each_device root) (marked i) start m in
          let entries = new (unprocessed i consistent) in
          let (done, p, q) = >>=-eq-ok (process_changes r.media) _ (rw (m, finish_check) at e) in
          let (k, at_k, point) =
            Follows-some (info_at path r.media) (info_at path done.0) j found
              (process_changes-Follows path r.media done p) in
          (
            k,
            ap (λ (x : Checked). info_at path x.media) (sym (ok_inj q)) ∙ at_k,
            point
                ∙ Entries-point path table (marked i) j isMarked (unprocessed i consistent) entries,
          )
    ]
