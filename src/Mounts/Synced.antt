-- ===== src/Mounts/Synced.antt =====
-- What the entries of the table do to the node of a path.
use dtmd.Common.{
  ℕ, suc, ◌≡◌, refl, sym, ap, subst, ◌∙◌, true, false, Option, none, some, some_inj, List, [], ◌∷◌,
  inl, inr, Bool-cases, Option-cases, option_cases, if_cases, if◌then◌else◌, Bytes, str_eq,
  str_eq_iff,
}
use dtmd.Media.Tree.{MediaInfo, Media, Found, root_device_path, find_media, at_media}
use dtmd.Mounts.Table.{
  MountEntry, EntryMemory, is_processed, enter, set_node, Reading, read_entry, read_table,
}
use dtmd.Mounts.Nodes.{info_of, info_at, find_media-info_at, info_at-other, info_at-same}
use dtmd.Mounts.Entered.{enter-path, info_at-path, enter-processed}

-- The first entry of the table for a device, and the mount point that it names.
abbrev pub entry_for : Bytes → List MountEntry → Option MountEntry
entry_for path [] = none
entry_for path (ent ∷ table) =
    let rest = entry_for path table in if str_eq path ent.mnt_fsname then some ent else rest

abbrev pub entry_point : MountEntry → Option Bytes
entry_point ent = elim ent.mnt_opts [ none ↦ none | some opts ↦ ent.mnt_dir ]

abbrev pub listed_point : Bytes → List MountEntry → Option Bytes
listed_point path table = elim (entry_for path table) [ none ↦ none | some ent ↦ entry_point ent ]

-- What the check does to the node of a path.
module _ (path : Bytes) where
  -- The node behind an entry: the entry is for another device, or for a node that had one, or it
  -- is entered.
  read_entry-other :
      (memory : EntryMemory) (ent : MountEntry) (root : Media)
      → str_eq path ent.mnt_fsname ≡ false
      → info_at path (read_entry memory ent root).media ≡ info_at path root
  unfolding read_entry
  read_entry-other memory ent root e =
      option_cases (λ (r : Reading). info_at path r.media ≡ info_at path root)
        (find_media ent.mnt_fsname root_device_path root) (λ n. refl)
        (λ f s.
          if_cases (λ (r : Reading). info_at path r.media ≡ info_at path root)
            (is_processed f.info.mount_counter) (λ t. refl)
            (λ t.
              let found =
                sym (find_media-info_at ent.mnt_fsname root_device_path root) ∙ ap info_of s in
              info_at-other ent.mnt_fsname (enter memory ent f.info).info
                (enter-path memory ent f.info ∙ info_at-path ent.mnt_fsname root f.info found) path
                root e))

  Found-info :
      (at : Bytes) (root : Media) (j : MediaInfo)
      → info_at at root ≡ some j
      → (f : Found) × (find_media at root_device_path root ≡ some f) × (f.info ≡ j)
  Found-info at root j e = elim (Option-cases (find_media at root_device_path root)) [
    | inl n ↦ cc (sym (ap info_of n) ∙ find_media-info_at at root_device_path root ∙ e)
    | inr (f, s) ↦
        (f, s, some_inj (sym (ap info_of s) ∙ find_media-info_at at root_device_path root ∙ e))
  ]

  read_entry-had :
      (memory : EntryMemory) (ent : MountEntry) (root : Media) (j : MediaInfo)
      → info_at ent.mnt_fsname root ≡ some j
      → is_processed j.mount_counter ≡ true
      → read_entry memory ent root ≡ record { media = root; notes = []; memory = true }
  unfolding read_entry
  read_entry-had memory ent root j e p =
      let (f, s, q) = Found-info ent.mnt_fsname root j e in
      let p' = ap (λ (x : MediaInfo). is_processed x.mount_counter) q ∙ p in
      rw (s, p', read_entry) refl

  read_entry-enters :
      (memory : EntryMemory) (ent : MountEntry) (root : Media) (j : MediaInfo)
      → info_at ent.mnt_fsname root ≡ some j
      → is_processed j.mount_counter ≡ false
      → read_entry memory ent root ≡ record {
        media = at_media ent.mnt_fsname (set_node (enter memory ent j).info) root;
        notes = (enter memory ent j).notes;
        memory = (enter memory ent j).memory;
      }
  unfolding read_entry
  read_entry-enters memory ent root j e p =
      let (f, s, q) = Found-info ent.mnt_fsname root j e in
      let p' = ap (λ (x : MediaInfo). is_processed x.mount_counter) q ∙ p in
      rw (s, p', read_entry)
        (ap
          (λ (x : MediaInfo). record {
            media = at_media ent.mnt_fsname (set_node (enter memory ent x).info) root;
            notes = (enter memory ent x).notes;
            memory = (enter memory ent x).memory;
          })
          q)

  -- The node behind the table: entered by the first entry for it, if there is one.
  abbrev pub Entries : List MountEntry → MediaInfo → MediaInfo → Type 0
  Entries table j k = elim (entry_for path table) [
    | none ↦ k ≡ j
    | some ent ↦
        (memory : EntryMemory) × ((enter memory ent j).memory ≡ true)
        × (k ≡ (enter memory ent j).info)
  ]

  abbrev pub Becomes : List MountEntry → MediaInfo → Media → Type 0
  Becomes table j root =
      (k : MediaInfo) × (info_at path root ≡ some k)
      × (is_processed j.mount_counter ≡ true → k ≡ j)
      × (is_processed j.mount_counter ≡ false → Entries table j k)

  Entries-here :
      (ent : MountEntry) (table : List MountEntry) (j k : MediaInfo) (memory : EntryMemory)
      → str_eq path ent.mnt_fsname ≡ true
      → (enter memory ent j).memory ≡ true
      → k ≡ (enter memory ent j).info
      → Entries (ent ∷ table) j k
  Entries-here ent table j k memory d m e = rw (d, Entries) (memory, m, e)

  Entries-there :
      (ent : MountEntry) (table : List MountEntry) (j k : MediaInfo)
      → str_eq path ent.mnt_fsname ≡ false
      → Entries table j k
      → Entries (ent ∷ table) j k
  Entries-there ent table j k d h = rw (d, Entries) h

  pub read_table-Becomes :
      (memory : ℕ → EntryMemory) (n : ℕ) (table : List MountEntry) (root : Media) (j : MediaInfo)
      → info_at path root ≡ some j
      → (read_table memory n table root).memory ≡ true
      → Becomes table j (read_table memory n table root).media
  unfolding read_table
  read_table-Becomes memory n [] root j e = λ m. (j, e, λ p. refl, λ p. refl)
  read_table-Becomes memory n (ent ∷ table) root j e =
      let first = read_entry (memory n) ent root in
      if_cases (λ (r : Reading). r.memory ≡ true → Becomes (ent ∷ table) j r.media) first.memory
        (λ t m.
          let later = λ (i : MediaInfo) (q : info_at path first.media ≡ some i).
            read_table-Becomes memory (suc n) table first.media i q m in
          elim (Bool-cases (str_eq path ent.mnt_fsname)) [
            | inr d ↦
                let (k, found, had, new) = later j (read_entry-other (memory n) ent root d ∙ e) in
                (k, found, had, λ p. Entries-there ent table j k d (new p))
            | inl d ↦
                let same = (str_eq_iff path ent.mnt_fsname).0 d in
                let e' = subst (λ a. info_at a root ≡ some j) same e in
                elim (Bool-cases (is_processed j.mount_counter)) [
                  | inl p ↦
                      let (k, found, had, new) = later j (
                        ap (λ (r : Reading). info_at path r.media)
                          (read_entry-had (memory n) ent root j e' p)
                        ∙ e) in
                      (k, found, had, λ q. cc (sym p ∙ q))
                  | inr p ↦
                      let entered = read_entry-enters (memory n) ent root j e' p in
                      let i = (enter (memory n) ent j).info in
                      let path_is =
                        enter-path (memory n) ent j ∙ info_at-path ent.mnt_fsname root j e' in
                      let (k, found, had, new) = later i (
                        ap (λ (r : Reading). info_at path r.media) entered
                        ∙ subst
                            (λ a. info_at a (at_media ent.mnt_fsname (set_node i) root) ≡ some i)
                            (sym same)
                            (info_at-same ent.mnt_fsname i path_is root (λ z. cc (sym e' ∙ z)))) in
                      (
                        k,
                        found,
                        (λ q. cc (sym p ∙ q)),
                        λ q.
                            Entries-here ent table j k (memory n) d
                              (sym (ap (λ (r : Reading). r.memory) entered) ∙ t)
                              (had (enter-processed (memory n) ent j)),
                      )
                ]
          ])
        (λ f m. cc)
