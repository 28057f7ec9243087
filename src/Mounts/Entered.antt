-- ===== src/Mounts/Entered.antt =====
-- What an entry of the table does to a node.
use dtmd.Common.{
  ℕ, ◌≡◌, refl, sym, ap, ◌∙◌, arith, Bool, true, Option, some, some_inj, inl, inr, Option-cases,
  option_cases, if_cases, if_both, Bytes, str_eq, str_eq_iff,
}
use dtmd.Media.Tree.{MediaInfo, Media, null, node}
use dtmd.Mounts.Table.{
  MountEntry, EntryMemory, is_mounted_now, is_processed, set_processed, set_mounted_now,
  clear_mounted_now, Entered, has_text, enter_point, enter_opts, enter,
}
use dtmd.Mounts.Nodes.{info_at}

-- A change keeps the path.
enter_point-path :
    (memory : Bool) (dir opts : Bytes) (i : MediaInfo)
    → (enter_point memory dir opts i).info.path ≡ i.path
unfolding enter_point
enter_point-path memory dir opts i =
    if_both (λ (e : Entered). e.info.path ≡ i.path) (has_text i.mnt_point dir) refl
      (if_both (λ (e : Entered). e.info.path ≡ i.path) memory refl refl)

pub enter_opts-keeps :
    (memory : Bool) (opts : Bytes) (e : Entered)
    → ((enter_opts memory opts e).info.path ≡ e.info.path)
      × ((enter_opts memory opts e).info.mnt_point ≡ e.info.mnt_point)
      × ((enter_opts memory opts e).info.mount_counter ≡ e.info.mount_counter)
      × ((enter_opts memory opts e).memory ≡ true → e.memory ≡ true)
unfolding enter_opts
enter_opts-keeps memory opts e = ground arith

pub enter-path :
    (memory : EntryMemory) (ent : MountEntry) (i : MediaInfo)
    → (enter memory ent i).info.path ≡ i.path
unfolding enter
enter-path memory ent i =
    option_cases (λ (e : Entered). e.info.path ≡ i.path) ent.mnt_dir (λ n. refl)
      (λ dir s.
        option_cases (λ (e : Entered). e.info.path ≡ i.path) ent.mnt_opts (λ n. refl)
          (λ opts t.
            let j = record i { mount_counter = set_mounted_now (set_processed i.mount_counter) } in
            (enter_opts-keeps memory.mnt_opts opts (enter_point memory.mnt_point dir opts j)).0
            ∙ enter_point-path memory.mnt_point dir opts j))

pub info_at-path :
    (path : Bytes) (m : Media) (i : MediaInfo) → info_at path m ≡ some i → i.path ≡ path
unfolding info_at
info_at-path path null i = λ e. cc
info_at-path path (node j children next) i =
    if_cases (λ (o : Option MediaInfo). o ≡ some i → i.path ≡ path) (str_eq path j.path)
      (λ t e.
        ap (λ (x : MediaInfo). x.path) (sym (some_inj e)) ∙ sym ((str_eq_iff path j.path).0 t))
      (λ t. elim (Option-cases (info_at path children)) [
        | inl n ↦ rw n (λ e. info_at-path path next i e)
        | inr s ↦ rw s.1 (λ e. info_at-path path children i (s.1 ∙ e))
      ])

pub counter_clear : (c : ℕ) → is_processed (clear_mounted_now (set_processed c)) ≡ true
unfolding clear_mounted_now set_processed
counter_clear c = ground arith

pub counter_set :
    (c : ℕ)
    → (is_processed (set_mounted_now (set_processed c)) ≡ true)
      × (is_mounted_now (set_mounted_now (set_processed c)) ≡ true)
unfolding set_mounted_now set_processed
counter_set c = ground arith

pub enter_point-counter :
    (memory : Bool) (dir opts : Bytes) (i : MediaInfo)
    → (enter_point memory dir opts i).info.mount_counter ≡ i.mount_counter
unfolding enter_point
enter_point-counter memory dir opts i =
    if_both (λ (e : Entered). e.info.mount_counter ≡ i.mount_counter) (has_text i.mnt_point dir)
      refl (if_both (λ (e : Entered). e.info.mount_counter ≡ i.mount_counter) memory refl refl)

pub enter-processed :
    (memory : EntryMemory) (ent : MountEntry) (i : MediaInfo)
    → is_processed (enter memory ent i).info.mount_counter ≡ true
unfolding enter
enter-processed memory ent i =
    option_cases (λ (e : Entered). is_processed e.info.mount_counter ≡ true) ent.mnt_dir
      (λ n. counter_clear i.mount_counter)
      (λ dir s.
        option_cases (λ (e : Entered). is_processed e.info.mount_counter ≡ true) ent.mnt_opts
          (λ n. counter_clear i.mount_counter)
          (λ opts t.
            let c = set_mounted_now (set_processed i.mount_counter) in
            let j = record i { mount_counter = c } in
            ap is_processed (
              (enter_opts-keeps memory.mnt_opts opts (enter_point memory.mnt_point dir opts j)).2
              ∙ enter_point-counter memory.mnt_point dir opts j)
            ∙ (counter_set i.mount_counter).0))
