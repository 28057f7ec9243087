-- ===== src/Mounts/Restored.antt =====
-- What `remove_from_mtab` leaves of the mtab file.
use dtmd.Common.{
  ℕ, suc, ◌≡◌, ◌≢◌, ◌⊎◌, inl, inr, refl, sym, ap, ◌∙◌, Bool, true, false, not, ◌&&◌, Option, none,
  some, some_inj, List, [], ◌∷◌, ◌++◌, All, Bool-cases, Option-cases, if_cases, if◌then◌else◌,
  Bytes, str_eq_refl,
}
use dtmd.Misc.Types.{ReturnCode, success, fatal_error}
use dtmd.Mounts.Mtab.{
  MtabEntry, MtabAnswers, new_entry, add_to_mtab, is_entry, copy_entries, replace_mtab,
  remove_from_mtab,
}

module _ (path mount_point type : Bytes) where
  -- The other entries.
  abbrev pub others : List MtabEntry → List MtabEntry
  others [] = []
  others (ent ∷ mtab) =
      let rest = others mtab in if is_entry path mount_point type ent then rest else ent ∷ rest

  copy_entries-others :
      (copied : ℕ → Bool) (n : ℕ) (mtab entries : List MtabEntry)
      → copy_entries copied path mount_point type n mtab ≡ some entries
      → entries ≡ others mtab
  unfolding copy_entries
  copy_entries-others copied n [] entries e = sym (some_inj e)
  copy_entries-others copied n (ent ∷ mtab) entries e =
      elim (Bool-cases (is_entry path mount_point type ent)) [
        | inl y ↦ rw y (copy_entries-others copied n mtab entries (rw (y, copy_entries) at e))
        | inr y ↦ elim (Bool-cases (copied n)) [
          | inr c ↦ let no = rw (y, c, copy_entries) at e in cc
          | inl c ↦ elim (Option-cases (copy_entries copied path mount_point type (suc n) mtab)) [
            | inl f ↦ let no = rw (y, c, f, copy_entries) at e in cc
            | inr (rest, f) ↦
                let same = some_inj (rw (y, c, f, copy_entries) at e) in
                rw y (sym same ∙ ap (λ r. ent ∷ r) (copy_entries-others copied (suc n) mtab rest f))
          ]
        ]
      ]

  abbrev Leaves : List MtabEntry → ReturnCode × List MtabEntry → Type 0
  Leaves mtab r = ((r.0 ≡ success) × (r.1 ≡ others mtab)) ⊎ ((r.0 ≢ success) × (r.1 ≡ mtab))

  fatal : (mtab : List MtabEntry) → Leaves mtab (fatal_error, mtab)
  fatal mtab = inr (fatal_error≢success, refl)
    where
      fatal_error≢success : fatal_error ≢ success
      fatal_error≢success e = cc

  replace_mtab-Leaves :
      (answers : MtabAnswers) (mtab : List MtabEntry) (o : Option (List MtabEntry))
      → ((entries : List MtabEntry) → o ≡ some entries → entries ≡ others mtab)
      → Leaves mtab (replace_mtab answers mtab o)
  unfolding replace_mtab
  replace_mtab-Leaves answers mtab none h = fatal mtab
  replace_mtab-Leaves answers mtab (some entries) h =
      if_cases (Leaves mtab) (answers.stat && answers.chmod && answers.chown && answers.renamed)
        (λ t. inl (refl, h entries refl)) (λ t. fatal mtab)

  remove_from_mtab-Leaves :
      (answers : MtabAnswers) (mtab : List MtabEntry)
      → Leaves mtab (remove_from_mtab answers path mount_point type mtab)
  unfolding remove_from_mtab
  remove_from_mtab-Leaves answers mtab =
      if_cases (Leaves mtab) (not answers.opened) (λ t. fatal mtab)
        (λ t.
          if_cases (Leaves mtab) (not answers.created) (λ u. fatal mtab)
            (λ u.
              replace_mtab-Leaves answers mtab
                (copy_entries answers.copied path mount_point type 0 mtab)
                (λ entries e. copy_entries-others answers.copied 0 mtab entries e)))

  others-append :
      (mtab : List MtabEntry) (ent : MtabEntry)
      → All (λ e. is_entry path mount_point type e ≡ false) mtab
      → is_entry path mount_point type ent ≡ true
      → others (mtab ++ ent ∷ []) ≡ mtab
  others-append [] ent h k = rw k refl
  others-append (e ∷ mtab) ent h k = rw (h.0) (ap (λ r. e ∷ r) (others-append mtab ent h.1 k))

  is_new :
      (mount_opts : Bytes)
      → is_entry path mount_point type (new_entry path mount_point type mount_opts) ≡ true
  unfolding is_entry
  is_new mount_opts = rw (str_eq_refl mount_point, str_eq_refl path, str_eq_refl type) refl

  added_entry :
      (answers : MtabAnswers) (mount_opts : Bytes) (mtab added : List MtabEntry)
      → add_to_mtab answers path mount_point type mount_opts mtab ≡ (success, added)
      → added ≡ mtab ++ new_entry path mount_point type mount_opts ∷ []
  unfolding add_to_mtab
  added_entry answers mount_opts mtab added =
      if_cases
        (λ (r : ReturnCode × List MtabEntry).
          r ≡ (success, added) → added ≡ mtab ++ new_entry path mount_point type mount_opts ∷ [])
        (not answers.opened) (λ t e. let no = ap (λ r. r.0) e in cc)
        (λ t.
          if_cases
            (λ (r : ReturnCode × List MtabEntry).
              r ≡ (success, added)
              → added ≡ mtab ++ new_entry path mount_point type mount_opts ∷ [])
            (answers.copied 0) (λ c e. ap (λ r. r.1) (sym e))
            (λ c e. let no = ap (λ r. r.0) e in cc))

  -- For a mtab file without an entry for the device, the place and the type: if `add_to_mtab`
  -- succeeds, `remove_from_mtab` brings the file back as it was, if it succeeds, and otherwise
  -- leaves it with the entry that was added.
  pub remove_from_mtab-add_to_mtab :
      (answers later : MtabAnswers) (mount_opts : Bytes) (mtab added : List MtabEntry)
      → All (λ e. is_entry path mount_point type e ≡ false) mtab
      → add_to_mtab answers path mount_point type mount_opts mtab ≡ (success, added)
      → (((remove_from_mtab later path mount_point type added).0 ≡ success)
          × ((remove_from_mtab later path mount_point type added).1 ≡ mtab))
        ⊎ (((remove_from_mtab later path mount_point type added).0 ≢ success)
            × ((remove_from_mtab later path mount_point type added).1 ≡ added))
  remove_from_mtab-add_to_mtab answers later mount_opts mtab added h e =
      let shape = added_entry answers mount_opts mtab added e in
      let restored =
        ap others shape
        ∙ others-append mtab (new_entry path mount_point type mount_opts) h (is_new mount_opts) in
      elim (remove_from_mtab-Leaves later added) [
        | inl (s, o) ↦ inl (s, o ∙ restored)
        | inr kept ↦ inr kept
      ]
