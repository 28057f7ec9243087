-- ===== src/Tests/Mtab.antt =====
-- An entry that is added to the mtab file and removed again.
use dtmd.Common.{◌≡◌, ◌≢◌, ◌⊎◌, refl, true, false, List, [], ◌∷◌, ◌++◌, codes, str_eq}
use dtmd.Misc.Types.{success}
use dtmd.Mounts.Mtab.{MtabEntry, MtabAnswers, new_entry, is_entry, add_to_mtab, remove_from_mtab}
use dtmd.Mounts.Restored.{remove_from_mtab-add_to_mtab}

abbrev answering : MtabAnswers
answering = record {
  opened = true;
  created = true;
  copied = λ n. true;
  stat = true;
  chmod = true;
  chown = true;
  renamed = true;
}

abbrev mtab : List MtabEntry
mtab = new_entry (codes "/dev/b") (codes "/media/b") (codes "vfat") (codes "ro") ∷ []

abbrev added : List MtabEntry
added = mtab ++ new_entry (codes "/dev/a") (codes "/media/a") (codes "vfat") (codes "rw") ∷ []

added_equation :
    add_to_mtab answering (codes "/dev/a") (codes "/media/a") (codes "vfat") (codes "rw") mtab
    ≡ (success, added)
unfolding add_to_mtab
added_equation = refl

other :
    is_entry
      (codes "/dev/a")
      (codes "/media/a")
      (codes "vfat")
      (new_entry (codes "/dev/b") (codes "/media/b") (codes "vfat") (codes "ro"))
    ≡ false
unfolding is_entry str_eq
other = refl

remove_from_mtab-add_to_mtab_example :
    (((remove_from_mtab answering (codes "/dev/a") (codes "/media/a") (codes "vfat") added).0
        ≡ success)
      × ((remove_from_mtab answering (codes "/dev/a") (codes "/media/a") (codes "vfat") added).1
          ≡ mtab))
    ⊎ (((remove_from_mtab answering (codes "/dev/a") (codes "/media/a") (codes "vfat") added).0
          ≢ success)
        × ((remove_from_mtab answering (codes "/dev/a") (codes "/media/a") (codes "vfat") added).1
            ≡ added))
remove_from_mtab-add_to_mtab_example =
    remove_from_mtab-add_to_mtab (codes "/dev/a") (codes "/media/a") (codes "vfat") answering
      answering (codes "rw") mtab added (other, tt) added_equation
