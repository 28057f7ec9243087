-- ===== src/Options/Flags.antt =====
-- Flags are compared by their bits.
use dtmd.Common.{◌==◌, ℕ, ◌≡◌, refl, sym, ap, ◌∙◌, true, if◌then◌else◌, ==_iff}
use dtmd.Options.Types.{
  Flag, ms_dirsync, ms_mandlock, ms_noatime, ms_nodev, ms_nodiratime, ms_noexec, ms_nosuid,
  ms_rdonly, ms_relatime, ms_silent, ms_strictatime, ms_synchronous, flag_index, flag_eq,
}

abbrev flag_at : ℕ → Flag
flag_at n =
    if n == 0
    then ms_dirsync
    else if n == 1
    then ms_mandlock
    else if n == 2
    then ms_noatime
    else if n == 3
    then ms_nodev
    else if n == 4
    then ms_nodiratime
    else if n == 5
    then ms_noexec
    else if n == 6
    then ms_nosuid
    else if n == 7
    then ms_rdonly
    else if n == 8
    then ms_relatime
    else if n == 9
    then ms_silent
    else if n == 10
    then ms_strictatime
    else ms_synchronous

flag_at-flag_index : (f : Flag) → flag_at (flag_index f) ≡ f
flag_at-flag_index ms_dirsync = refl
flag_at-flag_index ms_mandlock = refl
flag_at-flag_index ms_noatime = refl
flag_at-flag_index ms_nodev = refl
flag_at-flag_index ms_nodiratime = refl
flag_at-flag_index ms_noexec = refl
flag_at-flag_index ms_nosuid = refl
flag_at-flag_index ms_rdonly = refl
flag_at-flag_index ms_relatime = refl
flag_at-flag_index ms_silent = refl
flag_at-flag_index ms_strictatime = refl
flag_at-flag_index ms_synchronous = refl

pub flag_eq_eq : (f g : Flag) → flag_eq f g ≡ true → f ≡ g
flag_eq_eq f g e =
    sym (flag_at-flag_index f)
    ∙ ap flag_at ((==_iff (flag_index f) (flag_index g)).0 e)
    ∙ flag_at-flag_index g

pub flag_eq_refl : (f : Flag) → flag_eq f f ≡ true
flag_eq_refl f = (==_iff (flag_index f) (flag_index f)).1 refl
