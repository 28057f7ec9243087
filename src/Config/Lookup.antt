-- ===== src/Config/Lookup.antt =====
-- A lookup behind an insertion.
use dtmd.Common.{
  ◌≡◌, ◌≢◌, refl, sym, subst, ◌∙◌, Bool, true, false, Option, some, List, [], ◌∷◌, inl, inr,
  if◌then◌else◌, Bool-cases, if_cases, Bytes, str_eq, str_eq_iff,
}
use dtmd.Misc.Types.{ReturnCode, fatal_error}
use dtmd.Config.MountOpts.{ConfigMountOpts, get_mount_options, insert_mount_opts}

-- What the lookup of `name` is to give behind the insertion.
abbrev pub inserted : Bytes → Bytes → Bytes → List ConfigMountOpts → Option Bytes
inserted name fs_name fs_opts array =
    if str_eq name fs_name then some fs_opts else get_mount_options name array

replaced :
    (name fs_name fs_opts : Bytes) (entry : ConfigMountOpts) (array : List ConfigMountOpts)
    → fs_name ≡ entry.fs_type
    → get_mount_options name (record entry { opts = fs_opts } ∷ array)
      ≡ inserted name fs_name fs_opts (entry ∷ array)
unfolding get_mount_options
replaced name fs_name fs_opts entry array e =
    subst
      (λ n. (if str_eq name entry.fs_type then some fs_opts else get_mount_options name array) ≡ (
        if str_eq name n
        then some fs_opts
        else if str_eq name entry.fs_type
        then some entry.opts
        else get_mount_options name array))
      (sym e)
      (elim (Bool-cases (str_eq name entry.fs_type)) [ inl t ↦ rw t refl | inr t ↦ rw t refl ])

no_match :
    (name fs_name : Bytes) (entry : ConfigMountOpts)
    → str_eq fs_name entry.fs_type ≡ false
    → str_eq name fs_name ≡ true
    → str_eq name entry.fs_type ≡ true
    → ⊥
no_match name fs_name entry e u t =
    let p = sym ((str_eq_iff name fs_name).0 u) ∙ (str_eq_iff name entry.fs_type).0 t in
    let q = (str_eq_iff fs_name entry.fs_type).1 p in cc

-- Behind an insertion that does not fail for want of memory, the name has the new options, and
-- every other name has what it had.
pub get_mount_options-insert_mount_opts :
    (allocated : Bool) (name fs_name fs_opts : Bytes) (array : List ConfigMountOpts)
    → (insert_mount_opts allocated fs_name fs_opts array).0 ≢ fatal_error
    → get_mount_options name (insert_mount_opts allocated fs_name fs_opts array).1
      ≡ inserted name fs_name fs_opts array
unfolding get_mount_options insert_mount_opts
get_mount_options-insert_mount_opts true name fs_name fs_opts [] h = refl
get_mount_options-insert_mount_opts false name fs_name fs_opts [] h = absurd (h refl)
get_mount_options-insert_mount_opts allocated name fs_name fs_opts (entry ∷ array) h =
    let rest = insert_mount_opts allocated fs_name fs_opts array in
    if_cases
      (λ (r : ReturnCode × List ConfigMountOpts).
        r.0 ≢ fatal_error
        → get_mount_options name r.1 ≡ inserted name fs_name fs_opts (entry ∷ array))
      (str_eq fs_name entry.fs_type)
      (λ e h. replaced name fs_name fs_opts entry array ((str_eq_iff fs_name entry.fs_type).0 e))
      (λ e h.
        let later = get_mount_options-insert_mount_opts allocated name fs_name fs_opts array h in
        elim (Bool-cases (str_eq name entry.fs_type)) [
          | inl t ↦ elim (Bool-cases (str_eq name fs_name)) [
            | inl u ↦ absurd (no_match name fs_name entry e u t)
            | inr u ↦ rw (t, u) refl
          ]
          | inr t ↦ rw t later
        ])
      h
