-- ===== src/Mounting/Unmounting.antt =====
-- What the unmounting of one device calls.
use dtmd.Common.{
  ℕ, ◌≡◌, ◌≢◌, refl, sym, ◌∙◌, ap, arith, Bool, true, false, Option, none, some, List, [], ◌∷◌,
  ◌++◌, ◌==◌, ==_iff, subst, inl, inr, Option-cases, if_cases, option_cases, Bytes, codes,
}
use dtmd.Misc.Types.{fail, ErrorCode, mount_point_busy, generic_error, is_fatal_error}
use dtmd.Media.Tree.{MediaInfo}
use dtmd.Options.Types.{FilesystemOptions}
use dtmd.Options.Convert.{get_fsopts_for_fs}
use dtmd.Mounts.Table.{MountEntry, point_mount_count}
use dtmd.Mounting.System.{
  System, DirState, not_dir, empty, not_empty, SystemCall, rmdir, run, umount, UmountAnswer,
  unmounted, busy, in_error, Request,
}
use dtmd.Mounting.Invoke.{refusal}
use dtmd.Mounting.Unmount.{
  unmount_command, unmounted_by, invoke_unmount_external, umount_point, invoke_unmount_internal,
  finish_unmount, unmount_with, invoke_unmount_common, Swept, unmount_node,
}

-- The file system of a device, if the tables have it.
abbrev pub filesystem_of : Option Bytes → Option FilesystemOptions
filesystem_of none = none
filesystem_of (some fstype) = get_fsopts_for_fs fstype

abbrev pub unmount_line : Bytes → Bytes → Bytes
unmount_line external point =
    codes "umount -t " ++ (external ++ (codes " \"" ++ (point ++ codes "\"")))

abbrev pub is_done : UmountAnswer → Bool
is_done unmounted = true
is_done busy = false
is_done in_error = false

-- Behind an unmount that succeeds, an empty directory is removed.
abbrev pub cleanup : Bool → DirState → Bytes → List SystemCall
cleanup true empty point = rmdir point ∷ []
cleanup true not_dir point = []
cleanup true not_empty point = []
cleanup false d point = []

-- There is memory for a command, and the table of mounts can be read.
abbrev pub IsReadable : System → Type 0
IsReadable sys =
    (sys.command_memory ≡ true) × ((table : List MountEntry) × (sys.tables 0 ≡ some table))

module _ (sys : System) (i : MediaInfo) where
  -- The calls that unmount a device: none if it is not mounted, if its file system is not known, or
  -- if its mount point, to be given to `umount`, is not in the table exactly once.
  pub data Unmounting : List SystemCall → Type 0 where
    nowhere : i.mnt_point ≡ none → Unmounting []
    not_supported :
        (point : Bytes) → i.mnt_point ≡ some point → filesystem_of i.fstype ≡ none → Unmounting []
    not_once :
        (point : Bytes) (fs : FilesystemOptions) (count : ℕ)
        → i.mnt_point ≡ some point
        → filesystem_of i.fstype ≡ some fs
        → fs.external_fstype ≡ none
        → point_mount_count (sys.tables 0) point 2 ≡ some count
        → count ≢ 1
        → Unmounting []
    by_umount :
        (point : Bytes) (fs : FilesystemOptions)
        → i.mnt_point ≡ some point
        → filesystem_of i.fstype ≡ some fs
        → fs.external_fstype ≡ none
        → point_mount_count (sys.tables 0) point 2 ≡ some 1
        → Unmounting
            (umount point ∷ cleanup (is_done (sys.umount_answer point)) (sys.dir_state point) point)
    by_command :
        (point : Bytes) (fs : FilesystemOptions) (external : Bytes)
        → i.mnt_point ≡ some point
        → filesystem_of i.fstype ≡ some fs
        → fs.external_fstype ≡ some external
        → Unmounting (
            run (unmount_line external point)
            ∷ cleanup (sys.status (unmount_line external point) == 0) (sys.dir_state point) point)

  -- A request that has made such calls and did not end in a fatal error.
  abbrev Done : Request → Type 0
  Done r = (is_fatal_error r.rc ≡ false) × Unmounting r.calls

true≢false : true ≢ false
true≢false e = cc

finish_unmount-cleanup :
    (sys : System) (point : Bytes) (call : SystemCall)
    → finish_unmount sys point (unmounted_by (call ∷ []))
      ≡ unmounted_by (call ∷ cleanup true (sys.dir_state point) point)
unfolding finish_unmount
finish_unmount-cleanup sys point call = ground arith

module _ (sys : System) (i : MediaInfo) (readable : IsReadable sys) where
  readable-counted : (point : Bytes) → point_mount_count (sys.tables 0) point 2 ≢ none
  unfolding point_mount_count
  readable-counted point n = let some_count = rw (readable.1.1, point_mount_count) at n in cc

  external-Done :
      (point : Bytes) (fs : FilesystemOptions) (external : Bytes)
      → i.mnt_point ≡ some point
      → filesystem_of i.fstype ≡ some fs
      → fs.external_fstype ≡ some external
      → Done sys i (finish_unmount sys point (invoke_unmount_external sys point external))
  unfolding invoke_unmount_external unmount_command finish_unmount
  external-Done point fs external p k e =
      let line = unmount_line external point in
      let tidied = λ (b : Bool). run line ∷ cleanup b (sys.dir_state point) point in
      let called : Unmounting sys i (tidied (sys.status line == 0)) =
        by_command point fs external p k e in
      if_cases (λ (r : Request). Done sys i (finish_unmount sys point r)) sys.command_memory
        (λ m.
          if_cases (λ (r : Request). Done sys i (finish_unmount sys point r)) (sys.status line == 0)
            (λ y.
              rw (finish_unmount-cleanup sys point (run line))
                (refl, subst (λ b. Unmounting sys i (tidied b)) y called))
            (λ n. (refl, subst (λ b. Unmounting sys i (tidied b)) n called)))
        (λ m. absurd (true≢false (sym readable.0 ∙ m)))

  answer_cases :
      (P : Request → Type 0) (point : Bytes) (a : UmountAnswer)
      → sys.umount_answer point ≡ a
      → (a ≡ unmounted → P (unmounted_by (umount point ∷ [])))
      → ((code : ErrorCode) → is_done a ≡ false → P (refusal fail code (umount point ∷ [])))
      → P (umount_point sys point)
  unfolding umount_point
  answer_cases P point unmounted e p q = rw (e, umount_point) (p refl)
  answer_cases P point busy e p q = rw (e, umount_point) (q mount_point_busy refl)
  answer_cases P point in_error e p q = rw (e, umount_point) (q generic_error refl)

  umount-Done :
      (point : Bytes) (fs : FilesystemOptions)
      → i.mnt_point ≡ some point
      → filesystem_of i.fstype ≡ some fs
      → fs.external_fstype ≡ none
      → point_mount_count (sys.tables 0) point 2 ≡ some 1
      → Done sys i (finish_unmount sys point (umount_point sys point))
  unfolding finish_unmount
  umount-Done point fs p k e c =
      let tidied = λ (b : Bool). umount point ∷ cleanup b (sys.dir_state point) point in
      let called : Unmounting sys i (tidied (is_done (sys.umount_answer point))) =
        by_umount point fs p k e c in
      answer_cases (λ r. Done sys i (finish_unmount sys point r)) point (sys.umount_answer point)
        refl
        (λ y.
          rw (finish_unmount-cleanup sys point (umount point))
            (refl, subst (λ b. Unmounting sys i (tidied b)) (ap is_done y) called))
        (λ code n. (refl, subst (λ b. Unmounting sys i (tidied b)) n called))

  internal-Done :
      (point : Bytes) (fs : FilesystemOptions)
      → i.mnt_point ≡ some point
      → filesystem_of i.fstype ≡ some fs
      → fs.external_fstype ≡ none
      → Done sys i (finish_unmount sys point (invoke_unmount_internal sys point))
  unfolding invoke_unmount_internal finish_unmount
  internal-Done point fs p k e =
      option_cases (λ (r : Request). Done sys i (finish_unmount sys point r))
        (point_mount_count (sys.tables 0) point 2) (λ n. absurd (readable-counted point n))
        (λ count c.
          if_cases (λ (r : Request). Done sys i (finish_unmount sys point r)) (count == 1)
            (λ y. umount-Done point fs p k e (c ∙ ap some ((==_iff count 1).0 y)))
            (λ n. (refl, not_once point fs count p k e c (λ one. cc))))

  common-Done :
      (point : Bytes) (fstype : Option Bytes)
      → i.mnt_point ≡ some point
      → i.fstype ≡ fstype
      → Done sys i (invoke_unmount_common sys point fstype)
  unfolding invoke_unmount_common unmount_with
  common-Done point none p t = (refl, not_supported point p (ap filesystem_of t))
  common-Done point (some fstype) p t = elim (Option-cases (get_fsopts_for_fs fstype)) [
    | inl n ↦ rw n (refl, not_supported point p (ap filesystem_of t ∙ n))
    | inr (fs, y) ↦
        let k = ap filesystem_of t ∙ y in
        rw y (
          option_cases (λ r. Done sys i (finish_unmount sys point r)) fs.external_fstype
            (λ e. internal-Done point fs p k e)
            (λ external e. external-Done point fs external p k e))
  ]

-- Where the answers suffice, the unmounting of a device is no fatal error, and makes its calls.
pub unmount_node-Unmounting :
    (systems : Bytes → System) (i : MediaInfo)
    → IsReadable (systems i.path)
    → (is_fatal_error (unmount_node systems i).0 ≡ false)
      × Unmounting (systems i.path) i (unmount_node systems i).1
unfolding unmount_node
unmount_node-Unmounting systems i readable =
    option_cases (λ (s : Swept). (is_fatal_error s.0 ≡ false) × Unmounting (systems i.path) i s.1)
      i.mnt_point (λ n. (refl, nowhere n))
      (λ point p. common-Done (systems i.path) i readable point i.fstype p refl)
