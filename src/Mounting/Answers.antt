-- ===== src/Mounting/Answers.antt =====
-- What an answer to a request is, and the answers behind the choice of a mount point.
use dtmd.Common.{
  ◌≡◌, ◌≢◌, ◌⊎◌, inl, inr, refl, true, false, none, some, List, [], ◌∷◌, ◌++◌, if_cases, if_both,
  Bytes, Outcome, ok,
}
use dtmd.Misc.Types.{
  ReturnCode, success, fail, client_error, fatal_error, bug, ErrorCode, is_successful,
  generic_error, mount_point_busy,
}
use dtmd.Options.Types.{FilesystemOptions, FsoptsList}
use dtmd.Mounting.System.{
  System, SystemCall, DirState, not_dir, empty, not_empty, mkdir, rmdir, Request,
}
use dtmd.Mounting.Command.{mount_device}
use dtmd.Mounting.Invoke.{refusal, finish_mount, mount_at}

-- Success without a code for the client, or a failure with one.
abbrev pub IsAnswer : Request → Type 0
IsAnswer r =
    ((r.rc ≡ success) × (r.error_code ≡ none))
    ⊎ ((r.rc ≢ success) × ((code : ErrorCode) × (r.error_code ≡ some code)))

abbrev pub Answers : Outcome Request → Type 0
Answers (ok r) = IsAnswer r
Answers _ = ⊥

pub refusal-IsAnswer :
    (rc : ReturnCode) (code : ErrorCode) (calls : List SystemCall)
    → rc ≢ success
    → IsAnswer (refusal rc code calls)
refusal-IsAnswer rc code calls h = inr (h, (code, refl))

pub successful : (rc : ReturnCode) → is_successful rc ≡ true → rc ≡ success
successful success h = refl
successful fail h = cc
successful client_error h = cc
successful fatal_error h = cc
successful bug h = cc

not_successful : (rc : ReturnCode) → is_successful rc ≡ false → rc ≢ success
not_successful success h = λ e. cc
not_successful fail h = λ e. cc
not_successful client_error h = λ e. cc
not_successful fatal_error h = λ e. cc
not_successful bug h = λ e. cc

finish_mount-IsAnswer :
    (mount_path : Bytes) (before : List SystemCall) (done : ReturnCode × List SystemCall)
    → IsAnswer (finish_mount mount_path before done)
unfolding finish_mount
finish_mount-IsAnswer mount_path before done =
    if_cases IsAnswer (is_successful done.0) (λ s. inl (successful done.0 s, refl))
      (λ s.
        refusal-IsAnswer done.0 generic_error (before ++ (done.1 ++ rmdir mount_path ∷ []))
          (not_successful done.0 s))

pub fail≢success : fail ≢ success
fail≢success e = cc

pub fatal_error≢success : fatal_error ≢ success
fatal_error≢success e = cc

-- What holds in each state of a directory.
pub dir_cases {κ} :
    (P : Request → Type κ) (d : DirState) {a b c : Request}
    → P a
    → P b
    → P c
    → P (elim d [ not_dir ↦ a | empty ↦ b | not_empty ↦ c ])
dir_cases P not_dir h k l = h
dir_cases P empty h k l = k
dir_cases P not_empty h k l = l

pub mount_at-IsAnswer :
    (sys : System) (path : Bytes) (fs : FilesystemOptions) (l : FsoptsList) (mount_path : Bytes)
    → IsAnswer (mount_at sys path fs l mount_path)
unfolding mount_at
mount_at-IsAnswer sys path fs l mount_path =
    let done = mount_device sys path mount_path fs l in
    let answered = finish_mount-IsAnswer mount_path [] done in
    dir_cases IsAnswer (sys.dir_state mount_path)
      (if_both IsAnswer (sys.mkdir_done mount_path)
        (finish_mount-IsAnswer mount_path (mkdir mount_path ∷ []) done)
        (refusal-IsAnswer fail mount_point_busy (mkdir mount_path ∷ []) fail≢success))
      answered answered
