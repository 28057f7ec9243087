-- ===== src/Mounting/Answered.antt =====
-- Every request to mount or to unmount is answered.
use dtmd.Common.{
  ℕ, ◌≢◌, inl, refl, Option, none, some, List, [], ◌∷◌, option_cases, if_both, ◌==◌, Bytes, ok,
  out_of_fuel,
}
use dtmd.Misc.Types.{
  success, fail, client_error, fatal_error, is_successful, generic_error, mount_point_busy,
  no_such_removable_device, fstype_not_recognized, device_already_mounted, device_not_mounted,
  unsupported_fstype, failed_parsing_mount_options,
}
use dtmd.Media.Tree.{MediaInfo, Media, root_device_path, find_media}
use dtmd.Config.Values.{Config}
use dtmd.Config.MountOpts.{ConfigMountOpts}
use dtmd.Options.Types.{FilesystemOptions, FsoptsList, init_options_list}
use dtmd.Options.Convert.{OptionAllocator, get_fsopts_for_fs, convert_options_to_list}
use dtmd.Options.Mounting.{
  or_else, Prepared, refused, prepared, prepare_for_fs, asked_options, forced_options,
  force_options,
}
use dtmd.Options.Proper.{after_success}
use dtmd.Mounts.Table.{point_mount_count}
use dtmd.Mounting.System.{System, Request, umount, run, UmountAnswer, unmounted, busy, in_error}
use dtmd.Mounting.Path.{internal_mount_dir, Picked, again, refuse, picked, pick_point}
use dtmd.Mounting.Invoke.{
  refusal, mount_at, mount_prepared, mount_with, mount_as, mount_found, invoke_mount,
}
use dtmd.Mounting.Unmount.{
  unmount_command, unmounted_by, invoke_unmount_external, umount_point, invoke_unmount_internal,
  finish_unmount, unmount_with, invoke_unmount_common, unmount_found, invoke_unmount,
}
use dtmd.Mounting.Answers.{
  IsAnswer, Answers, refusal-IsAnswer, mount_at-IsAnswer, fail≢success, fatal_error≢success,
  dir_cases,
}
use dtmd.Mounting.Picks.{Stops, pick_point-Stops}

mount_prepared-Answers :
    (sys : System) (c : Config) (path : Bytes) (label : Option Bytes) (fs : FilesystemOptions)
    (l : FsoptsList)
    → Answers (mount_prepared sys c path label fs l)
unfolding mount_prepared
mount_prepared-Answers sys c path label fs l =
    let dir = or_else c.mount_dir internal_mount_dir in
    answered (pick_point sys 2 0 dir path label c.mount_by_value)
      (pick_point-Stops sys 0 dir path label c.mount_by_value)
  where
    answered :
        (p : Picked)
        → Stops p
        → Answers (elim p [
          | again other ↦ out_of_fuel
          | refuse rc error_code ↦ ok (refusal rc error_code [])
          | picked mount_path ↦ ok (mount_at sys path fs l mount_path)
        ])
    answered (again other) h = h
    answered (refuse rc code) h = refusal-IsAnswer rc code [] h
    answered (picked mount_path) h = mount_at-IsAnswer sys path fs l mount_path

-- Options that are refused come with a failure.
abbrev Refuses : Prepared → Type 0
Refuses (refused rc code) = rc ≢ success
Refuses (prepared l) = Unit

prepare_for_fs-Refuses :
    (alloc later : OptionAllocator) (defaults mandatory : List ConfigMountOpts)
    (fs : FilesystemOptions) (mount_options : Option Bytes) (uid gid : ℕ)
    → Refuses (prepare_for_fs alloc later defaults mandatory fs mount_options uid gid)
unfolding prepare_for_fs force_options
prepare_for_fs-Refuses alloc later defaults mandatory fs mount_options uid gid =
    let asked =
      convert_options_to_list alloc (some (asked_options defaults fs mount_options)) (some fs)
        (some uid) (some gid) init_options_list in
    let forced =
      convert_options_to_list later (some (forced_options mandatory fs)) (some fs) none none
        asked.1 in
    after_success Refuses asked.0 (force_options later mandatory fs asked.1)
      (λ failure. refused failure failed_parsing_mount_options)
      (λ s.
        after_success Refuses forced.0 (prepared forced.1)
          (λ failure. refused failure generic_error) (λ t. tt) (λ n. n))
      (λ n. n)

mount_with-Answers :
    (sys : System) (c : Config) (path : Bytes) (label : Option Bytes) (fs : FilesystemOptions)
    (p : Prepared)
    → Refuses p
    → Answers (mount_with sys c path label fs p)
mount_with-Answers sys c path label fs (refused rc code) h = refusal-IsAnswer rc code [] h
mount_with-Answers sys c path label fs (prepared l) h = mount_prepared-Answers sys c path label fs l

client_error≢success : client_error ≢ success
client_error≢success e = cc

mount_found-Answers :
    (sys : System) (c : Config) (path : Bytes) (mount_options : Option Bytes) (i : MediaInfo)
    → Answers (mount_found sys c path mount_options i)
unfolding mount_found mount_as
mount_found-Answers sys c path mount_options i =
    option_cases Answers i.fstype (λ e. refusal-IsAnswer fail fstype_not_recognized [] fail≢success)
      (λ fstype e.
        option_cases Answers i.mnt_point
          (λ f.
            option_cases Answers sys.credentials
              (λ g. refusal-IsAnswer client_error generic_error [] client_error≢success)
              (λ ids g.
                option_cases Answers (get_fsopts_for_fs fstype)
                  (λ k. refusal-IsAnswer fail unsupported_fstype [] fail≢success)
                  (λ fs k.
                    mount_with-Answers sys c path i.label fs
                      (prepare_for_fs sys.asked_memory sys.forced_memory c.default_mount_opts
                        c.mandatory_mount_opts fs mount_options ids.0 ids.1)
                      (prepare_for_fs-Refuses sys.asked_memory sys.forced_memory
                        c.default_mount_opts c.mandatory_mount_opts fs mount_options ids.0 ids.1))))
          (λ point f. refusal-IsAnswer fail device_already_mounted [] fail≢success))

pub invoke_mount-Answers :
    (sys : System) (c : Config) (root : Media) (path : Bytes) (mount_options : Option Bytes)
    → Answers (invoke_mount sys c root path mount_options)
unfolding invoke_mount
invoke_mount-Answers sys c root path mount_options =
    option_cases Answers (find_media path root_device_path root)
      (λ e. refusal-IsAnswer fail no_such_removable_device [] fail≢success)
      (λ f e. mount_found-Answers sys c path mount_options f.info)

invoke_unmount_external-IsAnswer :
    (sys : System) (mnt_point fstype : Bytes)
    → IsAnswer (invoke_unmount_external sys mnt_point fstype)
unfolding invoke_unmount_external
invoke_unmount_external-IsAnswer sys mnt_point fstype =
    let command = unmount_command fstype mnt_point in
    if_both IsAnswer sys.command_memory
      (if_both IsAnswer (sys.status command == 0) (inl (refl, refl))
        (refusal-IsAnswer fail generic_error (run command ∷ []) fail≢success))
      (refusal-IsAnswer fatal_error generic_error [] fatal_error≢success)

umount_point-IsAnswer : (sys : System) (mnt_point : Bytes) → IsAnswer (umount_point sys mnt_point)
unfolding umount_point
umount_point-IsAnswer sys mnt_point = answered (sys.umount_answer mnt_point)
  where
    answered :
        (a : UmountAnswer)
        → IsAnswer (elim a [
          | unmounted ↦ unmounted_by (umount mnt_point ∷ [])
          | busy ↦ refusal fail mount_point_busy (umount mnt_point ∷ [])
          | in_error ↦ refusal fail generic_error (umount mnt_point ∷ [])
        ])
    answered unmounted = inl (refl, refl)
    answered busy = refusal-IsAnswer fail mount_point_busy (umount mnt_point ∷ []) fail≢success
    answered in_error = refusal-IsAnswer fail generic_error (umount mnt_point ∷ []) fail≢success

invoke_unmount_internal-IsAnswer :
    (sys : System) (mnt_point : Bytes) → IsAnswer (invoke_unmount_internal sys mnt_point)
unfolding invoke_unmount_internal
invoke_unmount_internal-IsAnswer sys mnt_point =
    option_cases IsAnswer (point_mount_count (sys.tables 0) mnt_point 2)
      (λ e. refusal-IsAnswer fatal_error generic_error [] fatal_error≢success)
      (λ count e.
        if_both IsAnswer (count == 1) (umount_point-IsAnswer sys mnt_point)
          (refusal-IsAnswer fail device_not_mounted [] fail≢success))

finish_unmount-IsAnswer :
    (sys : System) (mnt_point : Bytes) (r : Request)
    → IsAnswer r
    → IsAnswer (finish_unmount sys mnt_point r)
unfolding finish_unmount
finish_unmount-IsAnswer sys mnt_point r h =
    if_both IsAnswer (is_successful r.rc) (dir_cases IsAnswer (sys.dir_state mnt_point) h h h) h

unmount_with-IsAnswer :
    (sys : System) (mnt_point : Bytes) (fs : Option FilesystemOptions)
    → IsAnswer (unmount_with sys mnt_point fs)
unfolding unmount_with
unmount_with-IsAnswer sys mnt_point none = refusal-IsAnswer fail unsupported_fstype [] fail≢success
unmount_with-IsAnswer sys mnt_point (some fs) = finish_unmount-IsAnswer sys mnt_point _ (
    option_cases IsAnswer fs.external_fstype (λ e. invoke_unmount_internal-IsAnswer sys mnt_point)
      (λ fstype e. invoke_unmount_external-IsAnswer sys mnt_point fstype))

invoke_unmount_common-IsAnswer :
    (sys : System) (mnt_point : Bytes) (fstype : Option Bytes)
    → IsAnswer (invoke_unmount_common sys mnt_point fstype)
unfolding invoke_unmount_common
invoke_unmount_common-IsAnswer sys mnt_point none =
    refusal-IsAnswer fail unsupported_fstype [] fail≢success
invoke_unmount_common-IsAnswer sys mnt_point (some fstype) =
    unmount_with-IsAnswer sys mnt_point (get_fsopts_for_fs fstype)

-- Every request to mount or to unmount comes to its end, whatever the system answers, and is
-- answered with success or with a failure and a code for the client.
pub requests-IsAnswer :
    (sys : System) (c : Config) (root : Media) (path : Bytes) (mount_options : Option Bytes)
    → Answers (invoke_mount sys c root path mount_options) × IsAnswer (invoke_unmount sys root path)
unfolding invoke_unmount unmount_found
requests-IsAnswer sys c root path mount_options = (
  invoke_mount-Answers sys c root path mount_options,
  option_cases IsAnswer (find_media path root_device_path root)
      (λ e. refusal-IsAnswer fail no_such_removable_device [] fail≢success)
      (λ f e.
        option_cases IsAnswer f.info.mnt_point
          (λ n. refusal-IsAnswer fail device_not_mounted [] fail≢success)
          (λ mnt_point s. invoke_unmount_common-IsAnswer sys mnt_point f.info.fstype)),
)
