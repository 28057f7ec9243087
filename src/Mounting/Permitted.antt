-- ===== src/Mounting/Permitted.antt =====
-- What a client's request to mount makes the daemon do.
use dtmd.Common.{
  ℕ, ◌≡◌, refl, true, not, Option, none, some, List, [], ◌∷◌, ◌++◌, All, All-append, option_cases,
  if_both, Bytes, codes, Mem, Outcome, ok, out_of_fuel,
}
use dtmd.Misc.Types.{ReturnCode, is_successful}
use dtmd.Media.Tree.{Media, Found, root_device_path, find_media}
use dtmd.Config.Values.{Config}
use dtmd.Options.Types.{ms_nodev, ms_nosuid, FilesystemOptions, FsoptsList}
use dtmd.Options.Convert.{get_fsopts_for_fs}
use dtmd.Options.Generate.{fsopts_generate_string}
use dtmd.Options.Distinct.{IsDistinct}
use dtmd.Options.Strings.{
  measured, separated, full_texts, string_texts, fsopts_generate_string-fits,
}
use dtmd.Options.Mounting.{or_else, Prepared, refused, prepared, prepare_for_fs, prepare_options}
use dtmd.Options.Restricted.{Unconfigured, prepare_options-IsRestricted, prepare_options-full_texts}
use dtmd.Mounting.System.{System, SystemCall, mkdir, rmdir, run, umount, mount, Request}
use dtmd.Mounting.Path.{internal_mount_dir, Picked, again, refuse, picked, pick_point}
use dtmd.Mounting.Command.{invoke_mount_external, invoke_mount_internal, mount_device}
use dtmd.Mounting.Invoke.{
  refusal, finish_mount, mount_at, mount_prepared, mount_with, mount_as, mount_found, invoke_mount,
}
use dtmd.Mounting.Written.{mount_line, mount_command-mount_line}
use dtmd.Mounting.Answers.{dir_cases}
use dtmd.Mounting.Free.{IsFree, Picks, pick_point-Picks}

module _ (sys : System) (c : Config) (root : Media) (path : Bytes)
    (mount_options : Option Bytes) where
  -- The device is in the tree and is not mounted, the options are those that are prepared for its
  -- file system and the client, both `nodev` and `nosuid` are among their texts and flags, and no
  -- two of them are of one mount flag, so that none takes back another.
  pub record Asked (fs : FilesystemOptions) (l : FsoptsList) : Type 0 where
    pub found : Found
    pub at_path : find_media path root_device_path root ≡ some found
    pub not_mounted : found.info.mnt_point ≡ none
    pub fstype : Bytes
    pub fstype_is : found.info.fstype ≡ some fstype
    pub known : get_fsopts_for_fs fstype ≡ some fs
    pub ids : ℕ × ℕ
    pub client : sys.credentials ≡ some ids
    pub options_are :
        prepare_for_fs sys.asked_memory sys.forced_memory c.default_mount_opts
          c.mandatory_mount_opts fs mount_options ids.0 ids.1
        ≡ prepared l
    pub nodev_text : Mem (codes "nodev") (full_texts l)
    pub nosuid_text : Mem (codes "nosuid") (full_texts l)
    pub distinct : IsDistinct l.options
    pub nodev : (measured l).flags ms_nodev ≡ true
    pub nosuid : (measured l).flags ms_nosuid ≡ true

  -- For `system` the command line is written out, with all options; for `mount` the options that
  -- are no flags, and the flags.
  abbrev pub Permitted : SystemCall → Type 0
  Permitted (mkdir place) = IsFree sys place
  Permitted (rmdir place) = IsFree sys place
  Permitted (run command) =
      (fs : FilesystemOptions) × (l : FsoptsList) × (place : Bytes) × (external : Bytes) × Asked fs
        l
      × IsFree sys place
      × (fs.external_fstype ≡ some external)
      × (command ≡ mount_line external path place (full_texts l))
  Permitted (mount source place fstype flags opts) =
      (fs : FilesystemOptions) × (l : FsoptsList) × Asked fs l
      × IsFree sys place
      × (fs.external_fstype ≡ none)
      × (fstype ≡ fs.fstype)
      × (source ≡ path)
      × (opts ≡ separated (string_texts l))
      × (flags ≡ (measured l).flags)
  Permitted (umount place) = ⊥

  abbrev pub ArePermitted : Outcome Request → Type 0
  ArePermitted (ok r) = All Permitted r.calls
  ArePermitted _ = Unit

  mount_device-Permitted :
      (fs : FilesystemOptions) (place : Bytes) (l : FsoptsList)
      → Asked fs l
      → IsFree sys place
      → All Permitted (mount_device sys path place fs l).1
  unfolding mount_device invoke_mount_external invoke_mount_internal
  mount_device-Permitted fs place l a f =
      let line =
        λ (external : Bytes). mount_command-mount_line external path place l a.nodev_text in
      let string = (fsopts_generate_string-fits 0 0 l).3 in
      option_cases (λ (r : ReturnCode × List SystemCall). All Permitted r.1) fs.external_fstype
        (λ e.
          if_both (λ (r : ReturnCode × List SystemCall). All Permitted r.1)
            (not sys.full_opts_memory) tt
            (if_both (λ (r : ReturnCode × List SystemCall). All Permitted r.1) (not sys.opts_memory)
              tt ((fs, l, a, f, e, refl, refl, string, refl), tt)))
        (λ external e.
          if_both (λ (r : ReturnCode × List SystemCall). All Permitted r.1) sys.command_memory
            ((fs, l, place, external, a, f, e, line external), tt) tt)

  finish_mount-Permitted :
      (place : Bytes) (before : List SystemCall) (done : ReturnCode × List SystemCall)
      → IsFree sys place
      → All Permitted before
      → All Permitted done.1
      → All Permitted (finish_mount place before done).calls
  unfolding finish_mount
  finish_mount-Permitted place before done f h k =
      if_both (λ (r : Request). All Permitted r.calls) (is_successful done.0)
        (All-append Permitted before done.1 h k)
        (All-append Permitted before (done.1 ++ rmdir place ∷ []) h
          (All-append Permitted done.1 (rmdir place ∷ []) k (f, tt)))

  mount_at-Permitted :
      (fs : FilesystemOptions) (place : Bytes) (l : FsoptsList)
      → Asked fs l
      → IsFree sys place
      → All Permitted (mount_at sys path fs l place).calls
  unfolding mount_at
  mount_at-Permitted fs place l a f =
      let done = mount_device sys path place fs l in
      let called = mount_device-Permitted fs place l a f in
      let there = finish_mount-Permitted place [] done f tt called in
      dir_cases (λ (r : Request). All Permitted r.calls) (sys.dir_state place)
        (if_both (λ (r : Request). All Permitted r.calls) (sys.mkdir_done place)
          (finish_mount-Permitted place (mkdir place ∷ []) done f (f, tt) called) (f, tt))
        there there

  mount_prepared-ArePermitted :
      (label : Option Bytes) (fs : FilesystemOptions) (l : FsoptsList)
      → Asked fs l
      → ArePermitted (mount_prepared sys c path label fs l)
  unfolding mount_prepared
  mount_prepared-ArePermitted label fs l a =
      let dir = or_else c.mount_dir internal_mount_dir in
      made (pick_point sys 2 0 dir path label c.mount_by_value)
        (pick_point-Picks sys 2 0 dir path label c.mount_by_value)
    where
      made :
          (p : Picked)
          → Picks sys p
          → ArePermitted (elim p [
            | again other ↦ out_of_fuel
            | refuse rc error_code ↦ ok (refusal rc error_code [])
            | picked place ↦ ok (mount_at sys path fs l place)
          ])
      made (again other) h = tt
      made (refuse rc code) h = tt
      made (picked place) h = mount_at-Permitted fs place l a h

  module _ (plain : (fstype : Bytes) → Unconfigured c.mandatory_mount_opts fstype) where
    mount_with-ArePermitted :
        (label : Option Bytes) (fs : FilesystemOptions) (p : Prepared)
        → ((l : FsoptsList) → p ≡ prepared l → Asked fs l)
        → ArePermitted (mount_with sys c path label fs p)
    mount_with-ArePermitted label fs (refused rc code) a = tt
    mount_with-ArePermitted label fs (prepared l) a =
        mount_prepared-ArePermitted label fs l (a l refl)

    mount_as-ArePermitted :
        (f : Found) (fstype : Bytes) (ids : ℕ × ℕ)
        → find_media path root_device_path root ≡ some f
        → f.info.fstype ≡ some fstype
        → f.info.mnt_point ≡ none
        → sys.credentials ≡ some ids
        → ArePermitted (mount_as sys c path f.info.label fstype mount_options ids)
    unfolding mount_as prepare_options
    mount_as-ArePermitted f fstype (uid, gid) a t n g =
        option_cases ArePermitted (get_fsopts_for_fs fstype) (λ e. tt)
          (λ fs e.
            mount_with-ArePermitted f.info.label fs
              (prepare_for_fs sys.asked_memory sys.forced_memory c.default_mount_opts
                c.mandatory_mount_opts fs mount_options uid gid)
              (λ l p.
                let sizes = fsopts_generate_string none none l in
                let whole : prepare_options sys.asked_memory sys.forced_memory c.default_mount_opts
                      c.mandatory_mount_opts fstype mount_options uid gid
                    ≡ prepared l =
                  rw (e, prepare_options) p in
                let flags =
                  prepare_options-IsRestricted sys.asked_memory sys.forced_memory
                    c.default_mount_opts c.mandatory_mount_opts fstype mount_options uid gid l
                    (some sizes.full_string.string_len) (some sizes.string.string_len)
                    (plain fstype) whole in
                let texts =
                  prepare_options-full_texts sys.asked_memory sys.forced_memory c.default_mount_opts
                    c.mandatory_mount_opts fstype mount_options uid gid l (plain fstype) whole in
                record {
                  found = f;
                  at_path = a;
                  not_mounted = n;
                  fstype = fstype;
                  fstype_is = t;
                  known = e;
                  ids = (uid, gid);
                  client = g;
                  options_are = p;
                  nodev_text = texts.0;
                  nosuid_text = texts.1;
                  distinct = texts.2;
                  nodev = flags.0;
                  nosuid = flags.1;
                }))

    -- Where the configuration has no mandatory options, whatever options a client asks for: each
    -- call that `invoke_mount` makes is to make or remove the directory of a place at which
    -- nothing is mounted, or to mount the device there, which is known and is not mounted, with
    -- the options that are prepared for its file system, of which `nodev` and `nosuid` are two,
    -- and no two are of one mount flag. If the file system has an external name, that call runs
    -- the line `mount -t NAME DEVICE 'PLACE' -o OPTIONS`, with the texts of all options and commas
    -- between them; if it has none, that call is `mount` with the texts of the options that are no
    -- flags, and with flags that have `nodev` and `nosuid`.
    pub invoke_mount-ArePermitted : ArePermitted (invoke_mount sys c root path mount_options)
    unfolding invoke_mount mount_found
    invoke_mount-ArePermitted =
        option_cases ArePermitted (find_media path root_device_path root) (λ e. tt)
          (λ f a.
            option_cases ArePermitted f.info.fstype (λ e. tt)
              (λ fstype e.
                option_cases ArePermitted f.info.mnt_point
                  (λ n.
                    option_cases ArePermitted sys.credentials (λ g. tt)
                      (λ ids g. mount_as-ArePermitted f fstype ids a e n g))
                  (λ point g. tt)))
