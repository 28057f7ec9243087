-- ===== src/Mounting/Command.antt =====
-- `invoke_mount_external` and `invoke_mount_internal`.
use dtmd.Common.{
  ℕ, ◌+◌, not, none, some, List, [], ◌∷◌, ◌++◌, ◌==◌, ltb, if◌then◌else◌, length, Bytes, codes,
  ◌||◌,
}
use dtmd.Misc.Types.{ReturnCode, success, fail, fatal_error}
use dtmd.Options.Types.{FilesystemOptions, FsoptsList}
use dtmd.Options.Generate.{fsopts_generate_string}
use dtmd.Options.Strings.{measured}
use dtmd.Mounting.System.{System, SystemCall, run, mount}

-- The texts that `strcat` writes.
unfoldable pub mount_prefix : Bytes → Bytes → Bytes → Bytes
mount_prefix fstype path mount_path =
    codes "mount"
    ++ (codes " -t "
        ++ (fstype ++ (codes " " ++ (path ++ (codes " '" ++ (mount_path ++ codes "'"))))))

-- The lengths that the code calculates.
unfoldable pub mount_flags_start : Bytes → Bytes → Bytes → ℕ → ℕ
mount_flags_start fstype path mount_path string_full_len =
    let start =
      length (codes "mount")
      + length (codes " -t ")
      + length fstype
      + 1
      + length path
      + 2
      + length mount_path
      + 1 in
    if ltb 0 string_full_len then start + length (codes " -o ") else start

abbrev pub full_len : FsoptsList → ℕ
full_len l = (fsopts_generate_string none none l).full_string.string_len

unfoldable pub total_len : Bytes → Bytes → Bytes → FsoptsList → ℕ
total_len fstype path mount_path l =
    mount_flags_start fstype path mount_path (full_len l) + full_len l

unfoldable pub mount_command : Bytes → Bytes → Bytes → FsoptsList → Bytes
mount_command fstype path mount_path l =
    if ltb 0 (full_len l)
    then mount_prefix fstype path mount_path
      ++ (codes " -o " ++ (fsopts_generate_string (some (full_len l)) none l).full_string.buffer)
    else mount_prefix fstype path mount_path

-- The cases 16 and 0 of the status.
unfoldable pub status_code : ℕ → ReturnCode
status_code status = if status == 16 || status == 0 then success else fail

unfoldable pub invoke_mount_external :
    System → Bytes → Bytes → Bytes → FsoptsList → ReturnCode × List SystemCall
invoke_mount_external sys path mount_path fstype l =
    let command = mount_command fstype path mount_path l in
    if sys.command_memory
    then (status_code (sys.status command), run command ∷ [])
    else (fatal_error, [])

unfoldable pub invoke_mount_internal :
    System → Bytes → Bytes → Bytes → FsoptsList → ReturnCode × List SystemCall
invoke_mount_internal sys path mount_path fstype l =
    if not sys.full_opts_memory
    then (fatal_error, [])
    else if not sys.opts_memory
    then (fatal_error, [])
    else (
      (if sys.mount_done then success else fail),
      mount path mount_path fstype (measured l).flags (measured l).string.buffer ∷ [],
    )

-- By the kind of the file system.
unfoldable pub mount_device :
    System → Bytes → Bytes → FilesystemOptions → FsoptsList → ReturnCode × List SystemCall
mount_device sys path mount_path fs l = elim fs.external_fstype [
  | some fstype ↦ invoke_mount_external sys path mount_path fstype l
  | none ↦ invoke_mount_internal sys path mount_path fs.fstype l
]
