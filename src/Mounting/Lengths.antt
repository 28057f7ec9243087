-- ===== src/Mounting/Lengths.antt =====
-- The buffers of the commands have the lengths of what is written to them.
use dtmd.Common.{
  ◌+◌, ◌≡◌, sym, ap, ◌∙◌, arith, none, some, ◌++◌, length, length-append, ltb, Bool-cases, inl, inr,
  Bytes, codes,
}
use dtmd.Options.Types.{FsoptsList}
use dtmd.Options.Generate.{fsopts_generate_string}
use dtmd.Options.Strings.{fsopts_generate_string-Shows}
use dtmd.Mounting.Command.{mount_prefix, mount_flags_start, full_len, total_len, mount_command}
use dtmd.Mounting.Written.{generated-separated}
use dtmd.Mounting.Unmount.{unmount_command, unmount_cmd_len}

-- The string of the options has the length that was asked for before.
generated-full_len :
    (l : FsoptsList)
    → length (fsopts_generate_string (some (full_len l)) none l).full_string.buffer ≡ full_len l
generated-full_len l =
    ap length (generated-separated l) ∙ sym (fsopts_generate_string-Shows none none l).0.1

length-mount_prefix :
    (fstype path mount_path : Bytes)
    → length (mount_prefix fstype path mount_path)
      ≡ 5 + 4 + length fstype + 1 + length path + 2 + length mount_path + 1
unfolding mount_prefix
length-mount_prefix fstype path mount_path =
    let a = length-append mount_path (codes "'") in
    let b = length-append path (codes " '" ++ (mount_path ++ codes "'")) in
    let c =
      length-append fstype (codes " " ++ (path ++ (codes " '" ++ (mount_path ++ codes "'")))) in
    omega (arith, a, b, c)

length-mount_command :
    (fstype path mount_path : Bytes) (l : FsoptsList)
    → length (mount_command fstype path mount_path l) ≡ total_len fstype path mount_path l
unfolding mount_command total_len mount_flags_start
length-mount_command fstype path mount_path l =
    let prefix = mount_prefix fstype path mount_path in
    let text = (fsopts_generate_string (some (full_len l)) none l).full_string.buffer in
    let a = length-mount_prefix fstype path mount_path in
    let b = length-append prefix (codes " -o " ++ text) in
    let d = generated-full_len l in
    elim (Bool-cases (ltb 0 (full_len l))) [
      | inl y ↦ rw (y, mount_command, total_len, mount_flags_start) (omega (arith, a, b, d))
      | inr y ↦ rw (y, mount_command, total_len, mount_flags_start) (ground (arith, a, y))
    ]

length-unmount_command :
    (fstype mnt_point : Bytes)
    → length (unmount_command fstype mnt_point) ≡ unmount_cmd_len fstype mnt_point
unfolding unmount_command unmount_cmd_len
length-unmount_command fstype mnt_point =
    let a = length-append mnt_point (codes "\"") in
    let b = length-append fstype (codes " \"" ++ (mnt_point ++ codes "\"")) in omega (arith, a, b)

-- The texts of the two commands, with the string of the options, are exactly as long as what the
-- code calculates for their buffers.
pub commands-fill :
    (fstype path mount_path : Bytes) (l : FsoptsList)
    → (length (mount_command fstype path mount_path l) ≡ total_len fstype path mount_path l)
      × (length (unmount_command fstype mount_path) ≡ unmount_cmd_len fstype mount_path)
commands-fill fstype path mount_path l =
    (length-mount_command fstype path mount_path l, length-unmount_command fstype mount_path)
