-- ===== src/Commands/Supported.antt =====
-- `invoke_list_supported_filesystems` and `invoke_list_supported_filesystem_options` of
-- daemon/filesystem_opts.c, in the Linux build with external mounts.
use dtmd.Common.{
  Bool, true, false, ◌&&◌, Option, none, some, List, [], ◌∷◌, ◌++◌, if◌then◌else◌, length, Bytes,
  codes, decimal,
}
use dtmd.Misc.Types.{success, fail, unsupported_fstype}
use dtmd.Misc.Names.{error_code_to_string}
use dtmd.Options.Types.{MountOption, FilesystemOptions}
use dtmd.Options.Tables.{filesystem_mount_options}
use dtmd.Options.Convert.{get_fsopts_for_fs}
use dtmd.Commands.Message.{print_with_all_checks}
use dtmd.Commands.Wire.{Wire, Sent, dprintf, and_then}
use dtmd.Commands.Invoke.{
  started, finished, failed, list_supported_filesystems, list_supported_filesystem_options,
}

abbrev pub supported_filesystems_list : Bytes
supported_filesystems_list = codes "supported_filesystems_list"

abbrev pub supported_filesystem_options_list : Bytes
supported_filesystem_options_list = codes "supported_filesystem_options_list"

-- `"%zu %s"` with the length of a text and the text.
unfoldable pub sized : Bytes → Bytes
sized text = decimal 10 (length text) ++ b' ' ∷ text

-- The name of a command and its argument, if it has one, in brackets.
unfoldable pub bracketed : Bytes → Option Bytes → Bytes
bracketed name none = codes "(" ++ (sized name ++ codes ")\n")
bracketed name (some argument) =
    codes "(" ++ (sized name ++ (codes ", " ++ (sized argument ++ codes ")\n")))

-- The loops, with the flag for the first item.
unfoldable pub write_items : Wire → Bool → List Bytes → List Bytes → Sent
write_items wire first [] sent = (success, sent)
write_items wire first (name ∷ names) sent =
    and_then
      (and_then (if first then (success, sent) else dprintf wire (codes ", ") sent)
        (λ s. dprintf wire (sized name) s))
      (λ s. write_items wire false names s)

abbrev pub names_of : List MountOption → List Bytes
names_of [] = []
names_of (o ∷ options) = o.option ∷ names_of options

abbrev pub is_nil {ℓ} : {A : Type ℓ} → List A → Bool
is_nil [] = true
is_nil (x ∷ xs) = false

unfoldable pub write_lists : Wire → Bool → List (List MountOption) → List Bytes → Sent
write_lists wire first [] sent = (success, sent)
write_lists wire first (options ∷ lists) sent =
    and_then (write_items wire first (names_of options) sent)
      (λ s. write_lists wire (first && is_nil options) lists s)

unfoldable pub open_list : Bytes → Option Bytes → Bytes → Bytes
open_list command argument name = started ++ (bracketed command argument ++ (name ++ codes "("))

unfoldable pub close_list : Bytes → Option Bytes → Bytes
close_list command argument = codes ")\n" ++ (finished ++ bracketed command argument)

abbrev pub fstypes : List FilesystemOptions → List Bytes
fstypes [] = []
fstypes (fs ∷ table) = fs.fstype ∷ fstypes table

unfoldable pub invoke_list_supported_filesystems : Wire → List Bytes → Sent
invoke_list_supported_filesystems wire sent =
    and_then
      (and_then
        (dprintf wire (open_list list_supported_filesystems none supported_filesystems_list) sent)
        (λ s. write_items wire true (fstypes filesystem_mount_options) s))
      (λ s. dprintf wire (close_list list_supported_filesystems none) s)

unfoldable pub refuse_filesystem : Bytes → Bytes
refuse_filesystem filesystem =
    failed
    ++ (codes "("
        ++ (sized list_supported_filesystem_options
            ++ (codes ", "
                ++ (sized filesystem
                    ++ (codes ", "
                        ++ (print_with_all_checks (some (error_code_to_string unsupported_fstype))
                            ++ codes ")\n"))))))

unfoldable pub invoke_list_supported_filesystem_options : Wire → Bytes → List Bytes → Sent
invoke_list_supported_filesystem_options wire filesystem sent =
    elim (get_fsopts_for_fs filesystem) [
      | none ↦ and_then (dprintf wire (refuse_filesystem filesystem) sent) (λ s. (fail, s))
      | some fs ↦
          and_then
            (and_then
              (dprintf wire
                (open_list list_supported_filesystem_options (some filesystem)
                  supported_filesystem_options_list)
                sent)
              (λ s. write_lists wire true fs.options s))
            (λ s. dprintf wire (close_list list_supported_filesystem_options (some filesystem)) s)
    ]
