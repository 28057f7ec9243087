-- ===== src/Commands/Message.antt =====
-- The lines that the daemon writes, in the formats of daemon/actions.c.
use dtmd.Common.{Option, none, some, List, [], ◌∷◌, ◌++◌, length, Bytes, codes, decimal}
use dtmd.Misc.Types.{MediaType}
use dtmd.Misc.Names.{device_type_to_string, device_subtype_to_string, device_state_to_string}
use dtmd.Media.Tree.{MediaInfo}

-- `dt_helper_print_with_all_checks` under `"%d%s%s"`.
unfoldable pub print_with_all_checks : Option Bytes → Bytes
print_with_all_checks none = codes "-1"
print_with_all_checks (some []) = codes "0"
print_with_all_checks (some (c ∷ s)) = decimal 10 (length (c ∷ s)) ++ b' ' ∷ c ∷ s

unfoldable pub more_arguments : List (Option Bytes) → Bytes
unfolding print_with_all_checks
more_arguments [] = codes ")\n"
more_arguments (a ∷ arguments) = b',' ∷ b' ' ∷ print_with_all_checks a ++ more_arguments arguments

-- A name with its arguments in brackets.
unfoldable pub line : Bytes → List (Option Bytes) → Bytes
unfolding print_with_all_checks more_arguments
line name [] = name ++ codes "()\n"
line name (a ∷ arguments) = name ++ b'(' ∷ print_with_all_checks a ++ more_arguments arguments

-- The arguments of a device, and nothing for one of unknown type.
unfoldable pub device_arguments : Bytes → MediaInfo → Option (List (Option Bytes))
device_arguments parent_path i = elim i.media_type [
  | MediaType.device_partition ↦ some (
      some parent_path
      ∷ some i.path
      ∷ some (device_type_to_string i.media_type)
      ∷ i.fstype
      ∷ i.label
      ∷ i.mnt_point
      ∷ i.mnt_opts
      ∷ [])
  | MediaType.stateless_device ↦ some (
      some parent_path
      ∷ some i.path
      ∷ some (device_type_to_string i.media_type)
      ∷ some (device_subtype_to_string i.subtype)
      ∷ [])
  | MediaType.stateful_device ↦ some (
      some parent_path
      ∷ some i.path
      ∷ some (device_type_to_string i.media_type)
      ∷ some (device_subtype_to_string i.subtype)
      ∷ some (device_state_to_string i.state)
      ∷ i.fstype
      ∷ i.label
      ∷ i.mnt_point
      ∷ i.mnt_opts
      ∷ [])
  | MediaType.unknown_or_persistent ↦ none
]
