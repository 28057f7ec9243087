-- ===== src/Misc/RoundTrip.antt =====
-- Names read back as what they name, and only they do.
use dtmd.Common.{◌≡◌, ◌≢◌, refl, none, some, arith, Bytes, Option, str_eq, str_eq_iff, codes}
use dtmd.Misc.Types.{MediaType, MediaSubtype, MediaState, ErrorCode}
use dtmd.Misc.Names.{
  device_type_to_string, string_to_device_type, device_subtype_to_string, string_to_device_subtype,
  device_state_to_string, string_to_device_state, error_code_to_string, string_to_error_code,
}

type_names : (t : MediaType) → string_to_device_type (some (device_type_to_string t)) ≡ t
unfolding string_to_device_type device_type_to_string str_eq
type_names MediaType.device_partition = refl
type_names _ = refl

subtype_names :
    (t : MediaSubtype) → string_to_device_subtype (some (device_subtype_to_string t)) ≡ t
unfolding string_to_device_subtype device_subtype_to_string str_eq
subtype_names MediaSubtype.cdrom = refl
subtype_names _ = refl

state_names : (t : MediaState) → string_to_device_state (some (device_state_to_string t)) ≡ t
unfolding string_to_device_state device_state_to_string str_eq
state_names MediaState.empty = refl
state_names _ = refl

error_names : (c : ErrorCode) → string_to_error_code (some (error_code_to_string c)) ≡ c
unfolding string_to_error_code error_code_to_string str_eq
error_names ErrorCode.unknown = refl
error_names _ = refl

-- The name of each type, subtype, state and error code reads back as that value.
pub names_read_back :
    (t : MediaType) (u : MediaSubtype) (s : MediaState) (c : ErrorCode)
    → (string_to_device_type (some (device_type_to_string t)) ≡ t)
      × (string_to_device_subtype (some (device_subtype_to_string u)) ≡ u)
      × (string_to_device_state (some (device_state_to_string s)) ≡ s)
      × (string_to_error_code (some (error_code_to_string c)) ≡ c)
names_read_back t u s c = (type_names t, subtype_names u, state_names s, error_names c)

-- A string that reads as an error code other than `unknown` is the name of that code.
pub error_code_name :
    (s : Option Bytes)
    → string_to_error_code s ≢ ErrorCode.unknown
    → s ≡ some (error_code_to_string (string_to_error_code s))
unfolding string_to_error_code error_code_to_string
error_code_name none h = absurd (h refl)
error_code_name (some s) h = ground (
  arith,
  str_eq_iff s (codes "generic error"),
  str_eq_iff s (codes "no such removable device"),
  str_eq_iff s (codes "fstype not recognized"),
  str_eq_iff s (codes "unsupported fstype"),
  str_eq_iff s (codes "device already mounted"),
  str_eq_iff s (codes "device not mounted"),
  str_eq_iff s (codes "failed parsing mount options"),
  str_eq_iff s (codes "mount point busy"),
)
