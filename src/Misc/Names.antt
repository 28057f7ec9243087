-- ===== src/Misc/Names.antt =====
-- The conversions of library/dtmd-misc.c between the enumerations and their names. A `char*` that
-- may be NULL is an `Option`.
use dtmd.Common.{Option, none, some, Bytes, codes, str_eq, if◌then◌else◌}
use dtmd.Misc.Types.{MediaType, MediaSubtype, MediaState, ErrorCode}

unfoldable pub device_type_to_string : MediaType → Bytes
device_type_to_string MediaType.device_partition = codes "device partition"
device_type_to_string MediaType.stateless_device = codes "stateless device"
device_type_to_string MediaType.stateful_device = codes "stateful device"
device_type_to_string MediaType.unknown_or_persistent = codes "unknown"

unfoldable pub string_to_device_type : Option Bytes → MediaType
string_to_device_type (some s) =
    if str_eq s (codes "device partition")
    then MediaType.device_partition
    else if str_eq s (codes "stateless device")
    then MediaType.stateless_device
    else if str_eq s (codes "stateful device")
    then MediaType.stateful_device
    else MediaType.unknown_or_persistent
string_to_device_type none = MediaType.unknown_or_persistent

unfoldable pub device_subtype_to_string : MediaSubtype → Bytes
device_subtype_to_string MediaSubtype.cdrom = codes "cdrom"
device_subtype_to_string MediaSubtype.removable_disk = codes "removable disk"
device_subtype_to_string MediaSubtype.sd_card = codes "sdcard"
device_subtype_to_string MediaSubtype.unknown_or_persistent = codes "unknown"

unfoldable pub string_to_device_subtype : Option Bytes → MediaSubtype
string_to_device_subtype (some s) =
    if str_eq s (codes "cdrom")
    then MediaSubtype.cdrom
    else if str_eq s (codes "removable disk")
    then MediaSubtype.removable_disk
    else if str_eq s (codes "sdcard")
    then MediaSubtype.sd_card
    else MediaSubtype.unknown_or_persistent
string_to_device_subtype none = MediaSubtype.unknown_or_persistent

unfoldable pub device_state_to_string : MediaState → Bytes
device_state_to_string MediaState.empty = codes "empty"
device_state_to_string MediaState.clear = codes "clear"
device_state_to_string MediaState.all_right = codes "ok"
device_state_to_string MediaState.unknown = codes "unknown"

unfoldable pub string_to_device_state : Option Bytes → MediaState
string_to_device_state (some s) =
    if str_eq s (codes "empty")
    then MediaState.empty
    else if str_eq s (codes "clear")
    then MediaState.clear
    else if str_eq s (codes "ok")
    then MediaState.all_right
    else MediaState.unknown
string_to_device_state none = MediaState.unknown

unfoldable pub error_code_to_string : ErrorCode → Bytes
error_code_to_string ErrorCode.generic_error = codes "generic error"
error_code_to_string ErrorCode.no_such_removable_device = codes "no such removable device"
error_code_to_string ErrorCode.fstype_not_recognized = codes "fstype not recognized"
error_code_to_string ErrorCode.unsupported_fstype = codes "unsupported fstype"
error_code_to_string ErrorCode.device_already_mounted = codes "device already mounted"
error_code_to_string ErrorCode.device_not_mounted = codes "device not mounted"
error_code_to_string ErrorCode.failed_parsing_mount_options = codes "failed parsing mount options"
error_code_to_string ErrorCode.mount_point_busy = codes "mount point busy"
error_code_to_string ErrorCode.unknown = codes "unknown"

unfoldable pub string_to_error_code : Option Bytes → ErrorCode
string_to_error_code (some s) =
    if str_eq s (codes "generic error")
    then ErrorCode.generic_error
    else if str_eq s (codes "no such removable device")
    then ErrorCode.no_such_removable_device
    else if str_eq s (codes "fstype not recognized")
    then ErrorCode.fstype_not_recognized
    else if str_eq s (codes "unsupported fstype")
    then ErrorCode.unsupported_fstype
    else if str_eq s (codes "device already mounted")
    then ErrorCode.device_already_mounted
    else if str_eq s (codes "device not mounted")
    then ErrorCode.device_not_mounted
    else if str_eq s (codes "failed parsing mount options")
    then ErrorCode.failed_parsing_mount_options
    else if str_eq s (codes "mount point busy")
    then ErrorCode.mount_point_busy
    else ErrorCode.unknown
string_to_error_code none = ErrorCode.unknown
