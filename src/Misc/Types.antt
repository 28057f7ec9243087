-- ===== src/Misc/Types.antt =====
-- The enumerations of dtmd.h.in, and the return codes of daemon/return_codes.h.
use dtmd.Common.{Bool, true, false}

pub data MediaType : Type 0 where
  unknown_or_persistent device_partition stateless_device stateful_device : MediaType

pub data MediaSubtype : Type 0 where
  unknown_or_persistent removable_disk sd_card cdrom : MediaSubtype

pub data MediaState : Type 0 where
  unknown empty clear all_right : MediaState

pub data ErrorCode : Type 0 where
  unknown generic_error no_such_removable_device fstype_not_recognized : ErrorCode
  unsupported_fstype device_already_mounted device_not_mounted : ErrorCode
  failed_parsing_mount_options mount_point_busy : ErrorCode

pub data ReturnCode : Type 0 where
  success fail client_error fatal_error bug : ReturnCode

-- `is_result_successful`
abbrev pub is_successful : ReturnCode → Bool
is_successful success = true
is_successful _ = false

-- `is_result_fatal_error`: the codes below zero.
abbrev pub is_fatal_error : ReturnCode → Bool
is_fatal_error success = false
is_fatal_error fail = false
is_fatal_error _ = true
