-- ===== src/Tests/Labels.antt =====
-- Labels and names.
use dtmd.Common.{
  ◌≡◌, ◌≢◌, ◌+◌, ◌*◌, ◌≤◌, ◌↔◌, refl, arith, [], ◌∷◌, some, length, Bytes, codes, ok, failed,
  out_of_fuel,
}
use dtmd.Label.Ctype.{
  is_literal, octal, escape_letter, hex_digit, read_hex, octal_digit, read_octal,
}
use dtmd.Label.Decode.{
  emit, emit_escape, decode_other, decode_escape, decode_backslash, decode_round, decode_loop,
  decode_label,
}
use dtmd.Label.Compare.{
  match_octal, match_char, match_int, match_escape, compare_other, compare_escape,
  compare_backslash, compare_round, compare_loop, compare_labels,
}
use dtmd.Label.Agreement.{compare_labels-decode_label}
use dtmd.Label.Acceptance.{IsAscii, compare_labels_iff}
use dtmd.Label.Bounds.{length-decode_label, decode_label_total}
use dtmd.Label.Slashes.{NoEscapedSlash}
use dtmd.Label.Ends.{compare_labels_total}
use dtmd.Label.HighBytes.{high_escape_refused}
use dtmd.Misc.Types.{MediaType, MediaSubtype, MediaState, ErrorCode}
use dtmd.Misc.Names.{
  device_type_to_string, string_to_device_type, device_subtype_to_string, string_to_device_subtype,
  device_state_to_string, string_to_device_state, error_code_to_string, string_to_error_code,
}
use dtmd.Misc.RoundTrip.{names_read_back}

abbrev encoded : Bytes
encoded = codes "My\\x20disk/1\\t"

abbrev decoded : Bytes
decoded = codes "My disk\\0571\\011"

decode_encoded : decode_label encoded ≡ ok decoded
unfolding decode_label decode_loop decode_round decode_backslash decode_escape decode_other
    escape_letter read_hex hex_digit emit_escape emit is_literal octal
decode_encoded = refl

compare_encoded : compare_labels decoded encoded ≡ ok tt
unfolding compare_labels compare_loop compare_round compare_backslash compare_escape compare_other
    match_escape match_octal match_char match_int escape_letter read_hex hex_digit is_literal
compare_encoded = refl

decode_refusals :
    (decode_label (codes "a\\") ≡ failed)
    × (decode_label (codes "a\\x1") ≡ failed)
    × (decode_label (codes "\\08") ≡ failed)
unfolding decode_label decode_loop decode_round decode_backslash decode_escape decode_other
    escape_letter read_hex hex_digit read_octal octal_digit emit_escape emit is_literal octal
decode_refusals = (refl, refl, refl)

compare_labels-decode_label_example : decode_label encoded ≡ ok decoded
compare_labels-decode_label_example = compare_labels-decode_label decoded encoded compare_encoded

decoded-IsAscii : IsAscii decoded
decoded-IsAscii = omega arith

compare_labels_iff_example :
    (compare_labels decoded encoded ≡ ok tt) ↔ (decode_label encoded ≡ ok decoded)
compare_labels_iff_example = compare_labels_iff decoded encoded decoded-IsAscii

length-decode_label_example : length decoded + 1 ≤ length encoded * 4 + 1
length-decode_label_example = length-decode_label encoded decoded decode_encoded

decode_label_total_example : decode_label encoded ≢ out_of_fuel
decode_label_total_example = decode_label_total encoded

compare_labels_total_example : compare_labels decoded encoded ≢ out_of_fuel
compare_labels_total_example = compare_labels_total decoded encoded

encoded-NoEscapedSlash : NoEscapedSlash encoded
encoded-NoEscapedSlash = ground arith

high_hex : hex_digit b'f' ≡ ok 15
unfolding hex_digit
high_hex = refl

high_escape_refused_example :
    (decode_label (codes "\\xff") ≡ ok (255 ∷ []))
    × (compare_labels (255 ∷ []) (codes "\\xff") ≡ failed)
high_escape_refused_example = high_escape_refused b'f' b'f' 15 15 high_hex high_hex (omega arith)

names_read_back_example :
    (string_to_device_type (some (device_type_to_string MediaType.device_partition))
      ≡ MediaType.device_partition)
    × (string_to_device_subtype (some (device_subtype_to_string MediaSubtype.cdrom))
        ≡ MediaSubtype.cdrom)
    × (string_to_device_state (some (device_state_to_string MediaState.clear)) ≡ MediaState.clear)
    × (string_to_error_code (some (error_code_to_string ErrorCode.mount_point_busy))
        ≡ ErrorCode.mount_point_busy)
names_read_back_example =
    names_read_back MediaType.device_partition MediaSubtype.cdrom MediaState.clear
      ErrorCode.mount_point_busy
