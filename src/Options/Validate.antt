-- ===== src/Options/Validate.antt =====
-- The validation functions of daemon/filesystem_opts.c, on the bytes of an option's value.
use dtmd.Common.{
  ℕ, Bool, true, false, ◌&&◌, ◌||◌, List, [], ◌∷◌, leb, ◌==◌, if◌then◌else◌, length, Bytes, codes,
  str_eq,
}
use dtmd.Misc.Types.{ReturnCode, success, fail}

abbrev pub result : Bool → ReturnCode
result passed = if passed then success else fail

-- The loops over the bytes of a value.
abbrev pub every : (ℕ → Bool) → Bytes → Bool
every test [] = true
every test (c ∷ s) = test c && every test s

abbrev pub is_digit : ℕ → Bool
is_digit c = leb b'0' c && leb c b'9'

abbrev pub is_octal_digit : ℕ → Bool
is_octal_digit c = leb b'0' c && leb c b'7'

abbrev pub is_alnum : ℕ → Bool
is_alnum c = is_digit c || leb b'a' c && leb c b'z' || leb b'A' c && leb c b'Z'

abbrev pub is_word_char : ℕ → Bool
is_word_char c = is_alnum c || c == b'-' || c == b'_'

unfoldable pub validate_is_single_int : Bytes → ReturnCode
validate_is_single_int (c ∷ []) = result (c == b'0' || c == b'1')
validate_is_single_int _ = fail

unfoldable pub validate_is_octal_number : Bytes → ReturnCode
validate_is_octal_number value = result (every is_octal_digit value)

unfoldable pub validate_is_access_mode : Bytes → ReturnCode
unfolding validate_is_octal_number
validate_is_access_mode [] = fail
validate_is_access_mode (c ∷ value) =
    if length value == 3 && c == b'0' then validate_is_octal_number value else fail

unfoldable pub validate_is_string : Bytes → ReturnCode
validate_is_string value = result (every is_word_char value)

unfoldable pub validate_is_decimal_number : Bytes → ReturnCode
validate_is_decimal_number value = result (every is_digit value)

-- Whether the value is one of the words; the code compares the length first.
abbrev pub one_of : List Bytes → Bytes → Bool
one_of [] value = false
one_of (word ∷ words) value = str_eq value word || one_of words value

unfoldable pub validate_vfat_is_shortname : Bytes → ReturnCode
unfolding str_eq
validate_vfat_is_shortname value =
    result (one_of (codes "lower" ∷ codes "win95" ∷ codes "winnt" ∷ codes "mixed" ∷ []) value)

unfoldable pub validate_vfat_is_check : Bytes → ReturnCode
unfolding str_eq
validate_vfat_is_check value = result (
    one_of
      (codes "r" ∷ codes "n" ∷ codes "s" ∷ codes "normal" ∷ codes "strict" ∷ codes "relaxed" ∷ [])
      value)

unfoldable pub validate_iso9660_is_block : Bytes → ReturnCode
unfolding str_eq
validate_iso9660_is_block value =
    result (one_of (codes "512" ∷ codes "1024" ∷ codes "2048" ∷ []) value)
