-- ===== src/Config/Scan.antt =====
-- `read_config` of daemon/config_file.c: the scan of a line, and the loop over the lines.
use dtmd.Common.{
  take_bytes, drop_bytes, ℕ, suc, ◌-◌, Bool, true, false, not, ◌&&◌, ◌||◌, Option, none, some, List,
  [], ◌∷◌, leb, ◌==◌, if◌then◌else◌, Bytes,
}
use dtmd.Misc.Types.{success}
use dtmd.Config.Values.{Config, ConfigAllocator, process_config_value}

-- The variables of a line; a place that is not set is -1 in the code.
pub record Scan : Type 0 where
  pub inside_quotes : Bool
  pub key_start : Option ℕ
  pub key_end : Option ℕ
  pub equal_start : Option ℕ
  pub value_start : Option ℕ
  pub value_end : Option ℕ

abbrev pub blank_scan : Scan
blank_scan = record {
  inside_quotes = false;
  key_start = none;
  key_end = none;
  equal_start = none;
  value_start = none;
  value_end = none;
}

-- What a byte leads to: an error on the line, the end of the scan, or the next byte.
pub data Next : Type 0 where
  bad : Next
  stop go : Scan → Next

abbrev pub is_set : Option ℕ → Bool
is_set none = false
is_set (some i) = true

unfoldable pub is_alphanumeric : ℕ → Bool
is_alphanumeric c = leb b'0' c && leb c b'9' || leb b'A' c && leb c b'Z' || leb b'a' c && leb c b'z'

-- The bytes that may stand in a key or a value, but for the quotation mark.
unfoldable pub is_plain : ℕ → Bool
unfolding is_alphanumeric
is_plain c = is_alphanumeric c || c == b'_' || c == b'-' || c == b'.' || c == b'/'

-- The bytes of a key or a value.
unfoldable pub is_text : Bool → ℕ → Bool
is_text inside c = is_plain c || c == b'"' || inside && (c == b',' || c == b'=')

unfoldable pub quotes_after : Bool → ℕ → Bool
quotes_after inside c = if c == b'"' then not inside else inside

unfoldable pub scan_text : ℕ → Scan → Next
scan_text i s =
    if not (is_set s.key_start)
    then go (record s { key_start = some i })
    else if not (is_set s.key_end)
    then go s
    else if is_set s.equal_start && not (is_set s.value_start)
    then go (record s { value_start = some i })
    else if is_set s.value_start && not (is_set s.value_end)
    then go s
    else bad

unfoldable pub scan_equal : ℕ → Scan → Next
scan_equal i s =
    if is_set s.key_start && not (is_set s.equal_start)
    then go (record s {
      equal_start = some i;
      key_end = if is_set s.key_end then s.key_end else some i;
    })
    else bad

-- A blank or the sign of a comment ends the key or the value.
unfoldable pub close_text : ℕ → Scan → Scan
close_text i s =
    if is_set s.key_start && not (is_set s.key_end)
    then record s { key_end = some i }
    else if is_set s.value_start && not (is_set s.value_end)
    then record s { value_end = some i }
    else s

unfoldable pub scan_newline : ℕ → Scan → Next
scan_newline i s =
    if is_set s.value_start && not (is_set s.value_end)
    then go (record s { value_end = some i })
    else if is_set s.value_start
    then bad
    else go s

-- The body of the loop over the bytes of a line.
unfoldable pub scan_byte : ℕ → ℕ → Scan → Next
scan_byte i c s =
    if is_text s.inside_quotes c
    then scan_text i (record s { inside_quotes = quotes_after s.inside_quotes c })
    else if c == b'='
    then scan_equal i s
    else if c == b'#'
    then stop (close_text i s)
    else if c == b' ' || c == 9
    then go (close_text i s)
    else if c == 10
    then scan_newline i s
    else bad

unfoldable pub scan_bytes : ℕ → Bytes → Scan → Option Scan
scan_bytes i [] s = some s
scan_bytes i (c ∷ line) s = elim (scan_byte i c s) [
  | bad ↦ none
  | stop t ↦ some t
  | go t ↦ scan_bytes (suc i) line t
]

-- The text between two places of a line.
abbrev pub slice : ℕ → ℕ → Bytes → Bytes
slice from to line = take_bytes (to - from) (drop_bytes from line)

-- The setting on a line, if the scan has found one.
unfoldable pub slice_of : Option ℕ → Option ℕ → Bytes → Bytes
slice_of (some from) (some to) line = slice from to line
slice_of _ _ line = []

unfoldable pub setting : Bytes → Scan → Option (Bytes × Bytes)
setting line s = elim s.value_end [
  | none ↦ none
  | some i ↦ some (slice_of s.key_start s.key_end line, slice_of s.value_start (some i) line)
]

-- What a line says: nothing, a setting, or an error.
pub data Line : Type 0 where
  wrong : Line
  empty : Line
  sets : Bytes → Bytes → Line

unfoldable pub line_of : Bytes → Option Scan → Line
line_of line none = wrong
line_of line (some s) = elim (setting line s) [ none ↦ empty | some (key, value) ↦ sets key value ]

unfoldable pub scan_line : Bytes → Line
scan_line line = line_of line (scan_bytes 0 line blank_scan)

-- The lines of a file, each with the newline that ends it.
unfoldable pub lines : Bytes → List Bytes
lines [] = []
lines (c ∷ file) =
    let rest = lines file in
    if c == 10
    then (c ∷ []) ∷ rest
    else elim rest [ [] ↦ (c ∷ []) ∷ [] | line ∷ others ↦ (c ∷ line) ∷ others ]

-- `read_config_return_ok`, `read_config_return_no_file`, and the number of a line with an error.
pub data ReadConfig : Type 0 where
  read_ok : ReadConfig
  no_file : ReadConfig
  error_on : ℕ → ReadConfig

-- The answers of the allocator at each line.
unfoldable pub read_lines : (ℕ → ConfigAllocator) → ℕ → List Bytes → Config → ReadConfig × Config
read_lines alloc line_num [] c = (read_ok, c)
read_lines alloc line_num (line ∷ file) c = elim (scan_line line) [
  | wrong ↦ (error_on (suc line_num), c)
  | empty ↦ read_lines alloc (suc line_num) file c
  | sets key value ↦
      let done = process_config_value (alloc (suc line_num)) key value c in
      elim done.0 [
        | success ↦ read_lines alloc (suc line_num) file done.1
        | failure ↦ (error_on (suc line_num), done.1)
      ]
]

-- `none` is a file that cannot be opened.
unfoldable pub read_config : (ℕ → ConfigAllocator) → Option Bytes → Config → ReadConfig × Config
read_config alloc none c = (no_file, c)
read_config alloc (some file) c = read_lines alloc 0 (lines file) c
