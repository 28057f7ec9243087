-- ===== src/Label/Ctype.antt =====
-- The ctype functions of the C locale on bytes, and the parts that `decode_label` and
-- `compare_labels` of daemon/label.c share.
use dtmd.Common.{
  ℕ, ◌+◌, ◌-◌, ◌*◌, ◌/◌, ◌%◌, Bool, not, ◌&&◌, ◌||◌, Option, none, some, [], ◌∷◌, ltb, leb, ◌==◌,
  if◌then◌else◌, Bytes, Outcome, ok, failed, ◌>>=◌,
}

abbrev pub within : ℕ → ℕ → ℕ → Bool
within lo hi c = leb lo c && leb c hi

unfoldable pub iscntrl : ℕ → Bool
iscntrl c = ltb c 32 || c == 127

unfoldable pub ispunct : ℕ → Bool
ispunct c = within 33 47 c || within 58 64 c || within 91 96 c || within 123 126 c

unfoldable pub isxdigit : ℕ → Bool
isxdigit c = within b'0' b'9' c || within b'a' b'f' c || within b'A' b'F' c

unfoldable pub tolower : ℕ → ℕ
tolower c = if within b'A' b'Z' c then c + 32 else c

-- The test under which a byte is kept as it is; `allowed_extra_chars_list` is a space.
unfoldable pub is_literal : ℕ → Bool
unfolding iscntrl ispunct
is_literal k = not (iscntrl k) && not (ispunct k) || not (k == 0) && k == b' '

-- The four bytes of an octal escape of `k`.
unfoldable pub octal : ℕ → Bytes
octal k = b'\\' ∷ (b'0' + k / 64 % 8) ∷ (b'0' + k / 8 % 8) ∷ (b'0' + k % 8) ∷ []

-- The cases of the switch that stand for one byte each.
unfoldable pub escape_letter : ℕ → Option ℕ
escape_letter c =
    if c == b'a'
    then some 7
    else if c == b'b'
    then some 8
    else if c == b'f'
    then some 12
    else if c == b'n'
    then some 10
    else if c == b'r'
    then some 13
    else if c == b't'
    then some 9
    else if c == b'\\' || c == 39 || c == 34
    then some c
    else none

-- One round of the loop over the digits of `\xdd`.
unfoldable pub hex_digit : ℕ → Outcome ℕ
unfolding isxdigit tolower
hex_digit c =
    if not (isxdigit c)
    then failed
    else if leb b'0' c && leb c b'9'
    then ok (c - b'0')
    else ok (tolower c - b'a' + 10)

unfoldable pub read_hex : Bytes → Outcome (ℕ × Bytes)
unfolding hex_digit
read_hex (h ∷ l ∷ rest) = do a ← hex_digit h; b ← hex_digit l; ok (a * 16 + b, rest)
read_hex (h ∷ []) = do a ← hex_digit h; failed
read_hex [] = failed

unfoldable pub octal_digit : ℕ → Outcome ℕ
octal_digit c = if ltb c b'0' || ltb b'7' c then failed else ok (c - b'0')

-- The first of the three digits is the byte that the switch is on.
unfoldable pub read_octal : ℕ → Bytes → Outcome (ℕ × Bytes)
unfolding octal_digit
read_octal c (d ∷ e ∷ rest) = do
  x ← octal_digit c
  y ← octal_digit d
  z ← octal_digit e
  ok ((x * 8 + y) * 8 + z, rest)
read_octal c _ = failed
