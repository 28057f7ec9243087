-- ===== src/Label/Compare.antt =====
-- `compare_labels` of daemon/label.c. `ok tt` is `result_success`.
use dtmd.Common.{
  ℕ, zero, suc, ◌+◌, ◌/◌, ◌%◌, [], ◌∷◌, ltb, leb, ◌==◌, ◌&&◌, none, some, if◌then◌else◌, length,
  Bytes, Outcome, ok, failed, undefined, out_of_fuel, ◌>>=◌,
}
use dtmd.Label.Ctype.{is_literal, escape_letter, read_hex, read_octal}

-- The four tests on an octal escape of `k` in the decoded label, and what stands behind it.
unfoldable pub match_octal : ℕ → Bytes → Outcome Bytes
match_octal k (a ∷ x ∷ y ∷ z ∷ decoded) =
    if a == b'\\' && x == b'0' + k / 64 % 8 && y == b'0' + k / 8 % 8 && z == b'0' + k % 8
    then ok decoded
    else failed
match_octal k _ = failed

-- A `char` of the decoded label against a `char`.
unfoldable pub match_char : ℕ → Bytes → Outcome Bytes
match_char c [] = failed
match_char c (b ∷ decoded) = if b == c then ok decoded else failed

-- A `char` of the decoded label against an `int` that is not negative.
unfoldable pub match_int : ℕ → Bytes → Outcome Bytes
match_int k [] = failed
match_int k (b ∷ decoded) = if ltb b 128 && b == k then ok decoded else failed

unfoldable pub match_escape : Bytes → ℕ × Bytes → Outcome (Bytes × Bytes)
match_escape decoded (k, rest) = if ltb 255 k then undefined else do
  behind ← if is_literal k then match_int k decoded else match_octal k decoded
  ok (behind, rest)

-- The default case: a backslash, then the same byte.
unfoldable pub match_two : ℕ → Bytes → Bytes → Outcome (Bytes × Bytes)
match_two c rest decoded = do
  next ← match_char b'\\' decoded
  behind ← match_char c next
  ok (behind, rest)

-- The cases of the switch behind those of `escape_letter`.
unfoldable pub compare_other : Bytes → ℕ → Bytes → Outcome (Bytes × Bytes)
compare_other decoded c rest =
    if c == b'x'
    then read_hex rest >>= match_escape decoded
    else if leb b'0' c && leb c b'7'
    then read_octal c rest >>= match_escape decoded
    else match_two c rest decoded

-- The switch, on the byte behind a backslash of the encoded label.
unfoldable pub compare_escape : Bytes → ℕ → Bytes → Outcome (Bytes × Bytes)
compare_escape decoded c rest = elim (escape_letter c) [
  | some v ↦ do behind ← match_octal v decoded; ok (behind, rest)
  | none ↦ compare_other decoded c rest
]

unfoldable pub compare_backslash : Bytes → Bytes → Outcome (Bytes × Bytes)
compare_backslash decoded [] = failed
compare_backslash decoded (c ∷ rest) = compare_escape decoded c rest

-- One round of the loop: both labels behind what it read.
unfoldable pub compare_round : Bytes → ℕ → Bytes → Outcome (Bytes × Bytes)
compare_round decoded c rest = if c == b'\\' then compare_backslash decoded rest else do
  behind ← if is_literal c then match_char c decoded else match_octal c decoded
  ok (behind, rest)

unfoldable pub compare_loop : ℕ → Bytes → Bytes → Outcome (Unit {0})
compare_loop fuel [] [] = ok tt
compare_loop fuel (d ∷ decoded) [] = failed
compare_loop zero decoded (c ∷ rest) = out_of_fuel
compare_loop (suc fuel) decoded (c ∷ rest) = do
  (decoded', behind) ← compare_round decoded c rest
  compare_loop fuel decoded' behind

unfoldable pub compare_labels : Bytes → Bytes → Outcome (Unit {0})
compare_labels decoded encoded = compare_loop (length encoded) decoded encoded
