-- ===== src/Label/Decode.antt =====
-- `decode_label` of daemon/label.c.
use dtmd.Common.{
  ℕ, zero, suc, [], ◌∷◌, ◌++◌, ltb, leb, ◌==◌, ◌&&◌, none, some, if◌then◌else◌, length, Bytes,
  Outcome, ok, failed, undefined, out_of_fuel, ◌>>=◌, >>=-eq-ok, ◌≡◌, arith,
}
use dtmd.Label.Ctype.{is_literal, octal, escape_letter, read_hex, read_octal}

-- What is written for the value of a numeric escape, or for a byte outside of escapes.
unfoldable pub emit : ℕ → Bytes
emit k = if is_literal k then k ∷ [] else octal k

-- The bytes written for a numeric escape, with the bytes behind it.
unfoldable pub emit_escape : ℕ × Bytes → Outcome (Bytes × Bytes)
emit_escape (k, rest) = if ltb 255 k then undefined else ok (emit k, rest)

-- The cases of the switch behind those of `escape_letter`.
unfoldable pub decode_other : ℕ → Bytes → Outcome (Bytes × Bytes)
decode_other c rest =
    if c == b'x'
    then read_hex rest >>= emit_escape
    else if leb b'0' c && leb c b'7'
    then read_octal c rest >>= emit_escape
    else ok (b'\\' ∷ c ∷ [], rest)

-- The switch, on the byte behind a backslash.
unfoldable pub decode_escape : ℕ → Bytes → Outcome (Bytes × Bytes)
decode_escape c rest = elim (escape_letter c) [
  | some v ↦ ok (octal v, rest)
  | none ↦ decode_other c rest
]

-- A backslash at the end of the label is refused.
unfoldable pub decode_backslash : Bytes → Outcome (Bytes × Bytes)
decode_backslash [] = failed
decode_backslash (c ∷ rest) = decode_escape c rest

-- One round of the loop: the bytes that it writes, and the label behind what it read.
unfoldable pub decode_round : ℕ → Bytes → Outcome (Bytes × Bytes)
decode_round c rest = if c == b'\\' then decode_backslash rest else ok (emit c, rest)

unfoldable pub decode_loop : ℕ → Bytes → Outcome Bytes
decode_loop fuel [] = ok []
decode_loop zero (c ∷ rest) = out_of_fuel
decode_loop (suc fuel) (c ∷ rest) = do
  (written, behind) ← decode_round c rest
  tail ← decode_loop fuel behind
  ok (written ++ tail)

-- Every round reads a byte at least.
unfoldable pub decode_label : Bytes → Outcome Bytes
decode_label label = decode_loop (length label) label

-- The round and the rest of a loop that succeeds.
pub decode_loop-suc :
    (fuel c : ℕ) (rest d : Bytes)
    → decode_loop (suc fuel) (c ∷ rest) ≡ ok d
    → (out : Bytes) × (r : Bytes) × (tail : Bytes) × (decode_round c rest ≡ ok (out, r))
      × (decode_loop fuel r ≡ ok tail)
      × (out ++ tail ≡ d)
unfolding decode_loop
decode_loop-suc fuel c rest d h =
    let next = λ (p : Bytes × Bytes). decode_loop fuel p.1 >>= λ t. ok (p.0 ++ t) in
    let ((out, r), s, k) = >>=-eq-ok (decode_round c rest) next h in
    let (tail, t, j) = >>=-eq-ok (decode_loop fuel r) (λ t. ok (out ++ t)) k in
    (out, r, tail, s, t, ground (arith, j))
