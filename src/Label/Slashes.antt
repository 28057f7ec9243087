-- ===== src/Label/Slashes.antt =====
-- A mount directory may be named by a decoded label, so that a `/` in it would name another one.
use dtmd.Common.{
  ℕ, zero, suc, [], ◌∷◌, ◌≡◌, ◌≢◌, inl, inr, arith, leb, ◌&&◌, ◌==◌, false, Bool-cases,
  Option-cases, length, Bytes, Outcome, ok, ◌>>=◌, All, All-append,
}
use dtmd.Label.Ctype.{is_literal, octal, escape_letter, read_hex, read_octal}
use dtmd.Label.Decode.{
  emit, emit_escape, decode_other, decode_escape, decode_backslash, decode_round, decode_loop,
  decode_loop-suc, decode_label,
}

abbrev pub NoSlash : Bytes → Type 0
NoSlash = All (λ b. b ≢ b'/')

-- Nowhere in the label does a `/` stand behind a backslash.
abbrev pub NoEscapedSlash : Bytes → Type 0
NoEscapedSlash [] = Unit
NoEscapedSlash (c ∷ []) = Unit
NoEscapedSlash (c ∷ d ∷ rest) = ((c == b'\\' && d == b'/') ≡ false) × NoEscapedSlash (d ∷ rest)

NoEscapedSlash-tail : (c : ℕ) (rest : Bytes) → NoEscapedSlash (c ∷ rest) → NoEscapedSlash rest
NoEscapedSlash-tail c [] h = tt
NoEscapedSlash-tail c (d ∷ rest) h = h.1

emit-NoSlash : (k : ℕ) → NoSlash (emit k)
unfolding emit octal is_literal
emit-NoSlash k = ground arith

octal-NoSlash : (k : ℕ) → NoSlash (octal k)
unfolding octal
octal-NoSlash k = ground arith

abbrev LeavesSafe : Outcome (ℕ × Bytes) → Type 0
LeavesSafe (ok (k, behind)) = NoEscapedSlash behind
LeavesSafe _ = Unit

read_hex-LeavesSafe : (rest : Bytes) → NoEscapedSlash rest → LeavesSafe (read_hex rest)
unfolding read_hex
read_hex-LeavesSafe (a ∷ b ∷ []) h = ground arith
read_hex-LeavesSafe (a ∷ b ∷ c ∷ rest) h = ground arith
read_hex-LeavesSafe (a ∷ []) h = ground arith
read_hex-LeavesSafe [] h = ground arith

read_octal-LeavesSafe :
    (c : ℕ) (rest : Bytes) → NoEscapedSlash rest → LeavesSafe (read_octal c rest)
unfolding read_octal
read_octal-LeavesSafe x (a ∷ b ∷ []) h = ground arith
read_octal-LeavesSafe x (a ∷ b ∷ c ∷ rest) h = ground arith
read_octal-LeavesSafe x (a ∷ []) h = ground arith
read_octal-LeavesSafe x [] h = ground arith

abbrev WritesSafe : Outcome (Bytes × Bytes) → Type 0
WritesSafe (ok (out, behind)) = NoSlash out × NoEscapedSlash behind
WritesSafe _ = Unit

read-WritesSafe : (m : Outcome (ℕ × Bytes)) → LeavesSafe m → WritesSafe (m >>= emit_escape)
unfolding emit_escape
read-WritesSafe (ok (k, behind)) h = ground (arith, emit-NoSlash k)
read-WritesSafe _ h = tt

decode_other-WritesSafe :
    (c : ℕ) (rest : Bytes)
    → (c == b'/') ≡ false
    → NoEscapedSlash rest
    → WritesSafe (decode_other c rest)
unfolding decode_other
decode_other-WritesSafe c rest n h = elim (Bool-cases (c == b'x')) [
  | inl e ↦ rw e (read-WritesSafe (read_hex rest) (read_hex-LeavesSafe rest h))
  | inr e ↦ elim (Bool-cases (leb b'0' c && leb c b'7')) [
    | inl o ↦ rw (e, o) (read-WritesSafe (read_octal c rest) (read_octal-LeavesSafe c rest h))
    | inr o ↦ rw (e, o) (ground arith)
  ]
]

decode_escape-WritesSafe :
    (c : ℕ) (rest : Bytes)
    → (c == b'/') ≡ false
    → NoEscapedSlash rest
    → WritesSafe (decode_escape c rest)
unfolding decode_escape
decode_escape-WritesSafe c rest n h = elim (Option-cases (escape_letter c)) [
  | inl e ↦ rw (e, decode_escape) (decode_other-WritesSafe c rest n h)
  | inr (v, e) ↦ rw (e, decode_escape) (octal-NoSlash v, h)
]

decode_round-WritesSafe :
    (c : ℕ) (rest : Bytes) → NoEscapedSlash (c ∷ rest) → WritesSafe (decode_round c rest)
unfolding decode_round decode_backslash
decode_round-WritesSafe c [] h = ground (arith, emit-NoSlash c)
decode_round-WritesSafe c (d ∷ rest) h =
    ground (arith, emit-NoSlash c, NoEscapedSlash-tail d rest, decode_escape-WritesSafe d rest)

decode_loop-NoSlash :
    (fuel : ℕ) (label d : Bytes) → decode_loop fuel label ≡ ok d → NoEscapedSlash label → NoSlash d
unfolding decode_loop
decode_loop-NoSlash fuel [] [] h n = tt
decode_loop-NoSlash fuel [] (x ∷ d) h n = absurd (ground arith)
decode_loop-NoSlash zero (c ∷ rest) d h n = cc
decode_loop-NoSlash (suc fuel) (c ∷ rest) d h n =
    let (out, r, tail, s, t, e) = decode_loop-suc fuel c rest d h in
    let safe = rw s at (decode_round-WritesSafe c rest n) in
    rw (← e) (All-append (λ b. b ≢ b'/') out tail safe.0 (decode_loop-NoSlash fuel r tail t safe.1))

-- If no `/` stands behind a backslash in the encoded label, the decoded label has no `/`.
pub decode_label-NoSlash :
    (label d : Bytes) → decode_label label ≡ ok d → NoEscapedSlash label → NoSlash d
unfolding decode_label
decode_label-NoSlash label d = decode_loop-NoSlash (length label) label d
