-- ===== src/Label/Acceptance.antt =====
-- What `decode_label` yields is accepted by `compare_labels`, while it has no byte of 128 or more.
use dtmd.Common.{
  ℕ, zero, suc, ◌<◌, [], ◌∷◌, ◌++◌, ◌≡◌, ◌↔◌, refl, inl, inr, arith, leb, ◌&&◌, ◌==◌, ltb,
  if◌then◌else◌, undefined, out_of_fuel, Bool-cases, Option-cases, length, All, All-append_left,
  All-append_right, Bytes, Outcome, ok, failed, ◌>>=◌,
}
use dtmd.Label.Ctype.{is_literal, octal, escape_letter, read_hex, read_octal}
use dtmd.Label.Agreement.{compare_labels-decode_label}
use dtmd.Label.Compare.{
  match_octal, match_char, match_int, match_two, match_escape, compare_other, compare_escape,
  compare_backslash, compare_round, compare_loop, compare_labels,
}
use dtmd.Label.Decode.{
  emit, emit_escape, decode_other, decode_escape, decode_backslash, decode_round, decode_loop,
  decode_loop-suc, decode_label,
}

abbrev pub IsAscii : Bytes → Type 0
IsAscii = All (λ b. b < 128)

match_octal-octal : (k : ℕ) (d : Bytes) → match_octal k (octal k ++ d) ≡ ok d
unfolding match_octal octal
match_octal-octal k d = ground arith

match_value-emit :
    (k : ℕ) (d : Bytes)
    → IsAscii (emit k)
    → (if is_literal k then match_int k (emit k ++ d) else match_octal k (emit k ++ d)) ≡ ok d
unfolding emit match_int
match_value-emit k d h = ground (arith, match_octal-octal k d)

match_byte-emit :
    (c : ℕ) (d : Bytes)
    → (if is_literal c then match_char c (emit c ++ d) else match_octal c (emit c ++ d)) ≡ ok d
unfolding emit match_char
match_byte-emit c d = ground (arith, match_octal-octal c d)

-- Behind the bytes that a round of the decoder writes, a round of the comparison stops.
abbrev Accepts : Outcome (Bytes × Bytes) → (Bytes → Outcome (Bytes × Bytes)) → Type 0
Accepts decoded compare =
    (out r d : Bytes) → decoded ≡ ok (out, r) → IsAscii out → compare (out ++ d) ≡ ok (d, r)

ok-injective :
    (w rest out r : Bytes)
    → ◌≡◌ {A = Outcome (Bytes × Bytes)} (ok (w, rest)) (ok (out, r))
    → (w ≡ out) × (rest ≡ r)
ok-injective w rest out r h = ground arith

ok-Accepts :
    (w rest : Bytes) (compare : Bytes → Outcome (Bytes × Bytes))
    → ((d : Bytes) → IsAscii w → compare (w ++ d) ≡ ok (d, rest))
    → Accepts (ok (w, rest)) compare
ok-Accepts w rest compare k out r d h a =
    let (p, q) = ok-injective w rest out r h in rw (← p, ← q) (k d (rw (← p) at a))

emit_escape-Accepts :
    (k : ℕ) (rest : Bytes) → Accepts (emit_escape (k, rest)) (λ d. match_escape d (k, rest))
unfolding match_escape emit_escape
emit_escape-Accepts k rest out r d h a = elim (Bool-cases (ltb 255 k)) [
  | inl big ↦ cc (rw big at h)
  | inr small ↦
      ok-Accepts (emit k) rest (λ x. match_escape x (k, rest))
        (λ x b. rw (small, match_value-emit k x b)) out r d (rw small at h) a
]

read-Accepts : (m : Outcome (ℕ × Bytes)) → Accepts (m >>= emit_escape) (λ d. m >>= match_escape d)
read-Accepts (ok (k, rest)) out r d h a = emit_escape-Accepts k rest out r d h a
read-Accepts failed out r d h a = cc
read-Accepts undefined out r d h a = cc
read-Accepts out_of_fuel out r d h a = cc

match_two-Accepts : (c : ℕ) (rest : Bytes) → Accepts (ok (b'\\' ∷ c ∷ [], rest)) (match_two c rest)
unfolding match_two match_char
match_two-Accepts c rest = ok-Accepts (b'\\' ∷ c ∷ []) rest (match_two c rest) (λ d b. ground arith)

decode_other-Accepts :
    (c : ℕ) (rest : Bytes) → Accepts (decode_other c rest) (λ d. compare_other d c rest)
unfolding decode_other compare_other
decode_other-Accepts c rest out r d h a = elim (Bool-cases (c == b'x')) [
  | inl e ↦ rw e (read-Accepts (read_hex rest) out r d (rw e at h) a)
  | inr e ↦ elim (Bool-cases (leb b'0' c && leb c b'7')) [
    | inl o ↦ rw (e, o) (read-Accepts (read_octal c rest) out r d (rw (e, o) at h) a)
    | inr o ↦ rw (e, o) (match_two-Accepts c rest out r d (rw (e, o) at h) a)
  ]
]

decode_escape-Accepts :
    (c : ℕ) (rest : Bytes) → Accepts (decode_escape c rest) (λ d. compare_escape d c rest)
unfolding decode_escape compare_escape
decode_escape-Accepts c rest out r d h a = elim (Option-cases (escape_letter c)) [
  | inl e ↦
      rw (e, compare_escape) (decode_other-Accepts c rest out r d (rw (e, decode_escape) at h) a)
  | inr (v, e) ↦
      ok-Accepts (octal v) rest (λ x. compare_escape x c rest)
        (λ x b. rw (e, compare_escape) (rw (match_octal-octal v x))) out r d
        (rw (e, decode_escape) at h) a
]

decode_backslash-Accepts :
    (rest : Bytes) → Accepts (decode_backslash rest) (λ d. compare_backslash d rest)
unfolding decode_backslash compare_backslash
decode_backslash-Accepts [] out r d h a = cc
decode_backslash-Accepts (c ∷ rest) out r d h a = decode_escape-Accepts c rest out r d h a

decode_round-Accepts :
    (c : ℕ) (rest : Bytes) → Accepts (decode_round c rest) (λ d. compare_round d c rest)
unfolding decode_round compare_round
decode_round-Accepts c rest out r d h a = elim (Bool-cases (c == b'\\')) [
  | inl e ↦ rw e (decode_backslash-Accepts rest out r d (rw e at h) a)
  | inr e ↦
      ok-Accepts (emit c) rest (λ x. compare_round x c rest) (λ x b. rw (e, match_byte-emit c x))
        out r d (rw e at h) a
]

decode_loop-accepted :
    (fuel : ℕ) (d e : Bytes) → decode_loop fuel e ≡ ok d → IsAscii d → compare_loop fuel d e ≡ ok tt
unfolding compare_loop decode_loop
decode_loop-accepted fuel [] [] h a = refl
decode_loop-accepted fuel (x ∷ d) [] h a = ground arith
decode_loop-accepted zero d (c ∷ rest) h a = cc
decode_loop-accepted (suc fuel) d (c ∷ rest) h a =
    let (out, r, tail, s, t, e) = decode_loop-suc fuel c rest d h in
    let b = rw (← e) at a in
    rw (← e) (
      rw (decode_round-Accepts c rest out r tail s (All-append_left (λ x. x < 128) out tail b))
        (decode_loop-accepted fuel tail r t (All-append_right (λ x. x < 128) out tail b)))

-- For a decoded label of bytes below 128, `compare_labels` accepts it for an encoded label exactly
-- when decoding the encoded label gives it.
pub compare_labels_iff :
    (decoded encoded : Bytes)
    → IsAscii decoded
    → (compare_labels decoded encoded ≡ ok tt) ↔ (decode_label encoded ≡ ok decoded)
unfolding compare_labels decode_label
compare_labels_iff decoded encoded a = (
  compare_labels-decode_label decoded encoded,
  λ h. decode_loop-accepted (length encoded) decoded encoded h a,
)
