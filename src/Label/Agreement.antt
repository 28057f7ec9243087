-- ===== src/Label/Agreement.antt =====
-- What `compare_labels` accepts is what `decode_label` yields.
use dtmd.Common.{
  ℕ, zero, suc, [], ◌∷◌, ◌++◌, ◌≡◌, refl, ap, inl, inr, arith, leb, ◌&&◌, undefined, out_of_fuel,
  ◌==◌, ltb, if◌then◌else◌, sym, Bool-cases, Option-cases, length, Bytes, Outcome, ok, failed,
  ◌>>=◌, >>=-eq-ok,
}
use dtmd.Label.Ctype.{is_literal, octal, escape_letter, read_hex, read_octal}
use dtmd.Label.Compare.{
  match_octal, match_char, match_int, match_two, match_escape, compare_other, compare_escape,
  compare_backslash, compare_round, compare_loop, compare_labels,
}
use dtmd.Label.Decode.{
  emit, emit_escape, decode_other, decode_escape, decode_backslash, decode_round, decode_loop,
  decode_label,
}

match_octal-eq : (k : ℕ) (d d' : Bytes) → match_octal k d ≡ ok d' → d ≡ octal k ++ d'
unfolding match_octal octal
match_octal-eq k (a ∷ x ∷ y ∷ z ∷ d) d' h = ground arith
match_octal-eq k (a ∷ x ∷ y ∷ []) d' h = cc
match_octal-eq k (a ∷ x ∷ []) d' h = cc
match_octal-eq k (a ∷ []) d' h = cc
match_octal-eq k [] d' h = cc

match_octal-octal : (k : ℕ) (d : Bytes) → match_octal k (octal k ++ d) ≡ ok d
unfolding match_octal octal
match_octal-octal k d = ground arith

match_char-eq : (c : ℕ) (d d' : Bytes) → match_char c d ≡ ok d' → d ≡ c ∷ d'
unfolding match_char
match_char-eq c (b ∷ d) d' h = ground arith
match_char-eq c [] d' h = cc

match_int-eq : (k : ℕ) (d d' : Bytes) → match_int k d ≡ ok d' → d ≡ k ∷ d'
unfolding match_int
match_int-eq k (b ∷ d) d' h = ground arith
match_int-eq k [] d' h = cc

-- One rule for each way of emitting a value.
match_value-eq :
    (d : Bytes) (k : ℕ) (d' : Bytes)
    → (if is_literal k then match_int k d else match_octal k d) ≡ ok d'
    → d ≡ emit k ++ d'
unfolding emit
match_value-eq d k d' h = ground (arith, match_int-eq k d d', match_octal-eq k d d')

match_byte-eq :
    (d : Bytes) (c : ℕ) (d' : Bytes)
    → (if is_literal c then match_char c d else match_octal c d) ≡ ok d'
    → d ≡ emit c ++ d'
unfolding emit
match_byte-eq d c d' h = ground (arith, match_char-eq c d d', match_octal-eq c d d')

-- A round of the decoder yields what the matched part of the decoded label is.
abbrev Yields : Bytes → Outcome (Bytes × Bytes) → Bytes → Bytes → Type 0
Yields d decoded d' r = (out : Bytes) × (decoded ≡ ok (out, r)) × (d ≡ out ++ d')

match_escape-Yields :
    (d : Bytes) (k : ℕ) (rest : Bytes) {d' r : Bytes}
    → match_escape d (k, rest) ≡ ok (d', r)
    → Yields d (emit_escape (k, rest)) d' r
unfolding match_escape emit_escape
match_escape-Yields d k rest {d'} h = elim (Bool-cases (ltb 255 k)) [
  | inl big ↦ cc (rw big at h)
  | inr small ↦
      let tail : Bytes → Outcome (Bytes × Bytes) = λ x. ok (x, rest) in
      let (x, m, e) =
        >>=-eq-ok (if is_literal k then match_int k d else match_octal k d) tail (rw small at h) in
      (emit k, ground (arith, e), ground (arith, match_value-eq d k x m, e))
]

read-Yields :
    (d : Bytes) (m : Outcome (ℕ × Bytes)) {d' r : Bytes}
    → (m >>= match_escape d) ≡ ok (d', r)
    → Yields d (m >>= emit_escape) d' r
read-Yields d (ok (k, rest)) h = match_escape-Yields d k rest h
read-Yields d failed h = cc
read-Yields d undefined h = cc
read-Yields d out_of_fuel h = cc

match_two-eq :
    (d : Bytes) (c : ℕ) (rest d' r : Bytes)
    → match_two c rest d ≡ ok (d', r)
    → (d ≡ b'\\' ∷ c ∷ d') × (rest ≡ r)
unfolding match_two match_char
match_two-eq (x ∷ y ∷ d) c rest d' r h = ground arith
match_two-eq _ c rest d' r h = ground arith

compare_other-Yields :
    (d : Bytes) (c : ℕ) (rest : Bytes) {d' r : Bytes}
    → compare_other d c rest ≡ ok (d', r)
    → Yields d (decode_other c rest) d' r
unfolding compare_other decode_other
compare_other-Yields d c rest {d'} {r} h = elim (Bool-cases (c == b'x')) [
  | inl e ↦ rw e (read-Yields d (read_hex rest) (rw e at h))
  | inr e ↦ elim (Bool-cases (leb b'0' c && leb c b'7')) [
    | inl o ↦ rw (e, o) (read-Yields d (read_octal c rest) (rw (e, o) at h))
    | inr o ↦
        let both = match_two-eq d c rest d' r (rw (e, o) at h) in
        rw (e, o) (b'\\' ∷ c ∷ [], ground (arith, both), ground (arith, both))
  ]
]

compare_escape-Yields :
    (d : Bytes) (c : ℕ) (rest : Bytes) {d' r : Bytes}
    → compare_escape d c rest ≡ ok (d', r)
    → Yields d (decode_escape c rest) d' r
unfolding compare_escape decode_escape
compare_escape-Yields d c rest {d'} {r} h = elim (Option-cases (escape_letter c)) [
  | inl e ↦ rw (e, decode_escape) (compare_other-Yields d c rest (rw (e, compare_escape) at h))
  | inr (v, e) ↦
      let tail : Bytes → Outcome (Bytes × Bytes) = λ x. ok (x, rest) in
      let (x, m, e') = >>=-eq-ok (match_octal v d) tail (rw (e, compare_escape) at h) in
      (octal v, ground (arith, e, e'), ground (arith, match_octal-eq v d x m, e'))
]

compare_backslash-Yields :
    (d rest : Bytes) {d' r : Bytes}
    → compare_backslash d rest ≡ ok (d', r)
    → Yields d (decode_backslash rest) d' r
unfolding compare_backslash decode_backslash
compare_backslash-Yields d [] h = cc
compare_backslash-Yields d (c ∷ rest) h = compare_escape-Yields d c rest h

compare_round-Yields :
    (d : Bytes) (c : ℕ) (rest : Bytes) {d' r : Bytes}
    → compare_round d c rest ≡ ok (d', r)
    → Yields d (decode_round c rest) d' r
unfolding compare_round decode_round
compare_round-Yields d c rest {d'} {r} h = elim (Bool-cases (c == b'\\')) [
  | inl e ↦ rw e (compare_backslash-Yields d rest (rw e at h))
  | inr e ↦
      let tail : Bytes → Outcome (Bytes × Bytes) = λ x. ok (x, rest) in
      let (x, m, e') =
        >>=-eq-ok (if is_literal c then match_char c d else match_octal c d) tail (rw e at h) in
      (emit c, ground (arith, e'), ground (arith, match_byte-eq d c x m, e'))
]

compare_loop-eq :
    (fuel : ℕ) (d e : Bytes) → compare_loop fuel d e ≡ ok tt → decode_loop fuel e ≡ ok d
unfolding compare_loop decode_loop
compare_loop-eq fuel [] [] h = refl
compare_loop-eq fuel (x ∷ d) [] h = cc
compare_loop-eq zero [] (c ∷ rest) h = cc
compare_loop-eq zero (x ∷ d) (c ∷ rest) h = cc
compare_loop-eq (suc fuel) d (c ∷ rest) h =
    let ((d', r), s, later) =
      >>=-eq-ok (compare_round d c rest) (λ p. compare_loop fuel p.0 p.1) h in
    let (out, t, e) = compare_round-Yields d c rest s in
    rw (t, compare_loop-eq fuel d' r later) (ap ok (sym e))

-- If `compare_labels` accepts a decoded label for an encoded one, then decoding the encoded label
-- gives that decoded label.
pub compare_labels-decode_label :
    (decoded encoded : Bytes)
    → compare_labels decoded encoded ≡ ok tt
    → decode_label encoded ≡ ok decoded
unfolding compare_labels decode_label
compare_labels-decode_label decoded encoded = compare_loop-eq (length encoded) decoded encoded
