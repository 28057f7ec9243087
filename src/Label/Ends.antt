-- ===== src/Label/Ends.antt =====
-- `compare_labels` comes to its end: the fuel of its loop is enough.
use dtmd.Common.{
  ℕ, zero, suc, ◌≤◌, [], ◌∷◌, ◌≢◌, inl, inr, arith, leb, ◌&&◌, ◌==◌, Bool-cases, Option-cases,
  length, Bytes, Outcome, ok, failed, undefined, out_of_fuel, ◌>>=◌,
}
use dtmd.Label.Ctype.{escape_letter, read_hex, read_octal}
use dtmd.Label.Bounds.{ReadsTwo, read_hex-ReadsTwo, read_octal-ReadsTwo}
use dtmd.Label.Compare.{
  match_octal, match_char, match_int, match_two, match_escape, compare_other, compare_escape,
  compare_backslash, compare_round, compare_loop, compare_labels,
}

-- A round leaves no more to read than stood behind its first byte.
abbrev Steps : Bytes → Outcome (Bytes × Bytes) → Type 0
Steps rest (ok (d, behind)) = length behind ≤ length rest
Steps rest failed = Unit
Steps rest undefined = Unit
Steps rest out_of_fuel = ⊥

-- A match of bytes needs no fuel.
abbrev Matches : Outcome Bytes → Type 0
Matches out_of_fuel = ⊥
Matches _ = Unit

match_octal-Matches : (k : ℕ) (d : Bytes) → Matches (match_octal k d)
unfolding match_octal
match_octal-Matches k (a ∷ x ∷ y ∷ z ∷ d) = ground arith
match_octal-Matches k _ = tt

match_char-Matches : (c : ℕ) (d : Bytes) → Matches (match_char c d)
unfolding match_char
match_char-Matches c [] = tt
match_char-Matches c (b ∷ d) = ground arith

match_int-Matches : (k : ℕ) (d : Bytes) → Matches (match_int k d)
unfolding match_int
match_int-Matches k [] = tt
match_int-Matches k (b ∷ d) = ground arith

Matches-Steps :
    (m : Outcome Bytes) (rest : Bytes) → Matches m → Steps rest (do behind ← m; ok (behind, rest))
Matches-Steps (ok d) rest h = omega arith
Matches-Steps failed rest h = tt
Matches-Steps undefined rest h = tt
Matches-Steps out_of_fuel rest h = h

match_two-Steps : (c : ℕ) (rest d : Bytes) → Steps rest (match_two c rest d)
unfolding match_two match_char
match_two-Steps c rest (x ∷ y ∷ d) = ground arith
match_two-Steps c rest _ = ground arith

match_escape-Steps : (d : Bytes) (k : ℕ) (rest : Bytes) → Steps rest (match_escape d (k, rest))
unfolding match_escape
match_escape-Steps d k rest = ground (
  arith,
  Matches-Steps (match_int k d) rest (match_int-Matches k d),
  Matches-Steps (match_octal k d) rest (match_octal-Matches k d),
)

Steps-le :
    (behind rest : Bytes) (o : Outcome (Bytes × Bytes))
    → length behind ≤ length rest
    → Steps behind o
    → Steps rest o
Steps-le behind rest (ok (d, r)) h s = omega arith
Steps-le behind rest failed h s = tt
Steps-le behind rest undefined h s = tt
Steps-le behind rest out_of_fuel h s = s

read-Steps :
    (d rest : Bytes) (m : Outcome (ℕ × Bytes)) → ReadsTwo rest m → Steps rest (m >>= match_escape d)
read-Steps d rest (ok (k, behind)) h =
    Steps-le behind rest (match_escape d (k, behind)) (omega (arith, h))
      (match_escape-Steps d k behind)
read-Steps d rest failed h = tt
read-Steps d rest undefined h = absurd h
read-Steps d rest out_of_fuel h = h

compare_other-Steps : (d : Bytes) (c : ℕ) (rest : Bytes) → Steps rest (compare_other d c rest)
unfolding compare_other
compare_other-Steps d c rest = elim (Bool-cases (c == b'x')) [
  | inl e ↦ rw e (read-Steps d rest (read_hex rest) (read_hex-ReadsTwo rest))
  | inr e ↦ elim (Bool-cases (leb b'0' c && leb c b'7')) [
    | inl o ↦ rw (e, o) (read-Steps d rest (read_octal c rest) (read_octal-ReadsTwo c rest))
    | inr o ↦ rw (e, o) (match_two-Steps c rest d)
  ]
]

compare_escape-Steps : (d : Bytes) (c : ℕ) (rest : Bytes) → Steps rest (compare_escape d c rest)
unfolding compare_escape
compare_escape-Steps d c rest = elim (Option-cases (escape_letter c)) [
  | inl e ↦ rw (e, compare_escape) (compare_other-Steps d c rest)
  | inr (v, e) ↦
      rw (e, compare_escape) (Matches-Steps (match_octal v d) rest (match_octal-Matches v d))
]

compare_backslash-Steps : (d rest : Bytes) → Steps rest (compare_backslash d rest)
unfolding compare_backslash
compare_backslash-Steps d [] = tt
compare_backslash-Steps d (c ∷ rest) =
    Steps-le rest (c ∷ rest) (compare_escape d c rest) (omega arith) (compare_escape-Steps d c rest)

compare_round-Steps : (d : Bytes) (c : ℕ) (rest : Bytes) → Steps rest (compare_round d c rest)
unfolding compare_round
compare_round-Steps d c rest = ground (
  arith,
  compare_backslash-Steps d rest,
  Matches-Steps (match_char c d) rest (match_char-Matches c d),
  Matches-Steps (match_octal c d) rest (match_octal-Matches c d),
)

enough-bind :
    (fuel : ℕ) (rest : Bytes) (m : Outcome (Bytes × Bytes))
    → Steps rest m
    → length rest ≤ fuel
    → ((d r : Bytes) → length r ≤ fuel → compare_loop fuel d r ≢ out_of_fuel)
    → (do (d, r) ← m; compare_loop fuel d r) ≢ out_of_fuel
enough-bind fuel rest (ok (d, r)) s h ih = ih d r (omega arith)
enough-bind fuel rest failed s h ih = λ e. cc
enough-bind fuel rest undefined s h ih = λ e. cc
enough-bind fuel rest out_of_fuel s h ih = absurd s

compare_loop-enough :
    (fuel : ℕ) (d label : Bytes) → length label ≤ fuel → compare_loop fuel d label ≢ out_of_fuel
unfolding compare_loop
compare_loop-enough fuel [] [] h e = cc
compare_loop-enough fuel (x ∷ d) [] h e = cc
compare_loop-enough zero d (c ∷ rest) h e = absurd (omega arith)
compare_loop-enough (suc fuel) d (c ∷ rest) h e =
    enough-bind fuel rest (compare_round d c rest) (compare_round-Steps d c rest) (omega arith)
      (compare_loop-enough fuel) e

-- `compare_labels` comes to its end, whatever the two labels are.
pub compare_labels_total : (decoded encoded : Bytes) → compare_labels decoded encoded ≢ out_of_fuel
unfolding compare_labels
compare_labels_total decoded encoded =
    compare_loop-enough (length encoded) decoded encoded (omega arith)
