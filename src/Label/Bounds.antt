-- ===== src/Label/Bounds.antt =====
-- The buffer of `decode_label`, `strlen(label) * 4 + 1` bytes, and the loops' fuel.
use dtmd.Common.{
  ℕ, zero, suc, ◌+◌, ◌*◌, ◌≤◌, [], ◌∷◌, ◌++◌, ◌≡◌, ◌≢◌, inl, inr, arith, leb, ◌&&◌, ◌==◌,
  Bool-cases, length, length-append, Bytes, Outcome, ok, failed, undefined, out_of_fuel, ◌>>=◌,
}
use dtmd.Label.Ctype.{octal, hex_digit, read_hex, octal_digit, read_octal}
use dtmd.Label.Decode.{
  emit, emit_escape, decode_other, decode_escape, decode_backslash, decode_round, decode_loop,
  decode_loop-suc, decode_label,
}

length-emit : (k : ℕ) → length (emit k) ≤ 4
unfolding emit octal
length-emit k = ground arith

-- Numeric escapes read two bytes behind the one that the switch is on, or fail.
abbrev pub ReadsTwo : Bytes → Outcome (ℕ × Bytes) → Type 0
ReadsTwo rest (ok (k, behind)) = length rest ≡ length behind + 2
ReadsTwo rest failed = Unit
ReadsTwo rest undefined = ⊥
ReadsTwo rest out_of_fuel = ⊥

pub read_hex-ReadsTwo : (rest : Bytes) → ReadsTwo rest (read_hex rest)
unfolding read_hex hex_digit
read_hex-ReadsTwo (h ∷ l ∷ rest) = ground arith
read_hex-ReadsTwo (h ∷ []) = ground arith
read_hex-ReadsTwo [] = ground arith

pub read_octal-ReadsTwo : (c : ℕ) (rest : Bytes) → ReadsTwo rest (read_octal c rest)
unfolding read_octal octal_digit
read_octal-ReadsTwo c (h ∷ l ∷ rest) = ground arith
read_octal-ReadsTwo c (h ∷ []) = ground arith
read_octal-ReadsTwo c [] = ground arith

-- A round that has read a byte more than `rest` lacks writes four times as much at most, and
-- never wants for fuel.
abbrev Fits : Bytes → Outcome (Bytes × Bytes) → Type 0
Fits rest (ok (out, behind)) =
    (length out + 4 * length behind ≤ 4 * length rest + 4) × (length behind ≤ length rest)
Fits rest failed = Unit
Fits rest undefined = Unit
Fits rest out_of_fuel = ⊥

read-Fits :
    (rest : Bytes) (m : Outcome (ℕ × Bytes)) → ReadsTwo rest m → Fits rest (m >>= emit_escape)
unfolding emit_escape
read-Fits rest (ok (k, behind)) h = ground (arith, length-emit k)
read-Fits rest failed h = tt
read-Fits rest undefined h = absurd h
read-Fits rest out_of_fuel h = h

decode_other-Fits : (c : ℕ) (rest : Bytes) → Fits rest (decode_other c rest)
unfolding decode_other
decode_other-Fits c rest = elim (Bool-cases (c == b'x')) [
  | inl e ↦ rw e (read-Fits rest (read_hex rest) (read_hex-ReadsTwo rest))
  | inr e ↦ elim (Bool-cases (leb b'0' c && leb c b'7')) [
    | inl o ↦ rw (e, o) (read-Fits rest (read_octal c rest) (read_octal-ReadsTwo c rest))
    | inr o ↦ rw (e, o) (omega arith, omega arith)
  ]
]

decode_round-Fits : (c : ℕ) (rest : Bytes) → Fits rest (decode_round c rest)
unfolding decode_round decode_backslash decode_escape octal
decode_round-Fits c [] = ground (arith, length-emit c)
decode_round-Fits c (d ∷ rest) = ground (arith, length-emit c, decode_other-Fits d rest)

decode_loop-bound :
    (fuel : ℕ) (label d : Bytes) → decode_loop fuel label ≡ ok d → length d ≤ 4 * length label
unfolding decode_loop
decode_loop-bound fuel [] d h = ground arith
decode_loop-bound zero (c ∷ rest) d h = cc
decode_loop-bound (suc fuel) (c ∷ rest) d h =
    let (out, r, tail, s, t, e) = decode_loop-suc fuel c rest d h in
    let fits = rw s at (decode_round-Fits c rest) in
    rw (← e) (omega (arith, decode_loop-bound fuel r tail t, length-append out tail, fits))

-- A decoded label has four times the bytes of the encoded one at most, so that with its NUL it
-- fits the buffer that `decode_label` allocates.
pub length-decode_label :
    (label d : Bytes) → decode_label label ≡ ok d → length d + 1 ≤ length label * 4 + 1
unfolding decode_label
length-decode_label label d h = omega (arith, decode_loop-bound (length label) label d h)

-- What a round leaves to do after it wants no more fuel than the rounds behind it.
bind-out_of_fuel {ℓ} :
    {A B : Type ℓ} (m : Outcome A) (f : A → B)
    → (m >>= λ a. ok (f a)) ≡ out_of_fuel
    → m ≡ out_of_fuel
bind-out_of_fuel (ok a) f e = cc
bind-out_of_fuel _ f e = cc

enough-bind :
    (fuel : ℕ) (rest : Bytes) (m : Outcome (Bytes × Bytes))
    → Fits rest m
    → length rest ≤ fuel
    → ((r : Bytes) → length r ≤ fuel → decode_loop fuel r ≢ out_of_fuel)
    → (do (out, r) ← m; tail ← decode_loop fuel r; ok (out ++ tail)) ≢ out_of_fuel
enough-bind fuel rest (ok (out, r)) fits h ih e =
    ih r (omega (arith, fits)) (bind-out_of_fuel (decode_loop fuel r) (λ t. out ++ t) e)
enough-bind fuel rest failed fits h ih e = cc
enough-bind fuel rest undefined fits h ih e = cc
enough-bind fuel rest out_of_fuel fits h ih e = fits

decode_loop-enough :
    (fuel : ℕ) (label : Bytes) → length label ≤ fuel → decode_loop fuel label ≢ out_of_fuel
unfolding decode_loop
decode_loop-enough fuel [] h e = cc
decode_loop-enough zero (c ∷ rest) h e = absurd (omega arith)
decode_loop-enough (suc fuel) (c ∷ rest) h e =
    enough-bind fuel rest (decode_round c rest) (decode_round-Fits c rest) (omega arith)
      (decode_loop-enough fuel) e

-- `decode_label` comes to its end: it returns a label, or refuses, or leaves the defined behaviour.
pub decode_label_total : (label : Bytes) → decode_label label ≢ out_of_fuel
unfolding decode_label
decode_label_total label = decode_loop-enough (length label) label (omega arith)
