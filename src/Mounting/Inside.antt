-- ===== src/Mounting/Inside.antt =====
-- The mount point of a label: a name of its own below the directory of mount points.
use dtmd.Common.{
  ℕ, zero, suc, [], ◌∷◌, ◌++◌, ◌≡◌, ◌≢◌, refl, sym, subst, ◌∙◌, inl, inr, arith, leb, ◌&&◌, ◌==◌,
  true, false, Bool, Option, none, some, some_inj, Bool-cases, Option-cases, length, Bytes, Outcome,
  ok, ok_inj, ◌>>=◌, All, All-append,
}
use dtmd.Label.Ctype.{is_literal, octal, escape_letter, read_hex, read_octal}
use dtmd.Label.Decode.{
  emit, emit_escape, decode_other, decode_escape, decode_backslash, decode_round, decode_loop,
  decode_loop-suc, decode_label,
}
use dtmd.Label.Slashes.{NoSlash, NoEscapedSlash, decode_label-NoSlash}
use dtmd.Config.Values.{MountByValue, mount_by_device_name, mount_by_device_label}
use dtmd.Mounting.Path.{nonempty, behind_slash, mount_name, join_path, calculate_path}

-- No quotation mark of the shell.
abbrev pub NoQuote : Bytes → Type 0
NoQuote = All (λ b. b ≢ 39)

-- A text that does not begin with a dot.
abbrev pub Begins : Bytes → Type 0
Begins [] = ⊥
Begins (c ∷ text) = c ≢ b'.'

emit-NoQuote : (k : ℕ) → Begins (emit k) × NoQuote (emit k)
unfolding emit octal is_literal
emit-NoQuote k = ground arith

octal-NoQuote : (k : ℕ) → Begins (octal k) × NoQuote (octal k)
unfolding octal
octal-NoQuote k = ground arith

abbrev Writes : Outcome (Bytes × Bytes) → Type 0
Writes (ok (out, behind)) = Begins out × NoQuote out
Writes _ = Unit

read-Writes : (m : Outcome (ℕ × Bytes)) → Writes (m >>= emit_escape)
unfolding emit_escape
read-Writes (ok (k, behind)) = ground (arith, emit-NoQuote k)
read-Writes _ = tt

decode_other-Writes : (c : ℕ) (rest : Bytes) → c ≢ 39 → Writes (decode_other c rest)
unfolding decode_other
decode_other-Writes c rest h = elim (Bool-cases (c == b'x')) [
  | inl e ↦ rw e (read-Writes (read_hex rest))
  | inr e ↦ elim (Bool-cases (leb b'0' c && leb c b'7')) [
    | inl o ↦ rw (e, o) (read-Writes (read_octal c rest))
    | inr o ↦ rw (e, o) (ground arith)
  ]
]

no_letter : (c : ℕ) → escape_letter c ≡ none → c ≢ 39
unfolding escape_letter
no_letter c e q = let quote = subst (λ x. escape_letter x ≡ none) q e in cc

decode_escape-Writes : (c : ℕ) (rest : Bytes) → Writes (decode_escape c rest)
unfolding decode_escape
decode_escape-Writes c rest = elim (Option-cases (escape_letter c)) [
  | inl e ↦ rw (e, decode_escape) (decode_other-Writes c rest (no_letter c e))
  | inr (v, e) ↦ rw (e, decode_escape) (octal-NoQuote v)
]

decode_round-Writes : (c : ℕ) (rest : Bytes) → Writes (decode_round c rest)
unfolding decode_round decode_backslash
decode_round-Writes c [] = ground (arith, emit-NoQuote c)
decode_round-Writes c (d ∷ rest) = ground (arith, emit-NoQuote c, decode_escape-Writes d rest)

Begins-append : (a b : Bytes) → Begins a → Begins (a ++ b)
Begins-append [] b h = absurd h
Begins-append (c ∷ a) b h = h

decode_loop-NoQuote : (fuel : ℕ) (label d : Bytes) → decode_loop fuel label ≡ ok d → NoQuote d
unfolding decode_loop
decode_loop-NoQuote fuel [] [] h = tt
decode_loop-NoQuote fuel [] (x ∷ d) h = absurd (ground arith)
decode_loop-NoQuote zero (c ∷ rest) d h = cc
decode_loop-NoQuote (suc fuel) (c ∷ rest) d h =
    let (out, r, tail, s, t, e) = decode_loop-suc fuel c rest d h in
    let safe = rw s at (decode_round-Writes c rest) in
    rw (← e) (All-append (λ b. b ≢ 39) out tail safe.1 (decode_loop-NoQuote fuel r tail t))

decode_loop-Begins : (fuel c : ℕ) (rest d : Bytes) → decode_loop fuel (c ∷ rest) ≡ ok d → Begins d
unfolding decode_loop
decode_loop-Begins zero c rest d h = cc
decode_loop-Begins (suc fuel) c rest d h =
    let (out, r, tail, s, t, e) = decode_loop-suc fuel c rest d h in
    let safe = rw s at (decode_round-Writes c rest) in rw (← e) (Begins-append out tail safe.0)

-- A label that was decoded, from one in which no slash is escaped.
abbrev pub IsDecoded : Option Bytes → Type 0
IsDecoded none = Unit
IsDecoded (some label) =
    (encoded : Bytes) × ((decode_label encoded ≡ ok label) × NoEscapedSlash encoded)

-- The last part of a mount point, by what it was chosen.
abbrev pub IsNamed : MountByValue → Bytes → Type 0
IsNamed mount_by_device_name name = NoSlash name × (name ≢ [])
IsNamed mount_by_device_label name = NoSlash name × (NoQuote name × Begins name)

decoded-IsNamed :
    (c : ℕ) (label : Bytes)
    → IsDecoded (some (c ∷ label))
    → IsNamed mount_by_device_label (c ∷ label)
unfolding decode_label decode_loop
decoded-IsNamed c label ([], (e, n)) = let no = ok_inj e in absurd (nil≢cons no)
  where
    nil≢cons : {c : ℕ} {s : Bytes} → [] ≢ (c ∷ s)
    nil≢cons e = cc
decoded-IsNamed c label (d ∷ encoded, (e, n)) = (
  decode_label-NoSlash (d ∷ encoded) (c ∷ label) e n,
  (
    decode_loop-NoQuote (length (d ∷ encoded)) (d ∷ encoded) (c ∷ label) e,
    decode_loop-Begins (length (d ∷ encoded)) d encoded (c ∷ label) e,
  ),
)

some≢none : {a : Bytes} → none ≢ some a
some≢none e = cc

no_slash : (path : Bytes) → behind_slash path ≡ none → NoSlash path
unfolding behind_slash
no_slash [] h = tt
no_slash (c ∷ path) h = elim (Option-cases (behind_slash path)) [
  | inr (rest, e) ↦ absurd (some≢none (sym (rw (e, behind_slash) at h)))
  | inl e ↦ elim (Bool-cases (c == b'/')) [
    | inr n ↦ (λ q. differs c q n, no_slash path e)
    | inl y ↦ absurd (some≢none (sym (rw (e, y, behind_slash) at h)))
  ]
]
  where
    differs : (c : ℕ) → c ≡ b'/' → (c == b'/') ≡ false → ⊥
    differs c q n = ground arith

behind_slash-NoSlash : (path name : Bytes) → behind_slash path ≡ some name → NoSlash name
unfolding behind_slash
behind_slash-NoSlash [] name h = absurd (some≢none h)
behind_slash-NoSlash (c ∷ path) name h = elim (Option-cases (behind_slash path)) [
  | inr (rest, e) ↦
      let same = rw (e, behind_slash) at h in behind_slash-NoSlash path name (e ∙ same)
  | inl e ↦ elim (Bool-cases (c == b'/')) [
    | inr n ↦ absurd (some≢none (rw (e, n, behind_slash) at h))
    | inl y ↦ subst NoSlash (some_inj (rw (e, y, behind_slash) at h)) (no_slash path e)
  ]
]

nonempty-some :
    (o : Option Bytes) (name : Bytes) → nonempty o ≡ some name → (o ≡ some name) × (name ≢ [])
nonempty-some none name h = absurd (some≢none h)
nonempty-some (some []) name h = absurd (some≢none h)
nonempty-some (some (c ∷ text)) name h = (h, λ e. cons≢nil (some_inj h ∙ e))
  where
    cons≢nil : {c : ℕ} {s : Bytes} → (c ∷ s) ≢ []
    cons≢nil e = cc

by_name-IsNamed :
    (path name : Bytes)
    → nonempty (behind_slash path) ≡ some name
    → IsNamed mount_by_device_name name
by_name-IsNamed path name h =
    let (e, n) = nonempty-some (behind_slash path) name h in (behind_slash-NoSlash path name e, n)

mount_name-IsNamed :
    (path : Bytes) (label : Option Bytes) (mount_type : MountByValue) (name : Bytes)
    → IsDecoded label
    → (mount_name path label mount_type).1 ≡ some name
    → IsNamed (mount_name path label mount_type).0 name
unfolding mount_name
mount_name-IsNamed path label mount_by_device_name name d h = by_name-IsNamed path name h
mount_name-IsNamed path none mount_by_device_label name d h = by_name-IsNamed path name h
mount_name-IsNamed path (some []) mount_by_device_label name d h = by_name-IsNamed path name h
mount_name-IsNamed path (some (c ∷ label)) mount_by_device_label name d h =
    subst (IsNamed mount_by_device_label) (some_inj h) (decoded-IsNamed c label d)

join_path-some :
    (memory : Bool) (dir : Bytes) (o : Option Bytes) (p : Bytes)
    → join_path memory dir o ≡ some p
    → (name : Bytes) × ((o ≡ some name) × (p ≡ dir ++ (b'/' ∷ name)))
unfolding join_path
join_path-some memory dir none p h = absurd (some≢none h)
join_path-some true dir (some name) p h = (name, (refl, sym (some_inj h)))
join_path-some false dir (some name) p h = absurd (some≢none h)

-- Where the label of the device, if it has one, was decoded from one in which no slash is escaped: the
-- mount point that `calculate_path` gives is a name below the directory of mount points. The name
-- has no slash and is not empty, and a name by the label has no quotation mark that would end the
-- quotation of the mount command, and does not begin with a dot.
pub calculate_path-IsNamed :
    (memory : Bool) (dir path : Bytes) (label : Option Bytes) (mount_type : MountByValue)
    (mount_path : Bytes)
    → IsDecoded label
    → (calculate_path memory dir path label mount_type).1 ≡ some mount_path
    → (name : Bytes) × ((mount_path ≡ dir ++ (b'/' ∷ name))
        × IsNamed (calculate_path memory dir path label mount_type).0 name)
unfolding calculate_path
calculate_path-IsNamed memory dir path label mount_type mount_path d h =
    let (name, (e, p)) =
      join_path-some memory dir (mount_name path label mount_type).1 mount_path h in
    (name, (p, mount_name-IsNamed path label mount_type name d e))
