-- ===== src/Config/Read.antt =====
-- The file of the configuration: settings that are printed and read, and what reading keeps.
use dtmd.Common.{
  ◌⊎◌, ℕ, suc, ◌≡◌, refl, sym, ap, ◌∙◌, Bool, true, false, Option, none, some, List, [], ◌∷◌, ◌++◌,
  append_assoc, arith, inl, inr, ◌==◌, All, map, All-append, Bytes,
}
use dtmd.Config.Accepted.{IsSound, process_config_value-IsSound}
use dtmd.Options.Proper.{after_success}
use dtmd.Config.Printed.{
  Allows, is_plain-is_text, IsKey, IsValue, print_setting, scan_line-print_setting,
}
use dtmd.Misc.Types.{success}
use dtmd.Config.Values.{Config, ConfigAllocator, process_config_value}
use dtmd.Config.Scan.{
  is_alphanumeric, is_plain, is_text, quotes_after, Line, wrong, empty, sets, scan_line, lines,
  ReadConfig, read_ok, error_on, read_lines, read_config,
}

-- No newline stands in a text.
abbrev NoNewline : Bytes → Type 0
NoNewline text = All (λ c. (c == 10) ≡ false) text

is_text-newline : (q : Bool) (c : ℕ) → is_text q c ≡ true → (c == 10) ≡ false
unfolding is_text is_plain is_alphanumeric
is_text-newline q c h = ground arith

Allows-NoNewline : (q : Bool) (text : Bytes) → Allows q text → NoNewline text
Allows-NoNewline q [] h = tt
Allows-NoNewline q (c ∷ text) h =
    (is_text-newline q c h.0, Allows-NoNewline (quotes_after q c) text h.1)

key-NoNewline : (key : Bytes) → All (λ c. is_plain c ≡ true) key → NoNewline key
key-NoNewline [] h = tt
key-NoNewline (c ∷ key) h =
    (is_text-newline false c (is_plain-is_text c h.0).0, key-NoNewline key h.1)

lines-append :
    (text file : Bytes)
    → NoNewline text
    → lines (text ++ (10 ∷ file)) ≡ (text ++ 10 ∷ []) ∷ lines file
unfolding lines
lines-append [] file h = refl
lines-append (c ∷ text) file h = rw (h.0, lines) (rw (lines-append text file h.1))

Setting-NoNewline :
    (key value : Bytes) → IsKey key → IsValue value → NoNewline (key ++ (b'=' ∷ value))
Setting-NoNewline [] value k v = absurd k
Setting-NoNewline (c ∷ key) [] k v = absurd v
Setting-NoNewline (c ∷ key) (d ∷ value) k v =
    All-append (λ b. (b == 10) ≡ false) (c ∷ key) (b'=' ∷ d ∷ value) (key-NoNewline (c ∷ key) k)
      (refl, Allows-NoNewline false (d ∷ value) v)

abbrev pub print_file : List (Bytes × Bytes) → Bytes
print_file [] = []
print_file (s ∷ settings) = print_setting s.0 s.1 ++ print_file settings

abbrev pub AreSettings : List (Bytes × Bytes) → Type 0
AreSettings settings = All (λ s. IsKey s.0 × IsValue s.1) settings

lines-print_file :
    (settings : List (Bytes × Bytes))
    → AreSettings settings
    → lines (print_file settings) ≡ map (λ s. print_setting s.0 s.1) settings
lines-print_file [] h = unfold lines in refl
lines-print_file (s ∷ settings) h =
    let text = s.0 ++ (b'=' ∷ s.1) in
    let rest = print_file settings in
    let shape = append_assoc s.0 (b'=' ∷ s.1) (10 ∷ []) in
    ap (λ t. lines (t ++ rest)) (sym shape)
    ∙ ap lines (append_assoc text (10 ∷ []) rest)
    ∙ lines-append text rest (Setting-NoNewline s.0 s.1 h.0.0 h.0.1)
    ∙ ap (λ t. t ∷ lines rest) shape
    ∙ ap (λ r. print_setting s.0 s.1 ∷ r) (lines-print_file settings h.1)

-- The settings one by one, each as the line of its number.
abbrev pub process_settings :
    (ℕ → ConfigAllocator) → ℕ → List (Bytes × Bytes) → Config → ReadConfig × Config
process_settings alloc n [] c = (read_ok, c)
process_settings alloc n (s ∷ settings) c =
    let done = process_config_value (alloc (suc n)) s.0 s.1 c in
    elim done.0 [
      | success ↦ process_settings alloc (suc n) settings done.1
      | failure ↦ (error_on (suc n), done.1)
    ]

read_lines-settings :
    (alloc : ℕ → ConfigAllocator) (n : ℕ) (settings : List (Bytes × Bytes)) (c : Config)
    → AreSettings settings
    → read_lines alloc n (map (λ s. print_setting s.0 s.1) settings) c
      ≡ process_settings alloc n settings c
unfolding read_lines
read_lines-settings alloc n [] c h = refl
read_lines-settings alloc n (s ∷ settings) c h =
    let done = process_config_value (alloc (suc n)) s.0 s.1 c in
    rw (scan_line-print_setting s.0 s.1 h.0.0 h.0.1, read_lines)
      (ap
        (λ (x : ReadConfig × Config). elim done.0 [
          | success ↦ x
          | failure ↦ (error_on (suc n), done.1)
        ])
        (read_lines-settings alloc (suc n) settings done.1 h.1))

-- A file of settings, each on a line of its own, has the effect of the settings in their order, up
-- to the first that is refused, and its line is the error that is returned.
pub read_config-print_file :
    (alloc : ℕ → ConfigAllocator) (settings : List (Bytes × Bytes)) (c : Config)
    → AreSettings settings
    → read_config alloc (some (print_file settings)) c ≡ process_settings alloc 0 settings c
unfolding read_config
read_config-print_file alloc settings c h =
    ap (λ f. read_lines alloc 0 f c) (lines-print_file settings h)
    ∙ read_lines-settings alloc 0 settings c h

Line-cases :
    (l : Line)
    → (l ≡ wrong) ⊎ ((l ≡ empty) ⊎ ((key : Bytes) × (value : Bytes) × (l ≡ sets key value)))
Line-cases wrong = inl refl
Line-cases empty = inr (inl refl)
Line-cases (sets key value) = inr (inr (key, value, refl))

read_lines-IsSound :
    (alloc : ℕ → ConfigAllocator) (n : ℕ) (file : List Bytes) (c : Config)
    → IsSound c
    → IsSound (read_lines alloc n file c).1
unfolding read_lines
read_lines-IsSound alloc n [] c h = h
read_lines-IsSound alloc n (line ∷ file) c h = elim (Line-cases (scan_line line)) [
  | inl w ↦ rw (w, read_lines) h
  | inr (inl e) ↦ rw (e, read_lines) (read_lines-IsSound alloc (suc n) file c h)
  | inr (inr (key, value, e)) ↦
      let done = process_config_value (alloc (suc n)) key value c in
      let kept = process_config_value-IsSound (alloc (suc n)) key value c h in
      rw (e, read_lines)
        (after_success (λ (r : ReadConfig × Config). IsSound r.1) done.0
          (read_lines alloc (suc n) file done.1) (λ failure. (error_on (suc n), done.1))
          (λ s. read_lines-IsSound alloc (suc n) file done.1 kept) (λ s. kept))
]

-- Whatever the file is, `read_config` leaves configured options that their file systems accept.
pub read_config-IsSound :
    (alloc : ℕ → ConfigAllocator) (file : Option Bytes) (c : Config)
    → IsSound c
    → IsSound (read_config alloc file c).1
unfolding read_config
read_config-IsSound alloc none c h = h
read_config-IsSound alloc (some file) c h = read_lines-IsSound alloc 0 (lines file) c h
