-- ===== src/Config/Printed.antt =====
-- The scan of a line that is a setting.
use dtmd.Common.{
  ℕ, suc, ◌+◌, ◌-◌, ◌≡◌, refl, ap, ◌∙◌, Bool, true, false, none, some, [], ◌∷◌, ◌++◌, arith, All,
  length, Bytes, take_bytes, drop_bytes,
}
use dtmd.Config.Scan.{
  Scan, blank_scan, go, is_alphanumeric, is_plain, is_text, quotes_after, scan_text, scan_equal,
  close_text, scan_newline, scan_byte, scan_bytes, slice, slice_of, setting, wrong, empty, sets,
  line_of, scan_line,
}

-- A text that may stand in a value, quotation marks open or not.
abbrev pub Allows : Bool → Bytes → Type 0
Allows inside [] = Unit
Allows inside (c ∷ text) = (is_text inside c ≡ true) × Allows (quotes_after inside c) text

abbrev pub quotes_at : Bool → Bytes → Bool
quotes_at inside [] = inside
quotes_at inside (c ∷ text) = quotes_at (quotes_after inside c) text

abbrev in_key : Scan
in_key = record blank_scan { key_start = some 0 }

abbrev in_value : Bool → ℕ → ℕ → Scan
in_value inside equal start = record {
  inside_quotes = inside;
  key_start = some 0;
  key_end = some equal;
  equal_start = some equal;
  value_start = some start;
  value_end = none;
}

pub is_plain-is_text :
    (c : ℕ) → is_plain c ≡ true → (is_text false c ≡ true) × (quotes_after false c ≡ false)
unfolding is_plain is_alphanumeric is_text quotes_after
is_plain-is_text c h = ground arith

-- One step of the scan.
scan_bytes-go :
    (i c : ℕ) (line : Bytes) (s t : Scan)
    → scan_byte i c s ≡ go t
    → scan_bytes i (c ∷ line) s ≡ scan_bytes (suc i) line t
unfolding scan_bytes
scan_bytes-go i c line s t e = rw (e, scan_bytes)

scan_byte-text :
    (i c : ℕ) (s : Scan)
    → is_text s.inside_quotes c ≡ true
    → scan_byte i c s ≡ scan_text i (record s { inside_quotes = quotes_after s.inside_quotes c })
unfolding scan_byte
scan_byte-text i c s e = rw (e, scan_byte)

scan_bytes-key :
    (key rest : Bytes) (i j : ℕ)
    → i + length key ≡ j
    → All (λ c. is_plain c ≡ true) key
    → scan_bytes i (key ++ rest) in_key ≡ scan_bytes j rest in_key
unfolding scan_text
scan_bytes-key [] rest i j e h = ap (λ n. scan_bytes n rest in_key) (omega arith)
scan_bytes-key (c ∷ key) rest i j e h =
    let plain = is_plain-is_text c h.0 in
    scan_bytes-go i c (key ++ rest) in_key in_key (
      scan_byte-text i c in_key plain.0
      ∙ ap (λ q. go (record in_key { inside_quotes = q })) plain.1)
    ∙ scan_bytes-key key rest (suc i) j (omega arith) h.1

scan_bytes-value :
    (value rest : Bytes) (inside : Bool) (equal start i j : ℕ)
    → i + length value ≡ j
    → Allows inside value
    → scan_bytes i (value ++ rest) (in_value inside equal start)
      ≡ scan_bytes j rest (in_value (quotes_at inside value) equal start)
unfolding scan_text
scan_bytes-value [] rest inside equal start i j e h =
    ap (λ n. scan_bytes n rest (in_value inside equal start)) (omega arith)
scan_bytes-value (c ∷ value) rest inside equal start i j e h =
    scan_bytes-go i c (value ++ rest) (in_value inside equal start)
      (in_value (quotes_after inside c) equal start)
      (scan_byte-text i c (in_value inside equal start) h.0)
    ∙ scan_bytes-value value rest (quotes_after inside c) equal start (suc i) j (omega arith) h.1

scan_byte-equal :
    (i : ℕ) → scan_byte i b'=' in_key ≡ go (record (in_value false i 0) { value_start = none })
unfolding scan_byte is_text is_plain is_alphanumeric scan_equal
scan_byte-equal i = refl

-- A key, and a value behind the sign.
abbrev pub IsKey : Bytes → Type 0
IsKey [] = ⊥
IsKey (c ∷ key) = All (λ d. is_plain d ≡ true) (c ∷ key)

abbrev pub IsValue : Bytes → Type 0
IsValue [] = ⊥
IsValue (c ∷ value) = Allows false (c ∷ value)

-- The scan of a setting, up to what stands behind it.
scan_bytes-setting :
    (key value rest : Bytes)
    → IsKey key
    → IsValue value
    → scan_bytes 0 (key ++ (b'=' ∷ (value ++ rest))) blank_scan
      ≡ scan_bytes
          (suc (length key) + length value)
          rest
          (in_value (quotes_at false value) (length key) (suc (length key)))
unfolding scan_text scan_equal
scan_bytes-setting [] value rest k v = absurd k
scan_bytes-setting (c ∷ key) [] rest k v = absurd v
scan_bytes-setting (c ∷ key) (d ∷ value) rest k v =
    let plain = is_plain-is_text c k.0 in
    let equal = length (c ∷ key) in
    let at_equal = record (in_value false equal 0) { value_start = none } in
    scan_bytes-go 0 c (key ++ (b'=' ∷ d ∷ (value ++ rest))) blank_scan in_key (
      scan_byte-text 0 c blank_scan plain.0
      ∙ ap (λ q. go (record in_key { inside_quotes = q })) plain.1)
    ∙ scan_bytes-key key (b'=' ∷ d ∷ (value ++ rest)) 1 equal (omega arith) k.1
    ∙ scan_bytes-go equal b'=' (d ∷ (value ++ rest)) in_key at_equal (scan_byte-equal equal)
    ∙ scan_bytes-go (suc equal) d (value ++ rest) at_equal
        (in_value (quotes_after false d) equal (suc equal))
        (scan_byte-text (suc equal) d at_equal v.0)
    ∙ scan_bytes-value value rest (quotes_after false d) equal (suc equal) (suc (suc equal))
        (suc equal + length (d ∷ value)) (omega arith) v.1

-- What stands behind a value: the newline that ends it, a blank, nothing.
scan_bytes-newline :
    (q : Bool) (i equal start : ℕ)
    → scan_bytes i (10 ∷ []) (in_value q equal start)
      ≡ some (record (in_value q equal start) { value_end = some i })
unfolding scan_bytes scan_byte is_text is_plain is_alphanumeric scan_newline
scan_bytes-newline true i equal start = refl
scan_bytes-newline false i equal start = refl

scan_bytes-blank :
    (q : Bool) (i equal start : ℕ) → scan_bytes i (b' ' ∷ 10 ∷ []) (in_value q equal start) ≡ none
unfolding scan_bytes scan_byte is_text is_plain is_alphanumeric scan_newline close_text
scan_bytes-blank true i equal start = refl
scan_bytes-blank false i equal start = refl

drop_bytes-append : (s t : Bytes) (c : ℕ) → drop_bytes (suc (length s)) (s ++ (c ∷ t)) ≡ t
drop_bytes-append [] t c = refl
drop_bytes-append (d ∷ s) t c = drop_bytes-append s t c

take_bytes-append : (s t : Bytes) → take_bytes (length s) (s ++ t) ≡ s
take_bytes-append [] t = refl
take_bytes-append (c ∷ s) t = ap (λ u. c ∷ u) (take_bytes-append s t)

-- A setting as a line.
abbrev pub print_setting : Bytes → Bytes → Bytes
print_setting key value = key ++ (b'=' ∷ (value ++ 10 ∷ []))

pub scan_line-print_setting :
    (key value : Bytes)
    → IsKey key
    → IsValue value
    → scan_line (print_setting key value) ≡ sets key value
unfolding scan_line line_of setting slice_of
scan_line-print_setting key value k v =
    let line = print_setting key value in
    let n = length key in
    let end = suc n + length value in
    ap (line_of line) (
      scan_bytes-setting key value (10 ∷ []) k v
      ∙ scan_bytes-newline (quotes_at false value) end n (suc n))
    ∙ ap (λ m. sets (take_bytes m line) (slice (suc n) end line)) (minus_zero n)
    ∙ ap (λ t. sets t (slice (suc n) end line)) (take_bytes-append key (b'=' ∷ (value ++ 10 ∷ [])))
    ∙ ap (λ t. sets key (take_bytes (end - suc n) t))
        (drop_bytes-append key (value ++ 10 ∷ []) b'=')
    ∙ ap (λ m. sets key (take_bytes m (value ++ 10 ∷ []))) (plus_minus (suc n) (length value))
    ∙ ap (λ t. sets key t) (take_bytes-append value (10 ∷ []))
  where
    minus_zero : (n : ℕ) → n - 0 ≡ n
    minus_zero n = omega arith

    plus_minus : (n m : ℕ) → n + m - n ≡ m
    plus_minus n m = omega arith

-- A setting with a blank behind its value makes the line an error, and a last line that has no
-- newline is passed over without one.
pub scan_line-ends :
    (key value : Bytes)
    → IsKey key
    → IsValue value
    → (scan_line (key ++ (b'=' ∷ (value ++ b' ' ∷ 10 ∷ []))) ≡ wrong)
      × (scan_line (key ++ (b'=' ∷ (value ++ []))) ≡ empty)
unfolding scan_line line_of setting scan_bytes
scan_line-ends key value k v =
    let n = length key in
    let end = suc n + length value in
    (
      ap (line_of (key ++ (b'=' ∷ (value ++ b' ' ∷ 10 ∷ [])))) (
          scan_bytes-setting key value (b' ' ∷ 10 ∷ []) k v
          ∙ scan_bytes-blank (quotes_at false value) end n (suc n)),
      ap (line_of (key ++ (b'=' ∷ (value ++ [])))) (scan_bytes-setting key value [] k v),
    )
