-- ===== src/Label/HighBytes.antt =====
-- Bytes of 128 and more, where `char` is signed: the comparison refuses what the decoder writes.
use dtmd.Common.{ℕ, ◌+◌, ◌*◌, ◌≤◌, [], ◌∷◌, ◌≡◌, arith, ok, failed}
use dtmd.Label.Ctype.{is_literal, escape_letter, hex_digit, read_hex}
use dtmd.Label.Compare.{
  match_int, match_escape, compare_other, compare_escape, compare_backslash, compare_round,
  compare_loop, compare_labels,
}
use dtmd.Label.Decode.{
  emit, emit_escape, decode_other, decode_escape, decode_backslash, decode_round, decode_loop,
  decode_label,
}

refuse_int : (k : ℕ) → 128 ≤ k → k ≤ 255 → match_escape (k ∷ []) (k, []) ≡ failed
unfolding match_escape match_int is_literal
refuse_int k low high = ground arith

module _ (h l a b : ℕ) (high : hex_digit h ≡ ok a) (low : hex_digit l ≡ ok b) where
  hex_digit-lt : (a ≤ 15) × (b ≤ 15)
  unfolding hex_digit
  hex_digit-lt = ground arith

  decode_high : 8 ≤ a → decode_label (b'\\' ∷ b'x' ∷ h ∷ l ∷ []) ≡ ok ((a * 16 + b) ∷ [])
  unfolding decode_label decode_loop decode_round decode_backslash decode_escape decode_other
      escape_letter read_hex emit_escape emit is_literal
  decode_high e = ground (arith, hex_digit-lt)

  compare_high : 8 ≤ a → compare_labels ((a * 16 + b) ∷ []) (b'\\' ∷ b'x' ∷ h ∷ l ∷ []) ≡ failed
  unfolding compare_labels compare_loop compare_round compare_backslash compare_escape compare_other
      escape_letter read_hex
  compare_high e =
      rw (high, low)
        (rw (refuse_int (a * 16 + b) (omega (arith, hex_digit-lt)) (omega (arith, hex_digit-lt))))

-- A hexadecimal escape of 128 or more decodes to its byte, and `compare_labels` then refuses that
-- byte for that escape.
pub high_escape_refused :
    (h l a b : ℕ)
    → hex_digit h ≡ ok a
    → hex_digit l ≡ ok b
    → 8 ≤ a
    → (decode_label (b'\\' ∷ b'x' ∷ h ∷ l ∷ []) ≡ ok ((a * 16 + b) ∷ []))
      × (compare_labels ((a * 16 + b) ∷ []) (b'\\' ∷ b'x' ∷ h ∷ l ∷ []) ≡ failed)
high_escape_refused h l a b high low e =
    (decode_high h l a b high low e, compare_high h l a b high low e)
