-- ===== src/Options/Writes.antt =====
-- The writes of `fsopts_generate_string` to its buffers, each cut at the size of the buffer.
use dtmd.Common.{
  take_bytes, ℕ, zero, suc, ◌+◌, ◌-◌, ◌≤◌, ◌≡◌, refl, sym, ap, ◌∙◌, Option, none, some, [], ◌∷◌,
  ◌++◌, append-nil, append_assoc, arith, if_cases, ltb, leb, length, length-append, Bytes,
}
use dtmd.Options.Types.{Item, OptionId}
use dtmd.Options.Generate.{Output, write, write_comma, count_item, write_option, write_id}

pub take_bytes-all : (n : ℕ) (s : Bytes) → length s ≤ n → take_bytes n s ≡ s
take_bytes-all zero [] h = refl
take_bytes-all zero (c ∷ s) h = absurd (omega arith)
take_bytes-all (suc n) [] h = refl
take_bytes-all (suc n) (c ∷ s) h = ap (λ t. c ∷ t) (take_bytes-all n s (omega arith))

nothing_left : {n m : ℕ} → n ≤ m → 0 ≡ n - m
nothing_left h = omega arith

minus_both : (n m : ℕ) → n - m ≡ suc n - suc m
minus_both n m = omega arith

suc_minus : (n : ℕ) → suc n ≡ suc n - 0
suc_minus n = omega arith

take_bytes-append :
    (n : ℕ) (s t : Bytes) → take_bytes n (s ++ t) ≡ take_bytes n s ++ take_bytes (n - length s) t
take_bytes-append zero [] t = refl
take_bytes-append (suc n) [] t = ap (λ m. take_bytes m t) (suc_minus n)
take_bytes-append zero (c ∷ s) t = ap (λ n. take_bytes n t) (nothing_left (omega arith))
take_bytes-append (suc n) (c ∷ s) t =
    ap (λ u. c ∷ u) (take_bytes-append n s t)
    ∙ ap (λ m. c ∷ (take_bytes n s ++ take_bytes m t)) (minus_both n (length s))

pub length-take_bytes : (n : ℕ) (s : Bytes) → length (take_bytes n s) ≤ n
length-take_bytes zero s = omega arith
length-take_bytes (suc n) [] = omega arith
length-take_bytes (suc n) (c ∷ s) = omega (arith, length-take_bytes n s)

-- The part of a text that stands in a buffer.
abbrev pub shown : Option ℕ → Bytes → Bytes
shown none s = []
shown (some size) s = take_bytes size s

-- An output in which the text has been written, as so many items.
abbrev pub Holds : Option ℕ → Bytes → ℕ → Output → Type 0
Holds size s k o = (o.buffer ≡ shown size s) × (o.string_len ≡ length s) × (o.current_item ≡ k)

write-Holds :
    (size : Option ℕ) (s text : Bytes) (k : ℕ) (o : Output)
    → Holds size s k o
    → Holds size (s ++ text) k (write size text o)
unfolding write
write-Holds none s text k o (b, l, c) = (b, omega (arith, length-append s text), c)
write-Holds (some size) s text k o (b, l, c) = (
  (if_cases (λ x. x ≡ take_bytes size s ++ take_bytes (size - length s) text)
        (leb (o.string_len + length text) size)
        (λ e. rw b (
          ap (λ x. take_bytes size s ++ x)
            (sym (take_bytes-all (size - length s) text (ground arith)))))
        (λ e.
          if_cases (λ x. x ≡ take_bytes size s ++ take_bytes (size - length s) text)
            (ltb o.string_len size) (λ f. rw (b, l) refl)
            (λ f.
              b
              ∙ sym (append-nil (take_bytes size s))
              ∙ ap (λ n. take_bytes size s ++ take_bytes n text) (nothing_left (ground arith)))))
      ∙ sym (take_bytes-append size s text),
  omega (arith, length-append s text),
  c,
)

-- The comma in front of an item that is not the first.
abbrev pub comma : ℕ → Bytes
comma zero = []
comma (suc k) = b',' ∷ []

write_comma-Holds :
    (size : Option ℕ) (s : Bytes) (k : ℕ) (o : Output)
    → Holds size s k o
    → Holds size (s ++ comma k) k (write_comma size o)
unfolding write_comma
write_comma-Holds size s zero o (b, l, c) =
    if_cases (λ x. Holds size (s ++ []) zero x) (ltb 0 o.current_item) (λ e. absurd (ground arith))
      (λ e. rw (append-nil s) (b, l, c))
write_comma-Holds size s (suc k) o (b, l, c) =
    if_cases (λ x. Holds size (s ++ b',' ∷ []) (suc k) x) (ltb 0 o.current_item)
      (λ e. write-Holds size s (b',' ∷ []) (suc k) o (b, l, c)) (λ e. absurd (ground arith))

unfoldable pub option_text : Item → Bytes
option_text item = take_bytes item.option_full_len item.option

pub write_option-Holds :
    (size : Option ℕ) (s : Bytes) (k : ℕ) (o : Output) (item : Item)
    → Holds size s k o
    → Holds size (s ++ (comma k ++ option_text item)) (suc k) (write_option size item o)
unfolding write_option count_item option_text
write_option-Holds size s k o item h =
    let text = take_bytes item.option_full_len item.option in
    let written =
      write-Holds size (s ++ comma k) text k (write_comma size o)
        (write_comma-Holds size s k o h) in
    rw (sym (append_assoc s (comma k) text)) (written.0, written.1, omega (arith, written.2))

pub write_id-Holds :
    (size : Option ℕ) (s : Bytes) (k : ℕ) (o : Output) (id : OptionId)
    → Holds size s k o
    → Holds size
        (s ++ (comma k ++ (id.id_option ++ id.id_option_value)))
        (suc k)
        (write_id size (some id) o)
unfolding write_id count_item
write_id-Holds size s k o id h =
    let name =
      write-Holds size (s ++ comma k) id.id_option k (write_comma size o)
        (write_comma-Holds size s k o h) in
    let value =
      write-Holds size ((s ++ comma k) ++ id.id_option) id.id_option_value k
        (write size id.id_option (write_comma size o)) name in
    let same =
      append_assoc (s ++ comma k) id.id_option id.id_option_value
      ∙ append_assoc s (comma k) (id.id_option ++ id.id_option_value) in
    (value.0 ∙ ap (shown size) same, value.1 ∙ ap length same, omega (arith, value.2))
