-- ===== src/Options/Strings.antt =====
-- What `fsopts_generate_string` writes: the texts of the options with commas between them.
use dtmd.Common.{
  ℕ, zero, suc, ◌+◌, ◌≤◌, ◌≡◌, refl, sym, ap, subst, ◌∙◌, Option, none, some, List, [], ◌∷◌, ◌++◌,
  append-nil, append_assoc, map, inl, inr, Option-cases, arith, length, length-append, Bytes,
}
use dtmd.Options.Types.{Item, OptionId, FsoptsList}
use dtmd.Options.Generate.{
  Output, Generated, write_option, write_id, write_full, write_unflagged, fresh,
  fsopts_generate_string,
}
use dtmd.Options.Writes.{
  take_bytes-all, length-take_bytes, shown, Holds, comma, write_option-Holds, option_text,
  write_id-Holds,
}

abbrev pub behind_comma : List Bytes → Bytes
behind_comma [] = []
behind_comma (text ∷ texts) = b',' ∷ text ++ behind_comma texts

-- The texts with a comma between each two.
abbrev pub separated : List Bytes → Bytes
separated [] = []
separated (text ∷ texts) = text ++ behind_comma texts

-- The texts behind `s`, which has `k` items.
abbrev joined : Bytes → ℕ → List Bytes → Bytes
joined s k [] = s
joined s k (text ∷ texts) = joined (s ++ (comma k ++ text)) (suc k) texts

joined-behind :
    (s : Bytes) (k : ℕ) (texts : List Bytes) → joined s (suc k) texts ≡ s ++ behind_comma texts
joined-behind s k [] = sym (append-nil s)
joined-behind s k (text ∷ texts) =
    joined-behind (s ++ (b',' ∷ text)) (suc k) texts
    ∙ append_assoc s (b',' ∷ text) (behind_comma texts)

joined-separated : (texts : List Bytes) → joined [] 0 texts ≡ separated texts
joined-separated [] = refl
joined-separated (text ∷ texts) = joined-behind text 0 texts

unfoldable pub id_texts : Option OptionId → List Bytes
id_texts none = []
id_texts (some id) = (id.id_option ++ id.id_option_value) ∷ []

plus_zero : (n : ℕ) → 0 + n ≡ n
plus_zero n = omega arith

joined-append :
    (s : Bytes) (k : ℕ) (texts : List Bytes) (text : Bytes)
    → joined s k (texts ++ text ∷ []) ≡ joined s k texts ++ (comma (k + length texts) ++ text)
joined-append s k [] text = ap (λ n. s ++ (comma n ++ text)) (omega arith)
joined-append s k (t ∷ texts) text =
    joined-append (s ++ (comma k ++ t)) (suc k) texts text
    ∙ ap (λ n. joined (s ++ (comma k ++ t)) (suc k) texts ++ (comma n ++ text)) (omega arith)

-- An output of the texts, and of one more.
abbrev Written : Option ℕ → List Bytes → Output → Type 0
Written size texts o = Holds size (joined [] 0 texts) (length texts) o

Written-append :
    (size : Option ℕ) (texts : List Bytes) (text : Bytes) (o : Output)
    → Holds size (joined [] 0 texts ++ (comma (length texts) ++ text)) (suc (length texts)) o
    → Written size (texts ++ text ∷ []) o
Written-append size texts text o h =
    let same =
      joined-append [] 0 texts text
      ∙ ap (λ n. joined [] 0 texts ++ (comma n ++ text)) (plus_zero (length texts)) in
    (
      h.0 ∙ ap (shown size) (sym same),
      h.1 ∙ ap length (sym same),
      omega (arith, h.2, length-append texts (text ∷ [])),
    )

write_full-Written :
    (size : Option ℕ) (texts : List Bytes) (items : List Item) (o : Output)
    → Written size texts o
    → Written size (texts ++ map option_text items) (write_full size items o)
unfolding write_full
write_full-Written size texts [] o h = rw (append-nil texts) h
write_full-Written size texts (item ∷ items) o h =
    let text = option_text item in
    subst (λ ts. Written size ts (write_full size items (write_option size item o)))
      (append_assoc texts (text ∷ []) (map option_text items))
      (write_full-Written size (texts ++ text ∷ []) items (write_option size item o) (
        Written-append size texts text (write_option size item o)
          (write_option-Holds size (joined [] 0 texts) (length texts) o item h)))

-- The options that are no mount flags.
abbrev pub unflagged : List Item → List Item
unflagged [] = []
unflagged (item ∷ items) =
    let rest = unflagged items in elim item.flag [ none ↦ item ∷ rest | some f ↦ rest ]

write_unflagged-Written :
    (size : Option ℕ) (texts : List Bytes) (items : List Item) (o : Output)
    → Written size texts o
    → Written size (texts ++ map option_text (unflagged items)) (write_unflagged size items o)
unfolding write_unflagged
write_unflagged-Written size texts [] o h = rw (append-nil texts) h
write_unflagged-Written size texts (item ∷ items) o h =
    let text = option_text item in
    elim (Option-cases item.flag) [
      | inl n ↦
          rw (n, write_unflagged)
            (subst (λ ts. Written size ts (write_unflagged size items (write_option size item o)))
              (append_assoc texts (text ∷ []) (map option_text (unflagged items)))
              (write_unflagged-Written size (texts ++ text ∷ []) items (write_option size item o) (
                Written-append size texts text (write_option size item o)
                  (write_option-Holds size (joined [] 0 texts) (length texts) o item h))))
      | inr s ↦ rw (s.1, write_unflagged) (write_unflagged-Written size texts items o h)
    ]

write_id-Written :
    (size : Option ℕ) (texts : List Bytes) (id : Option OptionId) (o : Output)
    → Written size texts o
    → Written size (texts ++ id_texts id) (write_id size id o)
unfolding write_id id_texts
write_id-Written size texts none o h = rw (append-nil texts) h
write_id-Written size texts (some id) o h =
    Written-append size texts (id.id_option ++ id.id_option_value) (write_id size (some id) o)
      (write_id-Holds size (joined [] 0 texts) (length texts) o id h)

-- The texts of the full string, and of the one without the mount flags.
abbrev pub full_texts : FsoptsList → List Bytes
full_texts l = (map option_text l.options ++ id_texts l.option_uid) ++ id_texts l.option_gid

abbrev pub string_texts : FsoptsList → List Bytes
string_texts l =
    (map option_text (unflagged l.options) ++ id_texts l.option_uid) ++ id_texts l.option_gid

abbrev pub Shows : Option ℕ → List Bytes → Output → Type 0
Shows size texts o =
    (o.buffer ≡ shown size (separated texts)) × (o.string_len ≡ length (separated texts))

Written-Shows :
    (size : Option ℕ) (texts : List Bytes) (o : Output) → Written size texts o → Shows size texts o
Written-Shows size texts o h =
    (h.0 ∙ ap (shown size) (joined-separated texts), h.1 ∙ ap length (joined-separated texts))

fresh-Written : (size : Option ℕ) → Written size [] fresh
fresh-Written none = (refl, refl, refl)
fresh-Written (some zero) = (refl, refl, refl)
fresh-Written (some (suc n)) = (refl, refl, refl)

-- Each string of `fsopts_generate_string` is the texts of its options, the user id and the group
-- id with commas between them, of which its buffer, if there is one, holds what fits its size, and
-- the length that is given back is that of the whole string.
pub fsopts_generate_string-Shows :
    (full_size size : Option ℕ) (l : FsoptsList)
    → Shows full_size (full_texts l) (fsopts_generate_string full_size size l).full_string
      × Shows size (string_texts l) (fsopts_generate_string full_size size l).string
unfolding fsopts_generate_string
fsopts_generate_string-Shows full_size size l =
    let full = write_full full_size l.options fresh in
    let part = write_unflagged size l.options fresh in
    (
      Written-Shows full_size (full_texts l)
          (write_id full_size l.option_gid (write_id full_size l.option_uid full))
          (write_id-Written full_size (map option_text l.options ++ id_texts l.option_uid)
            l.option_gid (write_id full_size l.option_uid full)
            (write_id-Written full_size (map option_text l.options) l.option_uid full
              (write_full-Written full_size [] l.options fresh (fresh-Written full_size)))),
      Written-Shows size (string_texts l)
          (write_id size l.option_gid (write_id size l.option_uid part))
          (write_id-Written size (map option_text (unflagged l.options) ++ id_texts l.option_uid)
            l.option_gid (write_id size l.option_uid part)
            (write_id-Written size (map option_text (unflagged l.options)) l.option_uid part
              (write_unflagged-Written size [] l.options fresh (fresh-Written size)))),
    )

-- The two calls of `invoke_mount_internal` of daemon/filesystem_mnt.c: the lengths, then the strings.
abbrev pub measured : FsoptsList → Generated
measured l =
    let sizes = fsopts_generate_string none none l in
    fsopts_generate_string (some sizes.full_string.string_len) (some sizes.string.string_len) l

-- A buffer of the size that is given back without buffers holds the whole string, and no buffer is
-- written beyond its size.
pub fsopts_generate_string-fits :
    (full_size size : ℕ) (l : FsoptsList)
    → (length (fsopts_generate_string (some full_size) (some size) l).full_string.buffer
        ≤ full_size)
      × (length (fsopts_generate_string (some full_size) (some size) l).string.buffer ≤ size)
      × ((measured l).full_string.buffer ≡ separated (full_texts l))
      × ((measured l).string.buffer ≡ separated (string_texts l))
fsopts_generate_string-fits full_size size l =
    let sizes = fsopts_generate_string none none l in
    let counted = fsopts_generate_string-Shows none none l in
    let cut = fsopts_generate_string-Shows (some full_size) (some size) l in
    let whole =
      fsopts_generate_string-Shows (some sizes.full_string.string_len)
        (some sizes.string.string_len) l in
    (
      rw cut.0.0 (length-take_bytes full_size (separated (full_texts l))),
      rw cut.1.0 (length-take_bytes size (separated (string_texts l))),
      whole.0.0
          ∙ take_bytes-all sizes.full_string.string_len (separated (full_texts l))
              (omega (arith, counted.0.1)),
      whole.1.0
          ∙ take_bytes-all sizes.string.string_len (separated (string_texts l))
              (omega (arith, counted.1.1)),
    )
