-- ===== src/Options/Generate.antt =====
-- `fsopts_generate_string` in the Linux build.
use dtmd.Common.{
  take_bytes, ℕ, ◌+◌, ◌-◌, Bool, false, Option, none, some, List, [], ◌∷◌, ◌++◌, ltb, leb,
  if◌then◌else◌, length, Bytes,
}
use dtmd.Options.Types.{Flag, flag_eq, Item, OptionId, FsoptsList}

-- A string in the making: the bytes written to its buffer, `string_len`, and `current_item`.
pub record Output : Type 0 where
  pub buffer : Bytes
  pub string_len : ℕ
  pub current_item : ℕ

-- A write of `text` at `string_len` to a buffer of the size, `none` for no buffer.
unfoldable pub write : Option ℕ → Bytes → Output → Output
write none text o = record o { string_len = o.string_len + length text }
write (some size) text o = record o {
  buffer =
      if leb (o.string_len + length text) size
      then o.buffer ++ text
      else if ltb o.string_len size
      then o.buffer ++ take_bytes (size - o.string_len) text
      else o.buffer;
  string_len = o.string_len + length text;
}

unfoldable pub write_comma : Option ℕ → Output → Output
write_comma size o = if ltb 0 o.current_item then write size (b',' ∷ []) o else o

unfoldable pub count_item : Output → Output
count_item o = record o { current_item = o.current_item + 1 }

unfoldable pub write_option : Option ℕ → Item → Output → Output
write_option size item o =
    count_item (write size (take_bytes item.option_full_len item.option) (write_comma size o))

-- The blocks for `uid` and `gid`.
unfoldable pub write_id : Option ℕ → Option OptionId → Output → Output
write_id size none o = o
write_id size (some id) o =
    count_item (write size id.id_option_value (write size id.id_option (write_comma size o)))

-- The options of the full string, and those without a flag of the other one.
unfoldable pub write_full : Option ℕ → List Item → Output → Output
write_full size [] o = o
write_full size (item ∷ items) o = write_full size items (write_option size item o)

unfoldable pub write_unflagged : Option ℕ → List Item → Output → Output
write_unflagged size [] o = o
write_unflagged size (item ∷ items) o = elim item.flag [
  | none ↦ write_unflagged size items (write_option size item o)
  | some f ↦ write_unflagged size items o
]

-- The mount flags, as the set of their bits: `|=` and `&= ~`.
unfoldable pub set_flag : Flag → Bool → (Flag → Bool) → Flag → Bool
set_flag flag enabled flags f = if flag_eq flag f then enabled else flags f

unfoldable pub mount_flags : List Item → (Flag → Bool) → Flag → Bool
mount_flags [] flags = flags
mount_flags (item ∷ items) flags = elim item.flag [
  | none ↦ mount_flags items flags
  | some f ↦ mount_flags items (set_flag f item.enabled flags)
]

pub record Generated : Type 0 where
  pub full_string : Output
  pub string : Output
  pub flags : Flag → Bool

abbrev pub fresh : Output
fresh = record { buffer = []; string_len = 0; current_item = 0 }

unfoldable pub fsopts_generate_string : Option ℕ → Option ℕ → FsoptsList → Generated
fsopts_generate_string full_size size l = record {
  full_string =
      write_id full_size l.option_gid
        (write_id full_size l.option_uid (write_full full_size l.options fresh));
  string =
      write_id size l.option_gid
        (write_id size l.option_uid (write_unflagged size l.options fresh));
  flags = mount_flags l.options (λ f. false);
}
