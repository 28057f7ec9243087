-- ===== src/Options/Convert.antt =====
-- `get_fsopts_for_fs`, `find_option_in_list` and `convert_options_to_list`.
use dtmd.Common.{
  take_bytes, drop_bytes, decimal, ℕ, zero, suc, ◌-◌, Bool, true, false, ◌&&◌, Option, none, some,
  List, [], ◌∷◌, ◌++◌, ltb, ◌==◌, if◌then◌else◌, length, Bytes, str_eq,
}
use dtmd.Misc.Types.{ReturnCode, success, fail, fatal_error, bug}
use dtmd.Options.Types.{
  flag_eq, MountFlag, MountOption, FilesystemOptions, Item, OptionId, FsoptsList,
}
use dtmd.Options.Tables.{string_to_mount_flag_list, filesystem_mount_options}

-- `strncmp(a, b, n) == 0`
abbrev pub strn_eq : ℕ → Bytes → Bytes → Bool
strn_eq zero a b = true
strn_eq (suc n) [] [] = true
strn_eq (suc n) (x ∷ a) (y ∷ b) = x == y && strn_eq n a b
strn_eq (suc n) _ _ = false

unfoldable pub find_filesystem : Bytes → List FilesystemOptions → Option FilesystemOptions
unfolding str_eq
find_filesystem filesystem [] = none
find_filesystem filesystem (fs ∷ table) =
    if str_eq fs.fstype filesystem then some fs else find_filesystem filesystem table

unfoldable pub get_fsopts_for_fs : Bytes → Option FilesystemOptions
unfolding find_filesystem filesystem_mount_options
get_fsopts_for_fs filesystem = find_filesystem filesystem filesystem_mount_options

-- The test of `find_option_in_list` for one entry of a table.
unfoldable pub is_option : Bytes → ℕ → MountOption → Bool
is_option option option_len o =
    if o.has_param
    then ltb (length o.option) option_len && strn_eq (length o.option) option o.option
    else length o.option == option_len && strn_eq option_len option o.option

unfoldable pub find_in_table : Bytes → ℕ → List MountOption → Option MountOption
find_in_table option option_len [] = none
find_in_table option option_len (o ∷ table) =
    if is_option option option_len o then some o else find_in_table option option_len table

unfoldable pub find_in_tables : Bytes → ℕ → List (List MountOption) → Option MountOption
find_in_tables option option_len [] = none
find_in_tables option option_len (table ∷ tables) = elim (find_in_table option option_len table) [
  | some o ↦ some o
  | none ↦ find_in_tables option option_len tables
]

unfoldable pub find_option_in_list : Bytes → ℕ → FilesystemOptions → Option MountOption
find_option_in_list option option_len fs = find_in_tables option option_len fs.options

-- The loop over `string_to_mount_flag_list`.
unfoldable pub find_mount_flag : Bytes → ℕ → List MountFlag → Option MountFlag
find_mount_flag option option_len [] = none
find_mount_flag option option_len (m ∷ table) =
    if option_len == length m.option && strn_eq option_len option m.option
    then some m
    else find_mount_flag option option_len table

-- The bytes before the next comma, or before the end.
unfoldable pub option_length : Bytes → ℕ
option_length [] = 0
option_length (c ∷ s) = if c == b',' then 0 else suc (option_length s)

-- The values that `opt_start` takes behind the first: what stands behind each comma.
unfoldable pub behind_commas : Bytes → List Bytes
behind_commas [] = []
behind_commas (c ∷ s) = if c == b',' then s ∷ behind_commas s else behind_commas s

unfoldable pub option_starts : Bytes → List Bytes
option_starts [] = []
option_starts (c ∷ s) = (c ∷ s) ∷ behind_commas (c ∷ s)

unfoldable pub validate : MountOption → Bytes → ℕ → ReturnCode
validate o option option_len = elim o.validation_function [
  | none ↦ success
  | some function ↦
      function (take_bytes (option_len - length o.option) (drop_bytes (length o.option) option))
]

-- Whether an item of the list is the same option, and is to be replaced.
unfoldable pub is_duplicate : Bytes → Option MountFlag → Item → Bool
is_duplicate option none item = strn_eq item.option_len option item.option
is_duplicate option (some m) item = elim item.flag [ none ↦ false | some f ↦ flag_eq m.flag f ]

-- The list without the first item of which the test holds.
unfoldable pub take_out : (Item → Bool) → List Item → Option (List Item)
take_out test [] = none
take_out test (item ∷ items) =
    if test item
    then some items
    else elim (take_out test items) [ none ↦ none | some others ↦ some (item ∷ others) ]

unfoldable pub fill_item : Bytes → ℕ → MountOption → Option MountFlag → Item
fill_item option option_len o none = record {
  option = option;
  flag = none;
  enabled = false;
  option_full_len = option_len;
  option_len = length o.option;
}
fill_item option option_len o (some m) = record {
  option = option;
  flag = some m.flag;
  enabled = m.enabled;
  option_full_len = option_len;
  option_len = option_len;
}

-- The allocator's answers: for the item of the option at a place, and for the two ids.
pub record OptionAllocator : Type 0 where
  pub item : Bytes → Bool
  pub uid : Bool
  pub gid : Bool

-- An option takes the place at the end, whether it was in the list or not.
unfoldable pub place_item : Bool → (Item → Bool) → Item → List Item → ReturnCode × List Item
place_item allocated test new items = elim (take_out test items) [
  | some others ↦ (success, others ++ new ∷ [])
  | none ↦ if allocated then (success, items ++ new ∷ []) else (fatal_error, items)
]

unfoldable pub convert_found :
    OptionAllocator → Bytes → ℕ → MountOption → List Item → ReturnCode × List Item
convert_found alloc option option_len o items =
    let m = find_mount_flag option option_len string_to_mount_flag_list in
    elim (validate o option option_len) [
      | success ↦
          place_item (alloc.item option) (is_duplicate option m) (fill_item option option_len o m)
            items
      | failure ↦ (failure, items)
    ]

-- One round of the loop.
unfoldable pub convert_option :
    OptionAllocator → FilesystemOptions → Bytes → List Item → ReturnCode × List Item
convert_option alloc fs option items =
    if option_length option == 0
    then (fail, items)
    else elim (find_option_in_list option (option_length option) fs) [
      | none ↦ (fail, items)
      | some o ↦ convert_found alloc option (option_length option) o items
    ]

unfoldable pub convert_loop :
    OptionAllocator → FilesystemOptions → List Bytes → List Item → ReturnCode × List Item
convert_loop alloc fs [] items = (success, items)
convert_loop alloc fs (option ∷ options) items =
    let round = convert_option alloc fs option items in
    elim round.0 [ success ↦ convert_loop alloc fs options round.1 | failure ↦ (failure, round.1) ]

-- One of the two blocks that set an id: what is left of the old one, and the code.
unfoldable pub convert_id :
    Bool → Option ℕ → Option Bytes → Option OptionId → ReturnCode × Option OptionId
convert_id allocated (some id) (some name) old =
    if allocated
    then (success, some (record { id_option = name; id_option_value = decimal 10 id }))
    else (fatal_error, none)
convert_id allocated _ _ old = (success, old)

unfoldable pub convert_ids :
    OptionAllocator → FilesystemOptions → Option ℕ → Option ℕ → FsoptsList → ReturnCode × FsoptsList
convert_ids alloc fs uid gid l =
    let new_uid = convert_id alloc.uid uid fs.option_uid l.option_uid in
    let new_gid = convert_id alloc.gid gid fs.option_gid l.option_gid in
    elim new_uid.0 [
      | success ↦ (new_gid.0, record l { option_uid = new_uid.1; option_gid = new_gid.1 })
      | failure ↦ (failure, record l { option_uid = new_uid.1 })
    ]

unfoldable pub convert_all :
    OptionAllocator
    → FilesystemOptions
    → Bytes
    → Option ℕ
    → Option ℕ
    → FsoptsList
    → ReturnCode × FsoptsList
convert_all alloc fs options_list uid gid l =
    let loop = convert_loop alloc fs (option_starts options_list) l.options in
    elim loop.0 [
      | success ↦ convert_ids alloc fs uid gid (record l { options = loop.1 })
      | failure ↦ (failure, record l { options = loop.1 })
    ]

-- `none` is a null pointer.
unfoldable pub convert_options_to_list :
    OptionAllocator
    → Option Bytes
    → Option FilesystemOptions
    → Option ℕ
    → Option ℕ
    → FsoptsList
    → ReturnCode × FsoptsList
convert_options_to_list alloc (some options_list) (some fs) uid gid l =
    convert_all alloc fs options_list uid gid l
convert_options_to_list alloc _ _ uid gid l = (bug, l)
