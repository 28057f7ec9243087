-- ===== src/Media/Tree.antt =====
-- A list of siblings with their subtrees, as `children_list` and `next_node` hold it. The back
-- links `parent` and `prev_node` follow from these, and are not stored; where the code reads
-- `parent->path`, the path is carried down.
use dtmd.Common.{
  ℕ, Bool, false, true, Option, none, some, [], ◌∷◌, ltb, ◌==◌, if◌then◌else◌, Bytes, codes, str_eq,
}
use dtmd.Misc.Types.{MediaType, MediaSubtype, MediaState}

pub record MediaInfo : Type 0 where
  pub path : Bytes
  pub media_type : MediaType
  pub subtype : MediaSubtype
  pub state : MediaState
  pub fstype : Option Bytes
  pub label : Option Bytes
  pub mnt_point : Option Bytes
  pub mnt_opts : Option Bytes
  pub sysfs_path : Option Bytes
  pub mount_counter : ℕ

pub data Media : Type 0 where
  null : Media
  node : MediaInfo → Media → Media → Media

-- `dtmd_root_device_path`
abbrev pub root_device_path : Bytes
root_device_path = codes "/"

-- `strcmp(a, b) < 0`
unfoldable pub str_lt : Bytes → Bytes → Bool
str_lt [] [] = false
str_lt [] (y ∷ b) = true
str_lt (x ∷ a) [] = false
str_lt (x ∷ a) (y ∷ b) = let rest = str_lt a b in if x == y then rest else ltb x y

-- A pointer to a node, with the path of its parent.
pub record Found : Type 0 where
  pub parent_path : Bytes
  pub info : MediaInfo
  pub children : Media
  pub next : Media

-- The list that begins at the node.
abbrev pub pointer : Found → Media
pointer f = node f.info f.children f.next

abbrev pub found_or : Option Found → Option Found → Option Found
found_or none later = later
found_or (some f) later = some f

abbrev pub is_found : Option Found → Bool
is_found none = false
is_found (some f) = true

-- `dtmd_find_media`: children are searched before later siblings. `parent` is the path of the node
-- whose children the list holds.
unfoldable pub find_media : Bytes → Bytes → Media → Option Found
find_media path parent null = none
find_media path parent (node i children next) =
    let below = find_media path i.path children in
    let behind = find_media path parent next in
    if str_eq path i.path
    then some (record { parent_path = parent; info = i; children = children; next = next })
    else found_or below behind

-- What is written through the pointer that `dtmd_find_media` returns: `f` takes the list that
-- begins at the node, and gives the list that stands there afterwards.
unfoldable pub at_media : Bytes → (Media → Media) → Media → Media
at_media path f null = null
at_media path f (node i children next) =
    let below = at_media path f children in
    let behind = at_media path f next in
    if str_eq path i.path
    then f (node i children next)
    else if is_found (find_media path i.path children)
    then node i below next
    else node i children behind
