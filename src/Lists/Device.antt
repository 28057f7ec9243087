-- ===== src/Lists/Device.antt =====
-- What the functions of daemon/lists.c take, ask of the allocator, announce, and return.
use dtmd.Common.{Bool, Option, List, Bytes}
use dtmd.Misc.Types.{MediaType, MediaSubtype, MediaState, ReturnCode}
use dtmd.Media.Tree.{Media}

-- The arguments of `add_media` and `change_media`.
pub record Device : Type 0 where
  pub parent_path : Bytes
  pub path : Bytes
  pub sysfs_path : Option Bytes
  pub media_type : MediaType
  pub subtype : MediaSubtype
  pub state : MediaState
  pub fstype : Option Bytes
  pub label : Option Bytes
  pub mnt_point : Option Bytes
  pub mnt_opts : Option Bytes

-- The places where `add_media` and `change_media` allocate; an allocator says for each place
-- whether memory is to be had there.
pub data Site : Type 0 where
  node_site path_site fstype_site label_site mnt_point_site mnt_opts_site sysfs_path_site : Site

abbrev pub Allocator : Type 0
Allocator = Site → Bool

-- The calls of `notify_removable_device_*`, in order.
pub data Notification : Type 0 where
  device_added device_changed : Device → Notification
  device_removed : Bytes → Notification
  device_mounted : Bytes → Bytes → Option Bytes → Notification
  device_unmounted : Bytes → Bytes → Notification

-- What a function returns, the tree that it leaves, and what it announced.
pub record Update : Type 0 where
  pub rc : ReturnCode
  pub media : Media
  pub notes : List Notification
