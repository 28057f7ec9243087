-- ===== src/Commands/Notify.antt =====
-- The `notify_removable_device_*` functions of daemon/actions.c.
use dtmd.Common.{ℕ, Option, List, [], ◌∷◌, ◌++◌, length, Bytes, codes, decimal}
use dtmd.Media.Tree.{MediaInfo}
use dtmd.Lists.Device.{
  Device, Notification, device_added, device_changed, device_removed, device_mounted,
  device_unmounted,
}
use dtmd.Commands.Message.{print_with_all_checks}
use dtmd.Commands.Wire.{Wire, dprintf}
use dtmd.Commands.Listing.{print_removable_device_common}

-- A client's descriptor, with what is written to it.
pub record Stream : Type 0 where
  pub clientfd : ℕ
  pub wire : Wire
  pub sent : List Bytes

-- The parameters of a device, as its node has them.
abbrev pub device_info : Device → MediaInfo
device_info d = record {
  path = d.path;
  media_type = d.media_type;
  subtype = d.subtype;
  state = d.state;
  fstype = d.fstype;
  label = d.label;
  mnt_point = d.mnt_point;
  mnt_opts = d.mnt_opts;
  sysfs_path = d.sysfs_path;
  mount_counter = 0;
}

-- `"%zu %s"`
abbrev pub counted : Bytes → Bytes
unfolding decimal
counted s = decimal 10 (length s) ++ b' ' ∷ s

unfoldable pub removed_line : Bytes → Bytes
unfolding decimal
removed_line path = codes "removable_device_removed(" ++ (counted path ++ codes ")\n")

unfoldable pub mounted_line : Bytes → Bytes → Option Bytes → Bytes
unfolding decimal print_with_all_checks
mounted_line path mount_point mount_options =
    codes "removable_device_mounted("
    ++ (counted path
        ++ (codes ", "
            ++ (counted mount_point
                ++ (codes ", " ++ (print_with_all_checks mount_options ++ codes ")\n")))))

unfoldable pub unmounted_line : Bytes → Bytes → Bytes
unfolding decimal
unmounted_line path mount_point =
    codes "removable_device_unmounted("
    ++ (counted path ++ (codes ", " ++ (counted mount_point ++ codes ")\n")))

-- What one client gets; the result of the write is not looked at.
unfoldable pub notify_client : Notification → Wire → List Bytes → List Bytes
notify_client (device_added d) wire sent =
    (print_removable_device_common wire (codes "removable_device_added") d.parent_path
      (device_info d) sent).1
notify_client (device_changed d) wire sent =
    (print_removable_device_common wire (codes "removable_device_changed") d.parent_path
      (device_info d) sent).1
notify_client (device_removed path) wire sent = (dprintf wire (removed_line path) sent).1
notify_client (device_mounted path point opts) wire sent =
    (dprintf wire (mounted_line path point opts) sent).1
notify_client (device_unmounted path point) wire sent =
    (dprintf wire (unmounted_line path point) sent).1

-- The loop over the clients.
unfoldable pub notify : Notification → List Stream → List Stream
notify note [] = []
notify note (s ∷ streams) =
    record s { sent = notify_client note s.wire s.sent } ∷ notify note streams

-- The notifications of an operation, in order.
unfoldable pub notify_all : List Notification → List Stream → List Stream
notify_all [] streams = streams
notify_all (note ∷ notes) streams = notify_all notes (notify note streams)
