-- ===== src/Commands/Listing.antt =====
-- The functions of daemon/actions.c that print devices.
use dtmd.Common.{none, some, List, Bytes, codes}
use dtmd.Misc.Types.{success, fail}
use dtmd.Media.Tree.{MediaInfo, Media, null, node, Found, root_device_path}
use dtmd.Commands.Message.{line, device_arguments}
use dtmd.Commands.Wire.{Wire, Sent, dprintf, and_then}

unfoldable pub print_removable_device_common : Wire → Bytes → Bytes → MediaInfo → List Bytes → Sent
print_removable_device_common wire action parent_path i sent =
    elim (device_arguments parent_path i) [
      | none ↦ (fail, sent)
      | some arguments ↦ dprintf wire (line action arguments) sent
    ]

-- `dtmd_response_argument_removable_device`
abbrev pub removable_device : Bytes
removable_device = codes "removable_device"

-- The loop over siblings, with `print_all_removable_devices_recursive` on each.
unfoldable pub print_siblings : Wire → Bytes → Media → List Bytes → Sent
print_siblings wire parent_path null sent = (success, sent)
print_siblings wire parent_path (node i children next) sent =
    and_then
      (and_then (print_removable_device_common wire removable_device parent_path i sent)
        (λ s. print_siblings wire i.path children s))
      (λ s. print_siblings wire parent_path next s)

unfoldable pub print_all_removable_devices_recursive : Wire → Found → List Bytes → Sent
print_all_removable_devices_recursive wire f sent =
    and_then (print_removable_device_common wire removable_device f.parent_path f.info sent)
      (λ s. print_siblings wire f.info.path f.children s)

unfoldable pub print_all_removable_devices : Wire → Media → List Bytes → Sent
print_all_removable_devices wire root sent = print_siblings wire root_device_path root sent
