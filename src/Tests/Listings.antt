-- ===== src/Tests/Listings.antt =====
-- The listings of the tables of file systems.
use dtmd.Common.{◌≡◌, refl, true, none, some, [], codes, str_eq}
use dtmd.Options.Tables.{filesystem_mount_options, vfat_options}
use dtmd.Options.Convert.{find_filesystem, get_fsopts_for_fs}
use dtmd.Commands.Wire.{Wire}
use dtmd.Commands.Invoke.{list_supported_filesystems, list_supported_filesystem_options}
use dtmd.Commands.Supported.{
  supported_filesystems_list, supported_filesystem_options_list, fstypes,
  invoke_list_supported_filesystems, invoke_list_supported_filesystem_options,
}
use dtmd.Commands.Listed.{IsListing, all_names}
use dtmd.Commands.Tabulated.{listings-IsListing}

abbrev open_wire : Wire
open_wire written = true

vfat-known : get_fsopts_for_fs (codes "vfat") ≡ some vfat_options
unfolding get_fsopts_for_fs find_filesystem filesystem_mount_options str_eq
vfat-known = refl

listings-IsListing_example :
    IsListing list_supported_filesystems none supported_filesystems_list
      (fstypes filesystem_mount_options)
      []
      (invoke_list_supported_filesystems open_wire [])
    × IsListing list_supported_filesystem_options
        (some (codes "vfat"))
        supported_filesystem_options_list
        (all_names vfat_options.options)
        []
        (invoke_list_supported_filesystem_options open_wire (codes "vfat") [])
listings-IsListing_example =
    listings-IsListing open_wire (codes "vfat") vfat_options [] (λ sent. refl) vfat-known
