-- ===== src/Lists/Update.antt =====
-- `add_media`, `remove_media` and `remove_all_media`.
use dtmd.Common.{
  none, some, List, [], ◌∷◌, ◌++◌, if◌then◌else◌, Bytes, str_eq, Outcome, ok, failed, undefined,
  out_of_fuel,
}
use dtmd.Misc.Types.{success, fail, fatal_error}
use dtmd.Media.Tree.{MediaInfo, Media, null, node, root_device_path, str_lt, find_media, at_media}
use dtmd.Lists.Device.{
  Device, Allocator, Notification, device_added, device_removed, device_unmounted, Update,
}
use dtmd.Lists.Construct.{construct_media}

-- The loop that looks for the place, and the linking behind it.
unfoldable pub insert_sibling : MediaInfo → Media → Media
insert_sibling new null = node new null null
insert_sibling new (node i children next) =
    let behind = insert_sibling new next in
    if str_lt new.path i.path then node new null (node i children next) else node i children behind

unfoldable pub insert_child : MediaInfo → Media → Media
insert_child new null = null
insert_child new (node i children next) = node i (insert_sibling new children) next

unfoldable pub link_media : Bytes → MediaInfo → Media → Media
link_media parent new root =
    if str_eq parent root_device_path
    then insert_sibling new root
    else at_media parent (insert_child new) root

unfoldable pub finish_add : Device → Media → Outcome MediaInfo → Outcome Update
finish_add d root (ok i) = ok (record {
  rc = success;
  media = link_media d.parent_path i root;
  notes = device_added (record d { label = i.label }) ∷ [];
})
finish_add d root failed = ok (record { rc = fatal_error; media = root; notes = [] })
finish_add d root undefined = undefined
finish_add d root out_of_fuel = out_of_fuel

abbrev pub refusal : Media → Outcome Update
refusal root = ok (record { rc = fail; media = root; notes = [] })

unfoldable pub add_media : Allocator → Device → Media → Outcome Update
add_media alloc d root =
    if str_eq d.parent_path root_device_path
    then finish_add d root (construct_media alloc d)
    else elim (find_media d.parent_path root_device_path root) [
      | none ↦ refusal root
      | some f ↦ finish_add d root (construct_media alloc d)
    ]

-- The notifications of `remove_media_helper` for the node itself.
unfoldable pub removal : MediaInfo → List Notification
removal i = elim i.mnt_point [
  | none ↦ device_removed i.path ∷ []
  | some point ↦ device_unmounted i.path point ∷ device_removed i.path ∷ []
]

-- `remove_media_helper` on each node of a list: its children go before it.
unfoldable pub remove_siblings : Media → List Notification
remove_siblings null = []
remove_siblings (node i children next) =
    (remove_siblings children ++ removal i) ++ remove_siblings next

unfoldable pub unlink_media : Media → Media
unlink_media null = null
unlink_media (node i children next) = next

unfoldable pub remove_media : Bytes → Media → Update
remove_media path root = elim (find_media path root_device_path root) [
  | none ↦ record { rc = fail; media = root; notes = [] }
  | some f ↦ record {
    rc = success;
    media = at_media path unlink_media root;
    notes = remove_siblings f.children ++ removal f.info;
  }
]

unfoldable pub remove_all_media : Media → Media × List Notification
remove_all_media root = (null, remove_siblings root)
