-- ===== src/Daemon/Counted.antt =====
-- `add_media` and `remove_media` keep the counter of each node as its mount point says.
use dtmd.Common.{
  ◌≡◌, refl, sym, ap, ◌∙◌, Option, none, some, option_cases, if_both, Bytes, str_eq, Outcome, ok,
  failed, undefined, out_of_fuel,
}
use dtmd.Media.Tree.{
  MediaInfo, Media, null, node, is_found, root_device_path, str_lt, find_media, at_media,
}
use dtmd.Lists.Device.{Device, Allocator, Update}
use dtmd.Lists.Construct.{initial_counter, construct_media}
use dtmd.Lists.Constructed.{construct_media-IsConstructed}
use dtmd.Lists.Update.{
  insert_sibling, insert_child, link_media, finish_add, add_media, unlink_media, remove_media,
}
use dtmd.Mounts.Nodes.{AllNodes}
use dtmd.Mounts.Phases.{mounted, IsConsistent}

-- Each node of a tree is consistent.
abbrev pub IsCounted : Media → Type 0
IsCounted m = AllNodes IsConsistent m

pub at_media-IsCounted :
    (path : Bytes) (g : Media → Media) (m : Media)
    → ((n : Media) → IsCounted n → IsCounted (g n))
    → IsCounted m
    → IsCounted (at_media path g m)
unfolding at_media
at_media-IsCounted path g null keeps h = tt
at_media-IsCounted path g (node i children next) keeps h =
    if_both IsCounted (str_eq path i.path) (keeps (node i children next) h) (
      if_both IsCounted (is_found (find_media path i.path children))
        (h.0, at_media-IsCounted path g children keeps h.1, h.2)
        (h.0, h.1, at_media-IsCounted path g next keeps h.2))

insert_sibling-IsCounted :
    (new : MediaInfo) (m : Media)
    → IsConsistent new
    → IsCounted m
    → IsCounted (insert_sibling new m)
unfolding insert_sibling
insert_sibling-IsCounted new null k h = (k, tt, tt)
insert_sibling-IsCounted new (node i children next) k h =
    if_both IsCounted (str_lt new.path i.path) (k, tt, h)
      (h.0, h.1, insert_sibling-IsCounted new next k h.2)

insert_child-IsCounted :
    (new : MediaInfo)
    → IsConsistent new
    → (m : Media) → IsCounted m
    → IsCounted (insert_child new m)
unfolding insert_child
insert_child-IsCounted new k null h = h
insert_child-IsCounted new k (node i children next) h =
    (h.0, insert_sibling-IsCounted new children k h.1, h.2)

link_media-IsCounted :
    (parent : Bytes) (new : MediaInfo) (root : Media)
    → IsConsistent new
    → IsCounted root
    → IsCounted (link_media parent new root)
unfolding link_media
link_media-IsCounted parent new root k h =
    if_both IsCounted (str_eq parent root_device_path) (insert_sibling-IsCounted new root k h)
      (at_media-IsCounted parent (insert_child new) root (insert_child-IsCounted new k) h)

counter_mounted : (o : Option Bytes) → initial_counter o ≡ mounted o
unfolding initial_counter
counter_mounted none = refl
counter_mounted (some s) = refl

construct_media-IsConsistent :
    (alloc : Allocator) (d : Device) (i : MediaInfo)
    → construct_media alloc d ≡ ok i
    → IsConsistent i
construct_media-IsConsistent alloc d i e =
    let k = construct_media-IsConstructed alloc d i e in
    k.counter_is ∙ counter_mounted d.mnt_point ∙ ap mounted (sym k.mnt_point_is)

-- The tree of an update that a function comes to.
abbrev pub Keeps : Outcome Update → Type 0
Keeps (ok u) = IsCounted u.media
Keeps _ = Unit

finish_add-Keeps :
    (d : Device) (root : Media) (o : Outcome MediaInfo)
    → ((i : MediaInfo) → o ≡ ok i → IsConsistent i)
    → IsCounted root
    → Keeps (finish_add d root o)
unfolding finish_add
finish_add-Keeps d root (ok i) k h = link_media-IsCounted d.parent_path i root (k i refl) h
finish_add-Keeps d root failed k h = h
finish_add-Keeps d root undefined k h = tt
finish_add-Keeps d root out_of_fuel k h = tt

pub add_media-Keeps :
    (alloc : Allocator) (d : Device) (root : Media)
    → IsCounted root
    → Keeps (add_media alloc d root)
unfolding add_media
add_media-Keeps alloc d root h =
    let added =
      finish_add-Keeps d root (construct_media alloc d) (construct_media-IsConsistent alloc d) h in
    if_both Keeps (str_eq d.parent_path root_device_path) added
      (option_cases Keeps (find_media d.parent_path root_device_path root) (λ e. h) (λ f e. added))

unlink_media-IsCounted : (m : Media) → IsCounted m → IsCounted (unlink_media m)
unfolding unlink_media
unlink_media-IsCounted null h = h
unlink_media-IsCounted (node i children next) h = h.2

pub remove_media-IsCounted :
    (path : Bytes) (root : Media) → IsCounted root → IsCounted (remove_media path root).media
unfolding remove_media
remove_media-IsCounted path root h =
    option_cases (λ (u : Update). IsCounted u.media) (find_media path root_device_path root)
      (λ e. h) (λ f e. at_media-IsCounted path unlink_media root unlink_media-IsCounted h)
