-- ===== src/Daemon/Recounted.antt =====
-- `change_media` keeps the counter of each node as its mount point says.
use dtmd.Common.{
  refl, sym, ap, ◌∙◌, Bool, not, Option, none, some, List, [], option_cases, if_both, if◌then◌else◌,
  Bytes, str_eq, Outcome, ok, failed, undefined, out_of_fuel, ◌>>=◌,
}
use dtmd.Misc.Types.{fail}
use dtmd.Media.Tree.{MediaInfo, Media, null, node, Found, root_device_path, find_media}
use dtmd.Lists.Device.{Device, Allocator, Notification, fstype_site, label_site, mnt_point_site}
use dtmd.Lists.Change.{
  Edit, set_mount, replace_mount, replace_text, replace_label, replace_opts, change_mount,
  change_label, change_info, set_info, finish_change, change_found, change_media, is_unchanged,
  same_text, dropped_mount,
}
use dtmd.Mounts.Nodes.{AllNodes-info_at, find_media-info_at, info_of}
use dtmd.Mounts.Phases.{IsConsistent}
use dtmd.Daemon.Counted.{IsCounted, at_media-IsCounted, Keeps}

set_mount-IsConsistent :
    (memory : Bool) (d : Device) (i : MediaInfo) (point : Bytes) (notes : List Notification)
    → IsConsistent i
    → IsConsistent (set_mount memory d i point notes).info
unfolding set_mount
set_mount-IsConsistent memory d i point notes h =
    if_both (λ (e : Edit). IsConsistent e.info) memory refl h

replace_mount-IsConsistent :
    (memory : Bool) (d : Device) (i : MediaInfo) (old new : Option Bytes)
    → IsConsistent i
    → IsConsistent (replace_mount memory d i old new).info
unfolding replace_mount
replace_mount-IsConsistent memory d i none none h = h
replace_mount-IsConsistent memory d i none (some new) h = set_mount-IsConsistent memory d i new [] h
replace_mount-IsConsistent memory d i (some old) none h = refl
replace_mount-IsConsistent memory d i (some old) (some new) h =
    if_both (λ (e : Edit). IsConsistent e.info) (str_eq old new) h
      (set_mount-IsConsistent memory d (dropped_mount i) new _ refl)

replace_opts-IsConsistent :
    (alloc : Allocator) (d : Device) (e : Edit)
    → IsConsistent e.info
    → IsConsistent (replace_opts alloc d e).info
unfolding replace_opts
replace_opts-IsConsistent alloc d e h =
    if_both (λ (e : Edit). IsConsistent e.info) (not e.memory) h h

change_mount-IsConsistent :
    (alloc : Allocator) (d : Device) (i : MediaInfo) (r : Option Bytes × Bool)
    → IsConsistent i
    → IsConsistent (change_mount alloc d i r).info
unfolding change_mount
change_mount-IsConsistent alloc d i (label, enough) h =
    let labelled = record i { label = label } in
    if_both (λ (e : Edit). IsConsistent e.info) (not enough) h
      (replace_opts-IsConsistent alloc d
        (replace_mount (alloc mnt_point_site) d labelled labelled.mnt_point d.mnt_point)
        (replace_mount-IsConsistent (alloc mnt_point_site) d labelled labelled.mnt_point d.mnt_point
          h))

abbrev Edited : Outcome Edit → Type 0
Edited (ok e) = IsConsistent e.info
Edited _ = Unit

change_info-Edited :
    (alloc : Allocator) (d : Device) (i : MediaInfo)
    → IsConsistent i
    → Edited (change_info alloc d i)
unfolding change_info change_label
change_info-Edited alloc d i h =
    let texts = replace_text (alloc fstype_site) i.fstype d.fstype in
    let j = record i { state = d.state; fstype = texts.0 } in
    if_both Edited (not texts.1) h (labelled j (replace_label (alloc label_site) j.label d.label) h)
  where
    labelled :
        (j : MediaInfo) (o : Outcome (Option Bytes × Bool))
        → IsConsistent j
        → Edited (o >>= λ (r : Option Bytes × Bool). ok (change_mount alloc d j r))
    labelled j (ok r) h = change_mount-IsConsistent alloc d j r h
    labelled j failed h = tt
    labelled j undefined h = tt
    labelled j out_of_fuel h = tt

set_info-IsCounted :
    (new : MediaInfo) → IsConsistent new → (m : Media) → IsCounted m → IsCounted (set_info new m)
unfolding set_info
set_info-IsCounted new k null h = h
set_info-IsCounted new k (node i children next) h = (k, h.1, h.2)

module _ (alloc : Allocator) (d : Device) (root : Media) (h : IsCounted root) where
  finish_change-Keeps :
      (o : Outcome Edit) → Edited o → Keeps (o >>= λ (e : Edit). ok (finish_change d root e))
  unfolding finish_change
  finish_change-Keeps (ok e) k =
      at_media-IsCounted d.path (set_info e.info) root (set_info-IsCounted e.info k) h
  finish_change-Keeps failed k = tt
  finish_change-Keeps undefined k = tt
  finish_change-Keeps out_of_fuel k = tt

  change_found-Keeps : (f : Found) → IsConsistent f.info → Keeps (change_found alloc d root f)
  unfolding change_found
  change_found-Keeps f k = if_both Keeps (not (str_eq d.parent_path f.parent_path)) h (
      if_both Keeps (not (same_text d.sysfs_path f.info.sysfs_path)) h
        (compared (is_unchanged d f.info)))
    where
      compared :
          (o : Outcome Bool)
          → Keeps (
              o >>= λ (same : Bool).
              if same
              then ok (record { rc = fail; media = root; notes = [] })
              else change_info alloc d f.info >>= λ (e : Edit). ok (finish_change d root e))
      compared (ok same) =
          if_both Keeps same h
            (finish_change-Keeps (change_info alloc d f.info) (change_info-Edited alloc d f.info k))
      compared failed = tt
      compared undefined = tt
      compared out_of_fuel = tt

  pub change_media-Keeps : Keeps (change_media alloc d root)
  unfolding change_media
  change_media-Keeps =
      option_cases Keeps (find_media d.path root_device_path root) (λ e. h)
        (λ f e. change_found-Keeps f (
          AllNodes-info_at IsConsistent d.path root f.info h
            (sym (find_media-info_at d.path root_device_path root) ∙ ap info_of e)))
