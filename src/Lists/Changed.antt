-- ===== src/Lists/Changed.antt =====
-- What `change_media` does to the tree.
pub mod InTree
use dtmd.Common.{
  Bool, true, false, not, Option, none, some, List, [], ◌∷◌, ◌++◌, ◌≡◌, ◌≢◌, ◌⊎◌, inl, inr, refl,
  ap, sym, subst, ok_inj, arith, ◌∙◌, append_assoc, append-nil, if◌then◌else◌, Bool-cases,
  Option-cases, Bytes, str_eq, str_eq_iff, Outcome, ok, failed, undefined, out_of_fuel, ◌>>=◌,
  >>=-eq-ok,
}
use dtmd.Misc.Types.{success, fail, fatal_error, bug}
use dtmd.Label.Agreement.{compare_labels-decode_label}
use dtmd.Label.Compare.{compare_labels}
use dtmd.Label.Decode.{decode_label}
use dtmd.Media.Tree.{
  MediaInfo, Media, null, node, Found, pointer, root_device_path, str_lt, find_media, at_media,
}
use dtmd.Media.Entries.{Entry, entries, at_media-Splits}
use dtmd.Media.Order.{IsSorted, Follows, KeepsOrder, at_media-IsSorted}
use dtmd.Lists.Device.{
  Device, Allocator, Notification, device_changed, device_unmounted, Update, mnt_point_site,
  mnt_opts_site, fstype_site, label_site,
}
use dtmd.Lists.Constructed.{LabelIs}
use dtmd.Lists.Change.{
  same_text, is_unchanged, replace_text, replace_label, set_mount, replace_mount, replace_opts,
  change_info, set_info, finish_change, change_found, change_media, Edit, dropped_mount,
  decoded_label, new_label, is_match, change_mount, change_label,
}

-- The fields of a node that `change_media` never writes.
pub record SameDevice (a b : MediaInfo) : Type 0 where
  pub same_path : a.path ≡ b.path
  pub same_type : a.media_type ≡ b.media_type
  pub same_subtype : a.subtype ≡ b.subtype
  pub same_sysfs_path : a.sysfs_path ≡ b.sysfs_path

-- The fields that it takes over from its arguments.
pub record HasFields (d : Device) (i : MediaInfo) : Type 0 where
  pub state_is : i.state ≡ d.state
  pub fstype_is : i.fstype ≡ d.fstype
  pub mnt_point_is : i.mnt_point ≡ d.mnt_point
  pub mnt_opts_is : i.mnt_opts ≡ d.mnt_opts

-- An edit of `i` so far: what it wrote is right if memory sufficed.
record Edits (d : Device) (i : MediaInfo) (e : Edit) : Type 0 where
  same : SameDevice i e.info
  state_is : e.info.state ≡ i.state
  fstype_is : e.info.fstype ≡ i.fstype
  label_is : e.info.label ≡ i.label
  mnt_point_is : e.memory ≡ true → e.info.mnt_point ≡ d.mnt_point

set_mount-Edits :
    (memory : Bool) (d : Device) (i j : MediaInfo) (point : Bytes) (notes : List Notification)
    → d.mnt_point ≡ some point
    → SameDevice i j
    → j.state ≡ i.state
    → j.fstype ≡ i.fstype
    → j.label ≡ i.label
    → Edits d i (set_mount memory d j point notes)
unfolding set_mount
set_mount-Edits memory d i j point notes p s a b c = ground arith

replace_mount-Edits :
    (memory : Bool) (d : Device) (i : MediaInfo) (old new : Option Bytes)
    → i.mnt_point ≡ old
    → d.mnt_point ≡ new
    → Edits d i (replace_mount memory d i old new)
unfolding replace_mount
replace_mount-Edits memory d i none none p q = ground arith
replace_mount-Edits memory d i none (some new) p q =
    set_mount-Edits memory d i i new [] q
      (record { same_path = refl; same_type = refl; same_subtype = refl; same_sysfs_path = refl })
      refl refl refl
replace_mount-Edits memory d i (some old) none p q = ground arith
replace_mount-Edits memory d i (some old) (some new) p q = ground (
  arith,
  str_eq_iff old new,
  set_mount-Edits memory d i (dropped_mount i) new (device_unmounted i.path old ∷ []),
)

replace_text-eq :
    (memory : Bool) (old new : Option Bytes)
    → (replace_text memory old new).1 ≡ true
    → (replace_text memory old new).0 ≡ new
unfolding replace_text
replace_text-eq memory old none h = refl
replace_text-eq memory none (some new) h = ground arith
replace_text-eq memory (some old) (some new) h = ground (arith, str_eq_iff old new)

record Done (d : Device) (i : MediaInfo) (e : Edit) : Type 0 where
  same : SameDevice i e.info
  label_is : e.memory ≡ true → e.info.label ≡ i.label
  fields : e.memory ≡ true → i.state ≡ d.state → i.fstype ≡ d.fstype → HasFields d e.info

replace_opts-Done :
    (alloc : Allocator) (d : Device) (i : MediaInfo) (e : Edit)
    → Edits d i e
    → Done d i (replace_opts alloc d e)
unfolding replace_opts
replace_opts-Done alloc d i e h =
    ground (arith, replace_text-eq (alloc mnt_opts_site) e.info.mnt_opts d.mnt_opts)

decoded_label-LabelIs :
    (encoded : Bytes) (o : Outcome Bytes) (label : Option Bytes)
    → decode_label encoded ≡ o
    → decoded_label o ≡ ok (label, true)
    → LabelIs (some encoded) label
unfolding decoded_label
decoded_label-LabelIs encoded (ok x) label e h = (x, ground arith, e)
decoded_label-LabelIs encoded failed label e h = ground arith
decoded_label-LabelIs encoded undefined label e h = cc
decoded_label-LabelIs encoded out_of_fuel label e h = cc

new_label-LabelIs :
    (memory : Bool) (encoded : Bytes) (label : Option Bytes)
    → new_label memory encoded ≡ ok (label, true)
    → LabelIs (some encoded) label
unfolding new_label
new_label-LabelIs true encoded label h =
    decoded_label-LabelIs encoded (decode_label encoded) label refl h
new_label-LabelIs false encoded label h = ground arith

matched-LabelIs :
    (memory : Bool) (old encoded : Bytes) (o : Outcome (Unit {0})) (label : Option Bytes)
    → compare_labels old encoded ≡ o
    → (do same ← is_match o; if same then ok (some old, true) else new_label memory encoded)
      ≡ ok (label, true)
    → LabelIs (some encoded) label
unfolding is_match
matched-LabelIs memory old encoded (ok u) label e h =
    (old, ground arith, compare_labels-decode_label old encoded e)
matched-LabelIs memory old encoded failed label e h = new_label-LabelIs memory encoded label h
matched-LabelIs memory old encoded undefined label e h = cc
matched-LabelIs memory old encoded out_of_fuel label e h = cc

replace_label-LabelIs :
    (memory : Bool) (old new label : Option Bytes)
    → replace_label memory old new ≡ ok (label, true)
    → LabelIs new label
unfolding replace_label
replace_label-LabelIs memory none none label h = ground arith
replace_label-LabelIs memory (some old) none label h = ground arith
replace_label-LabelIs memory none (some new) label h = new_label-LabelIs memory new label h
replace_label-LabelIs memory (some old) (some new) label h =
    matched-LabelIs memory old new (compare_labels old new) label refl h

-- The node that a whole edit leaves, where memory sufficed.
pub record IsUpdated (d : Device) (i : MediaInfo) (e : Edit) : Type 0 where
  pub same : SameDevice i e.info
  pub fields : e.memory ≡ true → HasFields d e.info
  pub label_is : e.memory ≡ true → LabelIs d.label e.info.label

change_mount-IsUpdated :
    (alloc : Allocator) (d : Device) (i : MediaInfo) (label : Option Bytes) (enough : Bool)
    → i.state ≡ d.state
    → i.fstype ≡ d.fstype
    → (enough ≡ true → LabelIs d.label label)
    → IsUpdated d i (change_mount alloc d i (label, enough))
unfolding change_mount
change_mount-IsUpdated alloc d i label true s t l =
    let labelled = record i { label = label } in
    let e = replace_mount (alloc mnt_point_site) d labelled labelled.mnt_point d.mnt_point in
    let done = replace_opts-Done alloc d labelled e (
      replace_mount-Edits (alloc mnt_point_site) d labelled labelled.mnt_point d.mnt_point refl
        refl) in
    record {
      same = record {
        same_path = done.same.same_path;
        same_type = done.same.same_type;
        same_subtype = done.same.same_subtype;
        same_sysfs_path = done.same.same_sysfs_path;
      };
      fields = λ m. done.fields m s t;
      label_is = λ m. rw (done.label_is m) (l refl);
    }
change_mount-IsUpdated alloc d i label false s t l = ground arith

change_label-IsUpdated :
    (alloc : Allocator) (d : Device) (i : MediaInfo) (memory : Bool) (e : Edit)
    → i.state ≡ d.state
    → (memory ≡ true → i.fstype ≡ d.fstype)
    → change_label alloc d i memory ≡ ok e
    → IsUpdated d i e
unfolding change_label
change_label-IsUpdated alloc d i false e s t h = subst (IsUpdated d i) (ok_inj h) (ground arith)
change_label-IsUpdated alloc d i true e s t h =
    let finish = λ (r : Option Bytes × Bool). ok (change_mount alloc d i r) in
    let ((label, enough), l, k) =
      >>=-eq-ok (replace_label (alloc label_site) i.label d.label) finish h in
    let holds : (enough ≡ true → LabelIs d.label label) = λ m.
      replace_label-LabelIs (alloc label_site) i.label d.label label
        (l ∙ ap (λ (b : Bool). ok (label, b)) m) in
    subst (IsUpdated d i) (ok_inj k)
      (change_mount-IsUpdated alloc d i label enough s (t refl) holds)

pub change_info-IsUpdated :
    (alloc : Allocator) (d : Device) (i : MediaInfo) (e : Edit)
    → change_info alloc d i ≡ ok e
    → IsUpdated d i e
unfolding change_info
change_info-IsUpdated alloc d i e h =
    let r = replace_text (alloc fstype_site) i.fstype d.fstype in
    let stated = record i { state = d.state; fstype = r.0 } in
    let u =
      change_label-IsUpdated alloc d stated r.1 e refl
        (replace_text-eq (alloc fstype_site) i.fstype d.fstype) h in
    record {
      same = record {
        same_path = u.same.same_path;
        same_type = u.same.same_type;
        same_subtype = u.same.same_subtype;
        same_sysfs_path = u.same.same_sysfs_path;
      };
      fields = u.fields;
      label_is = u.label_is;
    }
