-- ===== src/Lists/Constructed.antt =====
-- The node that the first half of `add_media` constructs.
use dtmd.Common.{
  ◌≡◌, refl, sym, subst, Bool, true, false, Option, none, some, Bytes, ok, >>=-eq-ok, ok_inj, guard,
}
use dtmd.Label.Decode.{decode_label}
use dtmd.Media.Tree.{MediaInfo}
use dtmd.Lists.Device.{
  Device, Allocator, node_site, path_site, fstype_site, label_site, mnt_point_site, mnt_opts_site,
  sysfs_path_site,
}
use dtmd.Lists.Construct.{copy_text, copy_label, initial_counter, construct_media}

-- A label that a node holds for an encoded one.
abbrev pub LabelIs : Option Bytes → Option Bytes → Type 0
LabelIs none label = label ≡ none
LabelIs (some encoded) label =
    (decoded : Bytes) × (label ≡ some decoded) × (decode_label encoded ≡ ok decoded)

-- The node of a device: its label is decoded, every other text is as it was given.
pub record IsConstructed (d : Device) (i : MediaInfo) : Type 0 where
  pub path_is : i.path ≡ d.path
  pub type_is : i.media_type ≡ d.media_type
  pub subtype_is : i.subtype ≡ d.subtype
  pub state_is : i.state ≡ d.state
  pub fstype_is : i.fstype ≡ d.fstype
  pub label_is : LabelIs d.label i.label
  pub mnt_point_is : i.mnt_point ≡ d.mnt_point
  pub mnt_opts_is : i.mnt_opts ≡ d.mnt_opts
  pub sysfs_path_is : i.sysfs_path ≡ d.sysfs_path
  pub counter_is : i.mount_counter ≡ initial_counter d.mnt_point

copy_text_ok : (memory : Bool) (o p : Option Bytes) → copy_text memory o ≡ ok p → p ≡ o
unfolding copy_text
copy_text_ok memory none p e = sym (ok_inj e)
copy_text_ok true (some s) p e = sym (ok_inj e)
copy_text_ok false (some s) p e = cc

copy_label-LabelIs : (memory : Bool) (o p : Option Bytes) → copy_label memory o ≡ ok p → LabelIs o p
unfolding copy_label
copy_label-LabelIs memory none p e = sym (ok_inj e)
copy_label-LabelIs true (some s) p e =
    let (decoded, d, r) = >>=-eq-ok (decode_label s) _ e in (decoded, sym (ok_inj r), d)
copy_label-LabelIs false (some s) p e = cc

pub construct_media-IsConstructed :
    (alloc : Allocator) (d : Device) (i : MediaInfo)
    → construct_media alloc d ≡ ok i
    → IsConstructed d i
unfolding construct_media
construct_media-IsConstructed alloc d i e =
    let (a, ea, ra) = >>=-eq-ok (guard (alloc node_site)) _ e in
    let (b, eb, rb) = >>=-eq-ok (guard (alloc path_site)) _ ra in
    let (c, ec, rc) = >>=-eq-ok (copy_text (alloc fstype_site) d.fstype) _ rb in
    let (l, el, rl) = >>=-eq-ok (copy_label (alloc label_site) d.label) _ rc in
    let (p, ep, rp) = >>=-eq-ok (copy_text (alloc mnt_point_site) d.mnt_point) _ rl in
    let (o, eo, ro) = >>=-eq-ok (copy_text (alloc mnt_opts_site) d.mnt_opts) _ rp in
    let (s, es, rs) = >>=-eq-ok (copy_text (alloc sysfs_path_site) d.sysfs_path) _ ro in
    subst (IsConstructed d) (ok_inj rs) (record {
      path_is = refl;
      type_is = refl;
      subtype_is = refl;
      state_is = refl;
      fstype_is = copy_text_ok (alloc fstype_site) d.fstype c ec;
      label_is = copy_label-LabelIs (alloc label_site) d.label l el;
      mnt_point_is = copy_text_ok (alloc mnt_point_site) d.mnt_point p ep;
      mnt_opts_is = copy_text_ok (alloc mnt_opts_site) d.mnt_opts o eo;
      sysfs_path_is = copy_text_ok (alloc sysfs_path_site) d.sysfs_path s es;
      counter_is = refl;
    })
