-- ===== src/Lists/Construct.antt =====
-- The first half of `add_media`: the new node, with the error paths `add_media_error_1` to `_7`.
use dtmd.Common.{
  ℕ, Bool, Option, none, some, if◌then◌else◌, Bytes, Outcome, ok, failed, ◌>>=◌, ◌>>◌, guard,
}
use dtmd.Label.Decode.{decode_label}
use dtmd.Media.Tree.{MediaInfo}
use dtmd.Lists.Device.{
  Device, Allocator, node_site, path_site, fstype_site, label_site, mnt_point_site, mnt_opts_site,
  sysfs_path_site,
}

-- `strdup` of what may be NULL.
unfoldable pub copy_text : Bool → Option Bytes → Outcome (Option Bytes)
copy_text memory none = ok none
copy_text memory (some s) = if memory then ok (some s) else failed

-- `decode_label` returns NULL where memory is short and where the label is malformed alike.
unfoldable pub copy_label : Bool → Option Bytes → Outcome (Option Bytes)
copy_label memory none = ok none
copy_label memory (some s) =
    if memory then (do decoded ← decode_label s; ok (some decoded)) else failed

unfoldable pub initial_counter : Option Bytes → ℕ
initial_counter none = 0
initial_counter (some s) = 1

unfoldable pub construct_media : Allocator → Device → Outcome MediaInfo
construct_media alloc d = do
  guard (alloc node_site)
  guard (alloc path_site)
  fstype ← copy_text (alloc fstype_site) d.fstype
  label ← copy_label (alloc label_site) d.label
  mnt_point ← copy_text (alloc mnt_point_site) d.mnt_point
  mnt_opts ← copy_text (alloc mnt_opts_site) d.mnt_opts
  sysfs_path ← copy_text (alloc sysfs_path_site) d.sysfs_path
  ok (record {
    path = d.path;
    media_type = d.media_type;
    subtype = d.subtype;
    state = d.state;
    fstype = fstype;
    label = label;
    mnt_point = mnt_point;
    mnt_opts = mnt_opts;
    sysfs_path = sysfs_path;
    mount_counter = initial_counter d.mnt_point;
  })
