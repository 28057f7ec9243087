-- ===== src/Options/Tables.antt =====
-- The tables of daemon/filesystem_opts.c in the Linux build.
use dtmd.Common.{Bool, true, false, none, some, List, [], ◌∷◌, Bytes, codes}
use Prim.Native.String.{String}
use dtmd.Misc.Types.{ReturnCode}
use dtmd.Options.Types.{
  Flag, ms_dirsync, ms_mandlock, ms_noatime, ms_nodev, ms_nodiratime, ms_noexec, ms_nosuid,
  ms_rdonly, ms_relatime, ms_silent, ms_strictatime, ms_synchronous, MountFlag, MountOption,
  FilesystemOptions,
}
use dtmd.Options.Validate.{
  validate_is_single_int, validate_is_access_mode, validate_is_string, validate_is_decimal_number,
  validate_is_octal_number, validate_vfat_is_shortname, validate_vfat_is_check,
  validate_iso9660_is_block,
}

abbrev mount_flag : String → Flag → Bool → MountFlag
mount_flag name f on = record { option = codes name; flag = f; enabled = on }

-- An option without a parameter.
abbrev plain : String → MountOption
plain name = record { option = codes name; has_param = false; validation_function = none }

abbrev valued : String → (Bytes → ReturnCode) → MountOption
valued name validate = record {
  option = codes name;
  has_param = true;
  validation_function = some validate;
}

unfoldable pub string_to_mount_flag_list : List MountFlag
string_to_mount_flag_list =
    mount_flag "dirsync" ms_dirsync true
    ∷ mount_flag "mand" ms_mandlock true
    ∷ mount_flag "nomand" ms_mandlock false
    ∷ mount_flag "noatime" ms_noatime true
    ∷ mount_flag "atime" ms_noatime false
    ∷ mount_flag "nodev" ms_nodev true
    ∷ mount_flag "dev" ms_nodev false
    ∷ mount_flag "nodiratime" ms_nodiratime true
    ∷ mount_flag "diratime" ms_nodiratime false
    ∷ mount_flag "noexec" ms_noexec true
    ∷ mount_flag "exec" ms_noexec false
    ∷ mount_flag "nosuid" ms_nosuid true
    ∷ mount_flag "suid" ms_nosuid false
    ∷ mount_flag "ro" ms_rdonly true
    ∷ mount_flag "rw" ms_rdonly false
    ∷ mount_flag "relatime" ms_relatime true
    ∷ mount_flag "silent" ms_silent true
    ∷ mount_flag "loud" ms_silent false
    ∷ mount_flag "strictatime" ms_strictatime true
    ∷ mount_flag "sync" ms_synchronous true
    ∷ mount_flag "nosync" ms_synchronous false
    ∷ []

unfoldable pub any_fs_allowed_list : List MountOption
any_fs_allowed_list =
    plain "nodev"
    ∷ plain "nosuid"
    ∷ plain "atime"
    ∷ plain "noatime"
    ∷ plain "nodiratime"
    ∷ plain "ro"
    ∷ plain "rw"
    ∷ []

unfoldable pub common_fs_allowed_list : List MountOption
common_fs_allowed_list =
    plain "exec" ∷ plain "noexec" ∷ plain "sync" ∷ plain "nosync" ∷ plain "dirsync" ∷ []

unfoldable pub vfat_allow : List MountOption
vfat_allow =
    plain "flush"
    ∷ valued "utf8=" validate_is_single_int
    ∷ valued "shortname=" validate_vfat_is_shortname
    ∷ valued "umask=" validate_is_access_mode
    ∷ valued "dmask=" validate_is_access_mode
    ∷ valued "fmask=" validate_is_access_mode
    ∷ valued "codepage=" validate_is_string
    ∷ valued "iocharset=" validate_is_string
    ∷ plain "showexec"
    ∷ valued "blocksize=" validate_is_decimal_number
    ∷ valued "allow_utime=" validate_is_octal_number
    ∷ valued "check=" validate_vfat_is_check
    ∷ []

unfoldable pub exfat_allow : List MountOption
exfat_allow =
    valued "umask=" validate_is_access_mode
    ∷ valued "dmask=" validate_is_access_mode
    ∷ valued "fmask=" validate_is_access_mode
    ∷ []

unfoldable pub ntfs3g_allow : List MountOption
ntfs3g_allow =
    valued "umask=" validate_is_access_mode
    ∷ valued "dmask=" validate_is_access_mode
    ∷ valued "fmask=" validate_is_access_mode
    ∷ valued "iocharset=" validate_is_string
    ∷ plain "utf8"
    ∷ plain "windows_names"
    ∷ plain "allow_other"
    ∷ plain "norecover"
    ∷ []

unfoldable pub iso9660_allow : List MountOption
iso9660_allow =
    plain "norock"
    ∷ plain "nojoliet"
    ∷ valued "iocharset=" validate_is_string
    ∷ valued "mode=" validate_is_access_mode
    ∷ plain "utf8"
    ∷ valued "block=" validate_iso9660_is_block
    ∷ []

unfoldable pub udf_allow : List MountOption
udf_allow =
    valued "iocharset=" validate_is_string
    ∷ valued "umask=" validate_is_access_mode
    ∷ plain "undelete"
    ∷ plain "unhide"
    ∷ plain "nostrict"
    ∷ []

unfoldable pub vfat_allow_list : List (List MountOption)
vfat_allow_list = any_fs_allowed_list ∷ common_fs_allowed_list ∷ vfat_allow ∷ []

unfoldable pub exfat_allow_list : List (List MountOption)
exfat_allow_list = any_fs_allowed_list ∷ common_fs_allowed_list ∷ exfat_allow ∷ []

unfoldable pub ntfs3g_allow_list : List (List MountOption)
ntfs3g_allow_list = any_fs_allowed_list ∷ ntfs3g_allow ∷ []

unfoldable pub iso9660_allow_list : List (List MountOption)
iso9660_allow_list = any_fs_allowed_list ∷ common_fs_allowed_list ∷ iso9660_allow ∷ []

unfoldable pub udf_allow_list : List (List MountOption)
udf_allow_list = any_fs_allowed_list ∷ common_fs_allowed_list ∷ udf_allow ∷ []

abbrev pub vfat_options : FilesystemOptions
vfat_options = record {
  external_fstype = none;
  fstype = codes "vfat";
  options = vfat_allow_list;
  option_uid = some (codes "uid=");
  option_gid = some (codes "gid=");
  defaults = codes "rw,nodev,nosuid,shortname=mixed,umask=0077,utf8=1,flush";
  mandatory_options = codes "nodev,nosuid";
}

abbrev pub exfat_options : FilesystemOptions
exfat_options = record {
  external_fstype = none;
  fstype = codes "exfat";
  options = exfat_allow_list;
  option_uid = some (codes "uid=");
  option_gid = some (codes "gid=");
  defaults = codes "rw,nodev,nosuid,umask=0077";
  mandatory_options = codes "nodev,nosuid";
}

abbrev pub ntfs_3g_options : FilesystemOptions
ntfs_3g_options = record {
  external_fstype = some (codes "ntfs-3g");
  fstype = codes "ntfs-3g";
  options = ntfs3g_allow_list;
  option_uid = some (codes "uid=");
  option_gid = some (codes "gid=");
  defaults = codes "rw,nodev,nosuid,norecover,allow_other,windows_names,umask=0077";
  mandatory_options = codes "nodev,nosuid,norecover";
}

abbrev pub ntfs_options : FilesystemOptions
ntfs_options = record {
  external_fstype = some (codes "ntfs-3g");
  fstype = codes "ntfs";
  options = ntfs3g_allow_list;
  option_uid = some (codes "uid=");
  option_gid = some (codes "gid=");
  defaults = codes "rw,nodev,nosuid,norecover,allow_other,windows_names,umask=0077";
  mandatory_options = codes "nodev,nosuid,norecover";
}

abbrev pub iso9660_options : FilesystemOptions
iso9660_options = record {
  external_fstype = none;
  fstype = codes "iso9660";
  options = iso9660_allow_list;
  option_uid = some (codes "uid=");
  option_gid = some (codes "gid=");
  defaults = codes "ro,nodev,nosuid,iocharset=utf8,mode=0400";
  mandatory_options = codes "nodev,nosuid";
}

abbrev pub udf_options : FilesystemOptions
udf_options = record {
  external_fstype = none;
  fstype = codes "udf";
  options = udf_allow_list;
  option_uid = some (codes "uid=");
  option_gid = some (codes "gid=");
  defaults = codes "ro,nodev,nosuid,iocharset=utf8,umask=0077";
  mandatory_options = codes "nodev,nosuid";
}

unfoldable pub filesystem_mount_options : List FilesystemOptions
filesystem_mount_options =
    vfat_options ∷ exfat_options ∷ ntfs_3g_options ∷ ntfs_options ∷ iso9660_options ∷ udf_options
    ∷ []
