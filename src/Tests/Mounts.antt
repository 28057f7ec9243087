-- ===== src/Tests/Mounts.antt =====
-- Mount options.
use dtmd.Common.{
  ◌≡◌, ◌≢◌, ◌≤◌, refl, true, none, some, List, [], ◌∷◌, length, Bytes, codes, str_eq, decimal,
}
use dtmd.Misc.Types.{success, fail, fatal_error}
use dtmd.Config.MountOpts.{ConfigMountOpts, get_mount_options, insert_mount_opts}
use dtmd.Config.Lookup.{inserted, get_mount_options-insert_mount_opts}
use dtmd.Options.Types.{ms_nodev, ms_nosuid, FsoptsList, init_options_list}
use dtmd.Options.Validate.{validate_is_access_mode, validate_is_octal_number}
use dtmd.Options.Tables.{
  string_to_mount_flag_list, filesystem_mount_options, any_fs_allowed_list, common_fs_allowed_list,
  vfat_allow, vfat_allow_list, vfat_options,
}
use dtmd.Options.Convert.{
  get_fsopts_for_fs, find_filesystem, find_option_in_list, find_in_tables, find_in_table, is_option,
  option_length, option_starts, behind_commas, validate, is_duplicate, take_out, fill_item,
  find_mount_flag, OptionAllocator, place_item, convert_found, convert_option, convert_loop,
  convert_ids, convert_id, convert_all, convert_options_to_list,
}
use dtmd.Options.Mounting.{
  config_fstype, asked_options, forced_options, Prepared, refused, prepared, force_options,
  prepare_for_fs, prepare_options,
}
use dtmd.Options.Generate.{
  fsopts_generate_string, write, write_comma, count_item, write_option, write_id, write_full,
  write_unflagged,
}
use dtmd.Options.Proper.{IsProper, convert_options_to_list-IsProper}
use dtmd.Options.Restricted.{Unconfigured, prepare_options-IsRestricted}
use dtmd.Options.Accepted.{own_options-success}
use dtmd.Options.Strings.{
  separated, full_texts, string_texts, Shows, measured, fsopts_generate_string-Shows,
  fsopts_generate_string-fits,
}

abbrev answering : OptionAllocator
answering = record { item = λ option. true; uid = true; gid = true }

abbrev asked : Bytes
asked = codes "rw,suid,umask=0022,check=r"

abbrev permitted : Bytes
permitted = codes "rw,exec,umask=0022,ro"

abbrev prepared_list : Prepared → FsoptsList
unfolding init_options_list
prepared_list (prepared l) = l
prepared_list (refused rc code) = init_options_list

abbrev vfat_list : FsoptsList
unfolding prepare_options
vfat_list =
    prepared_list
      (prepare_options answering answering [] [] (codes "vfat") (some permitted) 1000 100)

-- `suid` is no option that a client may ask for.
asked_result :
    (convert_options_to_list answering
      (some asked)
      (some vfat_options)
      none
      none
      init_options_list).0
    ≡ fail
unfolding any_fs_allowed_list str_eq get_mount_options behind_commas option_starts option_length
    convert_found convert_id convert_ids convert_option convert_loop convert_all
    convert_options_to_list decimal fill_item find_filesystem get_fsopts_for_fs find_mount_flag
    is_duplicate is_option place_item take_out validate find_option_in_list find_in_tables
    find_in_table config_fstype asked_options force_options forced_options prepare_for_fs
    prepare_options common_fs_allowed_list filesystem_mount_options string_to_mount_flag_list
    vfat_allow vfat_allow_list init_options_list validate_is_access_mode validate_is_octal_number
asked_result = refl

permitted_string :
    (fsopts_generate_string none (some 100) vfat_list).string.buffer
    ≡ codes "umask=0022,uid=1000,gid=100"
unfolding any_fs_allowed_list str_eq get_mount_options behind_commas option_starts option_length
    convert_found convert_id convert_ids convert_option convert_loop convert_all
    convert_options_to_list decimal fill_item find_filesystem get_fsopts_for_fs find_mount_flag
    is_duplicate is_option place_item take_out validate find_option_in_list find_in_tables
    find_in_table config_fstype asked_options force_options forced_options prepare_for_fs
    prepare_options common_fs_allowed_list filesystem_mount_options string_to_mount_flag_list
    vfat_allow vfat_allow_list init_options_list validate_is_access_mode validate_is_octal_number
    fsopts_generate_string count_item write write_comma write_full write_option write_unflagged
    write_id vfat_list prepared_list
permitted_string = refl

convert_options_to_list-IsProper_example :
    IsProper vfat_options
      (convert_options_to_list answering
        (some permitted)
        (some vfat_options)
        none
        none
        init_options_list).1.options
unfolding init_options_list
convert_options_to_list-IsProper_example =
    convert_options_to_list-IsProper answering (some permitted) vfat_options none none
      init_options_list (tt, tt)

Unconfigured-nil : Unconfigured [] (codes "vfat")
unfolding get_mount_options
Unconfigured-nil fs e = refl

prepared_equation :
    prepare_options answering answering [] [] (codes "vfat") (some permitted) 1000 100
    ≡ prepared vfat_list
unfolding any_fs_allowed_list str_eq get_mount_options behind_commas option_starts option_length
    convert_found convert_id convert_ids convert_option convert_loop convert_all
    convert_options_to_list decimal fill_item find_filesystem get_fsopts_for_fs find_mount_flag
    is_duplicate is_option place_item take_out validate find_option_in_list find_in_tables
    find_in_table config_fstype asked_options force_options forced_options prepare_for_fs
    prepare_options common_fs_allowed_list filesystem_mount_options string_to_mount_flag_list
    vfat_allow vfat_allow_list init_options_list validate_is_access_mode validate_is_octal_number
    vfat_list prepared_list
prepared_equation = refl

prepare_options-IsRestricted_example :
    ((fsopts_generate_string none (some 100) vfat_list).flags ms_nodev ≡ true)
    × ((fsopts_generate_string none (some 100) vfat_list).flags ms_nosuid ≡ true)
prepare_options-IsRestricted_example =
    prepare_options-IsRestricted answering answering [] [] (codes "vfat") (some permitted) 1000 100
      vfat_list none (some 100) Unconfigured-nil prepared_equation

vfat-found : get_fsopts_for_fs (codes "vfat") ≡ some vfat_options
unfolding get_fsopts_for_fs find_filesystem filesystem_mount_options str_eq
vfat-found = refl

own_options-success_example :
    ((convert_options_to_list answering
        (some vfat_options.defaults)
        (some vfat_options)
        (some 0)
        none
        init_options_list).0
      ≡ success)
    × ((convert_options_to_list answering
          (some vfat_options.mandatory_options)
          (some vfat_options)
          (some 0)
          none
          init_options_list).0
        ≡ success)
own_options-success_example =
    own_options-success answering (codes "vfat") vfat_options (some 0) none init_options_list
      (λ option. refl, refl, refl) vfat-found

fsopts_generate_string-Shows_example :
    Shows
      (some 10)
      (full_texts vfat_list)
      (fsopts_generate_string (some 10) none vfat_list).full_string
    × Shows none (string_texts vfat_list) (fsopts_generate_string (some 10) none vfat_list).string
fsopts_generate_string-Shows_example = fsopts_generate_string-Shows (some 10) none vfat_list

fsopts_generate_string-fits_example :
    (length (fsopts_generate_string (some 10) (some 20) vfat_list).full_string.buffer ≤ 10)
    × (length (fsopts_generate_string (some 10) (some 20) vfat_list).string.buffer ≤ 20)
    × ((measured vfat_list).full_string.buffer ≡ separated (full_texts vfat_list))
    × ((measured vfat_list).string.buffer ≡ separated (string_texts vfat_list))
fsopts_generate_string-fits_example = fsopts_generate_string-fits 10 20 vfat_list

abbrev one_entry : List ConfigMountOpts
one_entry = record { fs_type = codes "vfat"; opts = codes "ro" } ∷ []

inserts : (insert_mount_opts true (codes "udf") (codes "rw") one_entry).0 ≢ fatal_error
unfolding insert_mount_opts str_eq
inserts = λ e. cc

get_mount_options-insert_mount_opts_example :
    get_mount_options (codes "vfat") (insert_mount_opts true (codes "udf") (codes "rw") one_entry).1
    ≡ inserted (codes "vfat") (codes "udf") (codes "rw") one_entry
get_mount_options-insert_mount_opts_example =
    get_mount_options-insert_mount_opts true (codes "vfat") (codes "udf") (codes "rw") one_entry
      inserts
