-- ===== src/Lib.antt =====
-- DTMD, the Dark Templar Mount Daemon: a daemon that watches removable devices, tells its clients
-- of them and mounts them on a client's request.
--
-- The daemon keeps two lists (daemon/lists.c). The media list is a tree of devices, each with its
-- type, state, file system, label and mount point. The device modules find devices, and the main
-- loop hands each event to `add_media`, `remove_media` or `change_media`, which change the tree
-- and notify the clients. The client list has the connections to which the notifications go. A
-- label comes encoded, with escapes, and is decoded when it is stored (daemon/label.c). The types,
-- states and errors travel under the names of library/dtmd-misc.c, which also searches the tree
-- for a path. A request to mount converts an options string to a list by the tables of the file
-- system (daemon/filesystem_opts.c), adds the mandatory options, which the configuration may
-- replace (daemon/config_file.c), and makes of the list the strings and flags for mount
-- (daemon/filesystem_mnt.c).
--
-- Common has what the modules share: Boolean tests on numbers, lists, C strings as lists of bytes
-- without the NUL, and `Outcome`, the result of a function that may fail, may leave the defined
-- behaviour of C, or runs on fuel.
--
-- Label models daemon/label.c. Ctype has the character classes of the C locale and the parts that
-- the two functions share, Decode `decode_label` and Compare `compare_labels`. Each loop is a
-- recursion on fuel, for which the length of the encoded label is given: a round reads a byte at
-- least. A plain `char` is signed, as on x86, which decides what `compare_labels` does with
-- escapes of 128 and more; an octal escape above 255 does not fit a byte, and its outcome is
-- `undefined`.
--
-- Misc models the enumerations of dtmd.h.in and daemon/return_codes.h (Types) and their names in
-- library/dtmd-misc.c (Names).
--
-- Media models `dtmd_removable_media_t` as a value: a node with its children and its next sibling
-- (Tree), which gives the pointers to the parent and to the previous sibling no place of their
-- own, since they follow from the position. `find_media` is `dtmd_find_media`, with the parent's
-- path and the node's children for result, and `at_media` changes the tree at the first node with
-- a path. Entries has the abstract view, the list of nodes with their parents' paths in printing
-- order, and Order the order of siblings.
--
-- Lists models the media part of daemon/lists.c for the Linux build: Device the arguments and the
-- notifications, Construct the allocation of a node, Update `add_media`, `remove_media` and
-- `remove_all_media`, Change `change_media`. The allocator is an argument, a function that says
-- for each place whether memory is given, and an operation returns its code, the tree and the
-- notifications in their order. Clients models the client part, with the descriptors that are
-- closed.
--
-- Options models daemon/filesystem_opts.c for the Linux build: Types the structures, with the bits
-- of mount(2) as an enumeration and a mask as a predicate on it, Validate the validation functions
-- on the bytes of a value, Tables the tables, Convert `convert_options_to_list`, whose loop takes
-- the places behind the commas one by one and needs no fuel, and Generate
-- `fsopts_generate_string`, with a buffer as the bytes written so far. An option is the text up to
-- the end of the string that it stands in, with its lengths, as in the source. An id is printed
-- with ten digits at most, which 32 bits never exceed. Mounting is the part of `invoke_mount` that
-- prepares the options. Config models daemon/config_file.c: the arrays of options per file system
-- (MountOpts), `process_config_value` (Values), and `read_config` (Scan), whose scan of a line takes
-- byte after byte with the places that the code keeps in integers. The allocator's answers are
-- given for each line. Printed and Read print settings and read them.
--
-- Commands models daemon/actions.c: Message the formats of the lines, Wire the writes to a client,
-- whose success is an argument, by the number of lines written before, Listing the functions that
-- print devices, Supported those of daemon/filesystem_opts.c that list the tables of file systems,
-- Notify the notifications to each client, and Invoke `invoke_command`. What a command calls in
-- other files, mounting, unmounting, powering off and the lists of file systems, are the operations
-- of a record.
--
-- Mounts models daemon/mnt_funcs.c for the Linux build: `check_mount_changes` and
-- `point_mount_count` (Table) on the entries that getmntent gives, with the bits of the counter of a
-- device as arithmetic, a shift being a multiplication. Nodes has what a change of one node does to
-- the others, and the next modules follow the passes of a check. Mtab has `add_to_mtab` and
-- `remove_from_mtab` on the entries of the file.
--
-- Mounting models daemon/filesystem_mnt.c for the Linux build: System what the functions ask of the
-- system, with the calls that change something as a list in their order, Path `calculate_path` and
-- the loop that looks for a mount point, on fuel for two rounds, of which the second is by the
-- device's name and the last, Command the two ways to mount, Invoke `invoke_mount`, and Unmount
-- `invoke_unmount` and `invoke_unmount_all`.
--
-- Daemon models the main loop, daemon/daemon-main.c. Input has what comes from a client: the buffer
-- of 4096 bytes, and the loop over its lines on fuel, for which the length of the buffer is enough,
-- since each line takes away a byte at least. The state that commands work on is any type. Events
-- has the devices that are enumerated at the start, the event of a device, and the check of the
-- mount table in one round of the loop; Reach the states that the loop comes to, as a data type.
-- What poll, read, the device module and the allocator answer is given to each round.
--
-- Tests has runs of the functions and the theorems at concrete inputs.
--
-- Not modelled are the start and the end of the daemon with its sockets and signals, the FreeBSD
-- build, powering off, the device modules and the client library, which are for the most part input
-- and output, and the parser of commands, a library outside the repository. In Mounting the calls
-- that keep the mtab file up to date are left out, since their failure is ignored. Memory that is
-- freed is not tracked.
pub mod Common
pub mod Label
pub mod Misc
pub mod Media
pub mod Lists
pub mod Clients
pub mod Mounts
pub mod Config
pub mod Options
pub mod Mounting
pub mod Commands
pub mod Daemon
mod Tests
