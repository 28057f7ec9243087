-- ===== src/Mounting/System.antt =====
-- What the functions of daemon/filesystem_mnt.c ask of the system, and what it answers.
use dtmd.Common.{ℕ, Bool, Option, List, Bytes}
use dtmd.Misc.Types.{ReturnCode, ErrorCode}
use dtmd.Options.Types.{Flag}
use dtmd.Options.Convert.{OptionAllocator}
use dtmd.Mounts.Table.{MountEntry}

pub data DirState : Type 0 where
  not_dir empty not_empty : DirState

-- The calls that change something; `run` is `system`, with its command.
pub data SystemCall : Type 0 where
  mkdir rmdir run umount : Bytes → SystemCall
  mount : Bytes → Bytes → Bytes → (Flag → Bool) → Bytes → SystemCall

-- What `umount` returns: 0, or -1 with `EBUSY` or another code.
pub data UmountAnswer : Type 0 where
  unmounted busy in_error : UmountAnswer

-- The answers. The tables are those that are read for the places that are tried one after the
-- other, and `status` is what `system` returns for a command.
pub record System : Type 0 where
  pub credentials : Option (ℕ × ℕ)
  pub asked_memory : OptionAllocator
  pub forced_memory : OptionAllocator
  pub path_memory : ℕ → Bool
  pub command_memory : Bool
  pub full_opts_memory : Bool
  pub opts_memory : Bool
  pub tables : ℕ → Option (List MountEntry)
  pub dir_state : Bytes → DirState
  pub mkdir_done : Bytes → Bool
  pub mount_done : Bool
  pub umount_answer : Bytes → UmountAnswer
  pub status : Bytes → ℕ

-- What a request comes to: its result, the code for the client, and the calls that were made.
pub record Request : Type 0 where
  pub rc : ReturnCode
  pub error_code : Option ErrorCode
  pub calls : List SystemCall
