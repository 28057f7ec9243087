-- ===== src/Daemon/Input.antt =====
-- What the main loop of daemon/daemon-main.c does with the input of a client.
use dtmd.Common.{
  ℕ, zero, suc, Bool, not, Option, none, some, [], ◌∷◌, ◌++◌, ◌==◌, if◌then◌else◌, length, Bytes,
  take_bytes,
}
use dtmd.Misc.Types.{ReturnCode, success, fail, client_error, fatal_error, bug}
use dtmd.Commands.Invoke.{Command}

-- `dtmd_command_max_length`
abbrev pub max_length : ℕ
max_length = 4096

-- The text of a buffer, which ends at a NUL.
unfoldable pub c_string : Bytes → Bytes
c_string [] = []
c_string (c ∷ buf) = let rest = c_string buf in if c == 0 then [] else c ∷ rest

-- What stands behind the newline that `strchr` finds.
unfoldable pub behind_newline : Bytes → Option Bytes
behind_newline [] = none
behind_newline (c ∷ buf) =
    let rest = behind_newline buf in if c == 10 then some buf else if c == 0 then none else rest

-- The client goes on with a buffer, is removed, or the daemon stops.
pub data Handled {ℓ} (W : Type ℓ) : Type ℓ where
  kept : Bytes → W → Handled W
  removed : W → Handled W
  stopped : W → Handled W
  undefined out_of_fuel : Handled W

-- The result of `read`, and whether `errno` is `EINTR` behind it.
pub data Read : Type 0 where
  received : Bytes → Read
  end_of_input : Bool → Read
  read_error : Bool → Read

-- The parser of commands, and what a command does to the state of the daemon.
pub record Parser {ℓ} (W : Type ℓ) : Type ℓ where
  pub validate : Bytes → Bool
  pub parse : Bytes → Option Command
  pub invoke : Command → W → ReturnCode × W

module _ {ℓ} {W : Type ℓ} where
  unfoldable pub after_command : ReturnCode × W → (W → Handled W) → Handled W
  after_command (bug, w) next = stopped w
  after_command (fatal_error, w) next = stopped w
  after_command (client_error, w) next = removed w
  after_command (fail, w) next = next w
  after_command (success, w) next = next w

  unfoldable pub check_full : Handled W → Handled W
  check_full (kept buf w) = if length buf == max_length then removed w else kept buf w
  check_full (removed w) = removed w
  check_full (stopped w) = stopped w
  check_full undefined = undefined
  check_full out_of_fuel = out_of_fuel

module _ {ℓ} {W : Type ℓ} (p : Parser W) where
  -- One round of the loop over the lines of the buffer.
  unfoldable pub run_command : Bytes → W → (W → Handled W) → Handled W
  run_command text w next =
      if not (p.validate text)
      then removed w
      else elim (p.parse text) [ none ↦ stopped w | some cmd ↦ after_command (p.invoke cmd w) next ]

  unfoldable pub run_lines : ℕ → Bytes → W → Handled W
  run_lines zero buf w = elim (behind_newline buf) [ none ↦ kept buf w | some rest ↦ out_of_fuel ]
  run_lines (suc fuel) buf w = elim (behind_newline buf) [
    | none ↦ kept buf w
    | some rest ↦ run_command (c_string buf) w (λ s. run_lines fuel rest s)
  ]

  unfoldable pub run_buffer : Bytes → W → Handled W
  run_buffer buf w = check_full (run_lines (length buf) buf w)

  -- A read that is interrupted adds -1 to `buf_used`.
  unfoldable pub take_input : Bytes → Read → W → Handled W
  take_input buf (received bytes) w = run_buffer (buf ++ bytes) w
  take_input buf (end_of_input interrupted) w = if interrupted then run_buffer buf w else removed w
  take_input [] (read_error interrupted) w = if interrupted then undefined else removed w
  take_input (c ∷ buf) (read_error interrupted) w =
      if interrupted then run_buffer (take_bytes (length buf) (c ∷ buf)) w else removed w
