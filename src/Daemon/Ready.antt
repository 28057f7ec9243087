-- ===== src/Daemon/Ready.antt =====
-- The buffer of a client behind each read: its bound, and that no line is left in it.
use dtmd.Common.{
  ℕ, zero, suc, ◌+◌, ◌<◌, ◌≤◌, ◌≡◌, ◌≢◌, refl, true, not, none, [], ◌∷◌, ◌++◌, inl, inr, arith,
  length, length-append, Option-cases, if_cases, if_both, option_cases, ◌==◌, Bytes, take_bytes,
}
use dtmd.Misc.Types.{ReturnCode, success, fail, client_error, fatal_error, bug}
use dtmd.Daemon.Input.{
  max_length, c_string, behind_newline, Handled, kept, removed, stopped, undefined, out_of_fuel,
  Read, received, end_of_input, read_error, Parser, after_command, run_command, run_lines,
  check_full, run_buffer, take_input,
}
use dtmd.Daemon.Lines.{
  behind_newline-empty, behind_newline-shorter, run_lines-kept, run_lines-command,
}

-- A buffer between two reads: there is room for a byte, and no line is complete.
abbrev pub IsReady : Bytes → Type 0
IsReady buf = (length buf < max_length) × (behind_newline buf ≡ none)

-- What `read` may answer for a buffer: it gives no more bytes than asked for. The last line
-- excludes an interrupted read for an empty buffer.
abbrev pub Fits : Bytes → Read → Type 0
Fits buf (received bytes) = length buf + length bytes ≤ max_length
Fits buf (end_of_input interrupted) = Unit
Fits buf (read_error interrupted) = interrupted ≡ true → buf ≢ []

-- A client that is kept has a buffer with a property, and the loop has ended in its fuel.
abbrev pub Leaves {ℓ} : {W : Type ℓ} → (Bytes → Type 0) → Handled W → Type 0
Leaves P (kept buf w) = P buf
Leaves P (removed w) = Unit
Leaves P (stopped w) = Unit
Leaves P undefined = ⊥
Leaves P out_of_fuel = ⊥

module _ {ℓ} {W : Type ℓ} (P : Bytes → Type 0) where
  after_command-Leaves :
      (r : ReturnCode × W) (next : W → Handled W)
      → ((s : W) → Leaves P (next s))
      → Leaves P (after_command r next)
  unfolding after_command
  after_command-Leaves (bug, w) next h = tt
  after_command-Leaves (fatal_error, w) next h = tt
  after_command-Leaves (client_error, w) next h = tt
  after_command-Leaves (fail, w) next h = h w
  after_command-Leaves (success, w) next h = h w

  run_command-Leaves :
      (p : Parser W) (text : Bytes) (w : W) (next : W → Handled W)
      → ((s : W) → Leaves P (next s))
      → Leaves P (run_command p text w next)
  unfolding run_command
  run_command-Leaves p text w next h = if_both (Leaves P) (not (p.validate text)) tt (
      option_cases (Leaves P) (p.parse text) (λ e. tt)
        (λ cmd e. after_command-Leaves (p.invoke cmd w) next h))

-- A part of a buffer of which every line has been taken.
abbrev pub IsRest : Bytes → Bytes → Type 0
IsRest buf rest = (length rest ≤ length buf) × (behind_newline rest ≡ none)

length-take_bytes : (n : ℕ) (s : Bytes) → length (take_bytes n s) ≤ n
length-take_bytes zero s = omega arith
length-take_bytes (suc n) [] = omega arith
length-take_bytes (suc n) (c ∷ s) = let h = length-take_bytes n s in omega (arith, h)

module _ {ℓ} {W : Type ℓ} where
  Leaves-mono :
      {P Q : Bytes → Type 0} → ((b : Bytes) → P b → Q b) → (r : Handled W) → Leaves P r → Leaves Q r
  Leaves-mono f (kept buf w) h = f buf h
  Leaves-mono f (removed w) h = tt
  Leaves-mono f (stopped w) h = tt
  Leaves-mono f undefined h = h
  Leaves-mono f out_of_fuel h = h

  pub run_lines-IsRest :
      (p : Parser W) (fuel : ℕ) (buf : Bytes) (w : W)
      → length buf ≤ fuel
      → Leaves (IsRest buf) (run_lines p fuel buf w)
  run_lines-IsRest p zero buf w h =
      let e = behind_newline-empty buf h in rw (run_lines-kept p zero buf w e) (omega arith, e)
  run_lines-IsRest p (suc n) buf w h = elim (Option-cases (behind_newline buf)) [
    | inl e ↦ rw (run_lines-kept p (suc n) buf w e) (omega arith, e)
    | inr s ↦
        let less = behind_newline-shorter buf s.1 in
        rw (run_lines-command p n buf w s.1) (
          run_command-Leaves (IsRest buf) p (c_string buf) w (λ t. run_lines p n s.0 t)
            (λ t.
              Leaves-mono (λ b k. (omega (arith, less, k.0), k.1)) (run_lines p n s.0 t)
                (run_lines-IsRest p n s.0 t (omega (arith, less)))))
  ]

  check_full-IsReady :
      (buf : Bytes) (r : Handled W)
      → length buf ≤ max_length
      → Leaves (IsRest buf) r
      → Leaves IsReady (check_full r)
  unfolding check_full
  check_full-IsReady buf (kept rest w) h k =
      if_cases (Leaves IsReady) (length rest == max_length) (λ e. tt)
        (λ e. (ground (arith, h, k.0), k.1))
  check_full-IsReady buf (removed w) h k = tt
  check_full-IsReady buf (stopped w) h k = tt
  check_full-IsReady buf undefined h k = k
  check_full-IsReady buf out_of_fuel h k = k

  run_buffer-IsReady :
      (p : Parser W) (buf : Bytes) (w : W)
      → length buf ≤ max_length
      → Leaves IsReady (run_buffer p buf w)
  unfolding run_buffer
  run_buffer-IsReady p buf w h =
      check_full-IsReady buf (run_lines p (length buf) buf w) h
        (run_lines-IsRest p (length buf) buf w (omega arith))

  -- Whatever a read answers, the loop over the lines ends, and a client that is kept has a buffer
  -- with room for a byte and without a complete line, if the buffer was so before and an empty
  -- buffer's read is not interrupted.
  pub take_input-IsReady :
      (p : Parser W) (buf : Bytes) (answer : Read) (w : W)
      → IsReady buf
      → Fits buf answer
      → Leaves IsReady (take_input p buf answer w)
  unfolding take_input
  take_input-IsReady p buf (received bytes) w r fits =
      run_buffer-IsReady p (buf ++ bytes) w
        (let e = length-append buf bytes in omega (arith, e, fits))
  take_input-IsReady p buf (end_of_input interrupted) w r fits =
      if_both (Leaves IsReady) interrupted (run_buffer-IsReady p buf w (omega (arith, r.0))) tt
  take_input-IsReady p [] (read_error interrupted) w r fits =
      if_cases (Leaves IsReady) interrupted (λ e. absurd (fits e refl)) (λ e. tt)
  take_input-IsReady p (c ∷ buf) (read_error interrupted) w r fits =
      if_both (Leaves IsReady) interrupted
        (run_buffer-IsReady p (take_bytes (length buf) (c ∷ buf)) w
          (let less = length-take_bytes (length buf) (c ∷ buf) in omega (arith, less, r.0)))
        tt
