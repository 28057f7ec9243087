-- ===== src/Daemon/Lines.antt =====
-- How the loop over the lines of a buffer unfolds.
use dtmd.Common.{
  ℕ, zero, suc, ◌<◌, ◌≤◌, ◌≡◌, refl, sym, ap, ◌∙◌, Option, none, some, [], ◌∷◌, inl, inr, arith,
  length, Option-cases, if_cases, some_inj, ◌==◌, Bytes,
}
use dtmd.Daemon.Input.{c_string, behind_newline, Handled, kept, Parser, run_command, run_lines}

pub behind_newline-shorter :
    (buf : Bytes) {rest : Bytes} → behind_newline buf ≡ some rest → length rest < length buf
unfolding behind_newline
behind_newline-shorter [] = λ h. cc
behind_newline-shorter (c ∷ buf) {rest} =
    if_cases (λ (o : Option Bytes). o ≡ some rest → length rest < suc (length buf)) (c == 10)
      (λ n h. let e = ap length (some_inj h) in omega (arith, e))
      (λ n.
        if_cases (λ (o : Option Bytes). o ≡ some rest → length rest < suc (length buf)) (c == 0)
          (λ z h. cc) (λ z h. let less = behind_newline-shorter buf h in omega (arith, less)))

pub behind_newline-empty : (buf : Bytes) → length buf ≤ 0 → behind_newline buf ≡ none
unfolding behind_newline
behind_newline-empty [] h = refl
behind_newline-empty (c ∷ buf) h = absurd (omega arith)

module _ {ℓ} {W : Type ℓ} (p : Parser W) where
  pub run_lines-kept :
      (fuel : ℕ) (buf : Bytes) (w : W)
      → behind_newline buf ≡ none
      → run_lines p fuel buf w ≡ kept buf w
  unfolding run_lines
  run_lines-kept zero buf w e = rw (e, run_lines) refl
  run_lines-kept (suc fuel) buf w e = rw (e, run_lines) refl

  pub run_lines-command :
      (fuel : ℕ) (buf : Bytes) (w : W) {rest : Bytes}
      → behind_newline buf ≡ some rest
      → run_lines p (suc fuel) buf w ≡ run_command p (c_string buf) w (λ s. run_lines p fuel rest s)
  unfolding run_lines
  run_lines-command fuel buf w e = rw (e, run_lines) refl

  run_command-next :
      (text : Bytes) (w : W) {next next' : W → Handled W}
      → ((s : W) → next s ≡ next' s)
      → run_command p text w next ≡ run_command p text w next'
  run_command-next text w same = λ i. run_command p text w (λ s. same s i)

  -- More fuel than the length of the buffer changes nothing.
  run_lines_enough :
      (n m : ℕ) (buf : Bytes) (w : W)
      → length buf ≤ n
      → length buf ≤ m
      → run_lines p n buf w ≡ run_lines p m buf w
  run_lines_enough zero m buf w h k =
      let empty = behind_newline-empty buf h in
      run_lines-kept zero buf w empty ∙ sym (run_lines-kept m buf w empty)
  run_lines_enough (suc n) zero buf w h k =
      let empty = behind_newline-empty buf k in
      run_lines-kept (suc n) buf w empty ∙ sym (run_lines-kept zero buf w empty)
  run_lines_enough (suc n) (suc m) buf w h k = elim (Option-cases (behind_newline buf)) [
    | inl e ↦ run_lines-kept (suc n) buf w e ∙ sym (run_lines-kept (suc m) buf w e)
    | inr s ↦
        let less = behind_newline-shorter buf s.1 in
        run_lines-command n buf w s.1
        ∙ run_command-next (c_string buf) w
            (λ t. run_lines_enough n m s.0 t (omega (arith, less)) (omega (arith, less)))
        ∙ sym (run_lines-command m buf w s.1)
  ]
