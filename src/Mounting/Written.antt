-- ===== src/Mounting/Written.antt =====
-- The texts of the command that mounts, and of the options for `mount`.
use dtmd.Common.{
  ◌≡◌, ◌≤◌, ap, ◌∙◌, arith, List, [], ◌∷◌, ◌++◌, append_assoc, length, length-append, ltb,
  Bool-cases, inl, inr, none, some, Bytes, codes, Mem, Memᴰ,
}
use mathlib.Core.Logic.{∥∥₁_elim}
use mathlib.Core.HLevel.{⊥_prop}
use dtmd.Options.Types.{FsoptsList}
use dtmd.Options.Generate.{fsopts_generate_string}
use dtmd.Options.Strings.{behind_comma, separated, full_texts, fsopts_generate_string-Shows}
use dtmd.Options.Writes.{take_bytes-all}
use dtmd.Mounting.Command.{mount_prefix, full_len, mount_command}

-- The command line for a file system, a device, a place and options.
abbrev pub mount_line : Bytes → Bytes → Bytes → List Bytes → Bytes
mount_line fstype path place texts =
    codes "mount -t "
    ++ (fstype
        ++ (codes " " ++ (path ++ (codes " '" ++ (place ++ (codes "' -o " ++ separated texts))))))

length-behind_comma :
    (text : Bytes) (texts : List Bytes)
    → Memᴰ text texts
    → length text ≤ length (behind_comma texts)
length-behind_comma text [] m = elim m [ ]
length-behind_comma text (t ∷ texts) (Memᴰ.head e) =
    let a = ap length e in let b = length-append t (behind_comma texts) in omega (arith, a, b)
length-behind_comma text (t ∷ texts) (Memᴰ.tail m) =
    let a = length-behind_comma text texts m in
    let b = length-append t (behind_comma texts) in omega (arith, a, b)

length-separated :
    (text : Bytes) (texts : List Bytes) → Memᴰ text texts → length text ≤ length (separated texts)
length-separated text [] m = elim m [ ]
length-separated text (t ∷ texts) (Memᴰ.head e) =
    let a = ap length e in let b = length-append t (behind_comma texts) in omega (arith, a, b)
length-separated text (t ∷ texts) (Memᴰ.tail m) =
    let a = length-behind_comma text texts m in
    let b = length-append t (behind_comma texts) in omega (arith, a, b)

mount_prefix-mount_line :
    (fstype path place : Bytes) (texts : List Bytes)
    → mount_prefix fstype path place ++ (codes " -o " ++ separated texts)
      ≡ mount_line fstype path place texts
unfolding mount_prefix
mount_prefix-mount_line fstype path place texts = simp (append_assoc)

-- The string that the command is given.
pub generated-separated :
    (l : FsoptsList)
    → (fsopts_generate_string (some (full_len l)) none l).full_string.buffer
      ≡ separated (full_texts l)
generated-separated l =
    let counted = fsopts_generate_string-Shows none none l in
    let whole = fsopts_generate_string-Shows (some (full_len l)) none l in
    whole.0.0 ∙ take_bytes-all (full_len l) (separated (full_texts l)) (omega (arith, counted.0.1))

-- Where `nodev` is an option, the command has all options behind `-o`.
pub mount_command-mount_line :
    (fstype path place : Bytes) (l : FsoptsList)
    → Mem (codes "nodev") (full_texts l)
    → mount_command fstype path place l ≡ mount_line fstype path place (full_texts l)
unfolding mount_command
mount_command-mount_line fstype path place l m =
    let counted = fsopts_generate_string-Shows none none l in
    elim (Bool-cases (ltb 0 (full_len l))) [
      | inl y ↦
          rw (y, mount_command)
            (ap (λ t. mount_prefix fstype path place ++ (codes " -o " ++ t)) (generated-separated l)
              ∙ mount_prefix-mount_line fstype path place (full_texts l))
      | inr n ↦ absurd (
          ∥∥₁_elim m ⊥_prop (λ d.
            let least = length-separated (codes "nodev") (full_texts l) d in
            let some_length = counted.0.1 in ground (arith, least, some_length, n)))
    ]
