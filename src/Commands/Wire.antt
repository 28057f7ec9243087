-- ===== src/Commands/Wire.antt =====
-- Writes to a client's descriptor.
use dtmd.Common.{ℕ, Bool, List, [], ◌∷◌, ◌++◌, if◌then◌else◌, length, Bytes}
use dtmd.Misc.Types.{ReturnCode, success, client_error}

-- Whether `dprintf` succeeds, by the number of lines written before.
abbrev pub Wire : Type 0
Wire = ℕ → Bool

-- A result, and the lines that have been written.
abbrev pub Sent : Type 0
Sent = ReturnCode × List Bytes

unfoldable pub dprintf : Wire → Bytes → List Bytes → Sent
dprintf wire text sent =
    if wire (length sent) then (success, sent ++ text ∷ []) else (client_error, sent)

-- What comes next unless the result is a failure, which is returned.
abbrev pub and_then : Sent → (List Bytes → Sent) → Sent
and_then first next = elim first.0 [ success ↦ next first.1 | failure ↦ (failure, first.1) ]
