-- ===== src/Mounting/Picks.antt =====
-- The loop that looks for a mount point ends.
use dtmd.Common.{
  ℕ, suc, ◌≡◌, ◌≢◌, refl, sym, Option, none, some, option_cases, if_both, ◌==◌, Bytes, subst,
}
use dtmd.Misc.Types.{success, fatal_error, ErrorCode, generic_error}
use dtmd.Config.Values.{MountByValue, mount_by_device_name, mount_by_device_label}
use dtmd.Mounts.Table.{point_mount_count}
use dtmd.Mounting.System.{System}
use dtmd.Mounting.Path.{
  Picked, again, refuse, picked, pick_point, try_point, taken, calculate_path, mount_name,
}
use dtmd.Mounting.Answers.{fail≢success, fatal_error≢success}

-- The loop is over in its second round.
abbrev pub Stops : Picked → Type 0
Stops (again other) = ⊥
Stops (refuse rc code) = rc ≢ success
Stops (picked point) = Unit

-- A round by name does not lead to another one.
abbrev StopsBy : MountByValue → Picked → Type 0
StopsBy mount_by_device_name p = Stops p
StopsBy mount_by_device_label (again other) = other ≡ mount_by_device_name
StopsBy mount_by_device_label p = Stops p

taken-StopsBy : (mount_type : MountByValue) → StopsBy mount_type (taken mount_type)
unfolding taken
taken-StopsBy mount_by_device_name = fail≢success
taken-StopsBy mount_by_device_label = refl

refuse-StopsBy :
    (mount_type : MountByValue) (code : ErrorCode) → StopsBy mount_type (refuse fatal_error code)
refuse-StopsBy mount_by_device_name code = fatal_error≢success
refuse-StopsBy mount_by_device_label code = fatal_error≢success

picked-StopsBy : (mount_type : MountByValue) (point : Bytes) → StopsBy mount_type (picked point)
picked-StopsBy mount_by_device_name point = tt
picked-StopsBy mount_by_device_label point = tt

try_point-StopsBy :
    (sys : System) (n : ℕ) (p : MountByValue × Option Bytes) → StopsBy p.0 (try_point sys n p)
unfolding try_point
try_point-StopsBy sys n (mount_type, none) = refuse-StopsBy mount_type generic_error
try_point-StopsBy sys n (mount_type, some point) =
    option_cases (StopsBy mount_type) (point_mount_count (sys.tables n) point 1)
      (λ e. refuse-StopsBy mount_type generic_error)
      (λ count e.
        if_both (StopsBy mount_type) (count == 0) (picked-StopsBy mount_type point)
          (taken-StopsBy mount_type))

one_round-Stops :
    (r : Picked) (next : MountByValue → Picked)
    → Stops r
    → Stops (elim r [
      | again other ↦ next other
      | refuse rc error_code ↦ refuse rc error_code
      | picked point ↦ picked point
    ])
one_round-Stops (again other) next h = absurd h
one_round-Stops (refuse rc code) next h = h
one_round-Stops (picked point) next h = h

two_rounds-Stops :
    (mount_type : MountByValue) (r : Picked) (next : MountByValue → Picked)
    → StopsBy mount_type r
    → Stops (next mount_by_device_name)
    → Stops (elim r [
      | again other ↦ next other
      | refuse rc error_code ↦ refuse rc error_code
      | picked point ↦ picked point
    ])
two_rounds-Stops mount_by_device_name r next h k = one_round-Stops r next h
two_rounds-Stops mount_by_device_label (again other) next h k =
    subst (λ m. Stops (next m)) (sym h) k
two_rounds-Stops mount_by_device_label (refuse rc code) next h k = h
two_rounds-Stops mount_by_device_label (picked point) next h k = h

pub pick_point-Stops :
    (sys : System) (n : ℕ) (dir path : Bytes) (label : Option Bytes) (mount_type : MountByValue)
    → Stops (pick_point sys 2 n dir path label mount_type)
unfolding pick_point calculate_path mount_name
pick_point-Stops sys n dir path label mount_type =
    let first = calculate_path (sys.path_memory n) dir path label mount_type in
    let second = calculate_path (sys.path_memory (suc n)) dir path label mount_by_device_name in
    two_rounds-Stops first.0 (try_point sys n first)
      (λ m. pick_point sys 1 (suc n) dir path label m) (try_point-StopsBy sys n first)
      (one_round-Stops (try_point sys (suc n) second)
        (λ m. pick_point sys 0 (suc (suc n)) dir path label m)
        (try_point-StopsBy sys (suc n) second))
