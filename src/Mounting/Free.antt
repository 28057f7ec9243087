-- ===== src/Mounting/Free.antt =====
-- The mount point that the loop of `invoke_mount` picks is one where nothing is mounted.
use dtmd.Common.{
  ℕ, zero, suc, ◌≤◌, ◌≡◌, ◌≢◌, inl, inr, ap, ◌∙◌, arith, false, Option, none, some, some_inj, List,
  [], ◌∷◌, All, Bool-cases, Option-cases, option_cases, if_cases, if_both, ◌==◌, ==_iff, ltb, ◌&&◌,
  if◌then◌else◌, Bytes, str_eq, str_eq_refl,
}
use dtmd.Config.Values.{MountByValue}
use dtmd.Mounts.Table.{MountEntry, has_text, count_points, point_mount_count}
use dtmd.Mounting.System.{System}
use dtmd.Mounting.Path.{Picked, again, refuse, picked, pick_point, try_point, taken, calculate_path}

-- Nothing is mounted at a place, by one of the tables that are read.
abbrev pub IsFree : System → Bytes → Type 0
IsFree sys point =
    (n : ℕ) × ((table : List MountEntry) × ((sys.tables n ≡ some table)
        × All (λ e. e.mnt_dir ≢ some point) table))

count_points-least :
    (path : Bytes) (max result : ℕ) (table : List MountEntry)
    → result ≤ count_points path max result table
unfolding count_points
count_points-least path max result [] = omega arith
count_points-least path max result (ent ∷ table) =
    if_both (λ n. result ≤ n) (has_text ent.mnt_dir path)
      (if_both (λ n. result ≤ n) (ltb 0 max && suc result == max) (omega arith)
        (let more = count_points-least path max (suc result) table in omega (arith, more)))
      (count_points-least path max result table)

has_text_self : (o : Option Bytes) (text : Bytes) → has_text o text ≡ false → o ≢ some text
unfolding has_text
has_text_self none text h e = absurd (none≢some e)
  where
    none≢some : {a : Bytes} → none ≢ some a
    none≢some e = cc
has_text_self (some old) text h e =
    let same = ap (λ a. str_eq a text) (some_inj e) ∙ str_eq_refl text in cc

count_points-none :
    (path : Bytes) (max : ℕ) (table : List MountEntry)
    → count_points path max 0 table ≡ 0
    → All (λ e. e.mnt_dir ≢ some path) table
unfolding count_points
count_points-none path max [] h = tt
count_points-none path max (ent ∷ table) h = elim (Bool-cases (has_text ent.mnt_dir path)) [
  | inl y ↦
      let one : (if ltb 0 max && 1 == max then 1 else count_points path max 1 table) ≡ 0 =
        rw (y, count_points) at h in
      let least : 1 ≤ (if ltb 0 max && 1 == max then 1 else count_points path max 1 table) =
        if_both (λ n. 1 ≤ n) (ltb 0 max && 1 == max) (omega arith)
          (count_points-least path max 1 table) in
      absurd (omega (arith, one, least))
  | inr y ↦ (
    has_text_self ent.mnt_dir path y,
    count_points-none path max table (rw (y, count_points) at h),
  )
]

-- A mount point that the loop has picked.
abbrev pub Picks : System → Picked → Type 0
Picks sys (picked point) = IsFree sys point
Picks sys _ = Unit

taken-Picks : (sys : System) (mount_type : MountByValue) → Picks sys (taken mount_type)
unfolding taken
taken-Picks sys MountByValue.mount_by_device_label = tt
taken-Picks sys MountByValue.mount_by_device_name = tt

counted :
    (sys : System) (n count : ℕ) (point : Bytes)
    → point_mount_count (sys.tables n) point 1 ≡ some count
    → count ≡ 0
    → IsFree sys point
unfolding point_mount_count
counted sys n count point e z = elim (Option-cases (sys.tables n)) [
  | inl t ↦ let no = rw (t, point_mount_count) at e in cc
  | inr (table, t) ↦
      let yes = rw (t, point_mount_count) at e in
      (n, (table, (t, count_points-none point 1 table (some_inj yes ∙ z))))
]

try_point-Picks :
    (sys : System) (n : ℕ) (p : MountByValue × Option Bytes) → Picks sys (try_point sys n p)
unfolding try_point
try_point-Picks sys n (mount_type, none) = tt
try_point-Picks sys n (mount_type, some point) =
    option_cases (Picks sys) (point_mount_count (sys.tables n) point 1) (λ e. tt)
      (λ count e.
        if_cases (Picks sys) (count == 0) (λ z. counted sys n count point e ((==_iff count 0).0 z))
          (λ z. taken-Picks sys mount_type))

pub pick_point-Picks :
    (sys : System) (fuel n : ℕ) (dir path : Bytes) (label : Option Bytes)
    (mount_type : MountByValue)
    → Picks sys (pick_point sys fuel n dir path label mount_type)
unfolding pick_point
pick_point-Picks sys zero n dir path label mount_type = tt
pick_point-Picks sys (suc fuel) n dir path label mount_type =
    let p = calculate_path (sys.path_memory n) dir path label mount_type in
    next (try_point sys n p) (λ m. pick_point sys fuel (suc n) dir path label m)
      (try_point-Picks sys n p) (λ m. pick_point-Picks sys fuel (suc n) dir path label m)
  where
    next :
        (r : Picked) (f : MountByValue → Picked)
        → Picks sys r
        → ((m : MountByValue) → Picks sys (f m))
        → Picks sys (elim r [
          | again other ↦ f other
          | refuse rc error_code ↦ refuse rc error_code
          | picked point ↦ picked point
        ])
    next (again other) f h k = k other
    next (refuse rc code) f h k = tt
    next (picked point) f h k = h
