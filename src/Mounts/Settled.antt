-- ===== src/Mounts/Settled.antt =====
-- What the first and the last pass of a check do to the node of a path.
use dtmd.Common.{
  ◌≡◌, refl, sym, ap, subst, ◌∙◌, not, ◌&&◌, Option, none, some, List, inl, inr, Bool-cases,
  option_cases, if_cases, if◌then◌else◌, Bytes, str_eq, Outcome, ok, >>=-eq-ok, ok_inj,
}
use dtmd.Media.Tree.{MediaInfo, Media, null, node}
use dtmd.Lists.Device.{Notification}
use dtmd.Mounts.Table.{
  is_mounted_now, is_mounted_last, marked, mark_each_device, process_node, process_changes,
}
use dtmd.Mounts.Nodes.{first_of, info_at}

unfoldable pub mapped : (MediaInfo → MediaInfo) → Option MediaInfo → Option MediaInfo
mapped f none = none
mapped f (some i) = some (f i)

mapped-first_of :
    (f : MediaInfo → MediaInfo) (a b : Option MediaInfo)
    → first_of (mapped f a) (mapped f b) ≡ mapped f (first_of a b)
unfolding mapped
mapped-first_of f none b = refl
mapped-first_of f (some i) b = refl

-- A change of every node that keeps the paths.
abbrev pub map_nodes : (MediaInfo → MediaInfo) → Media → Media
map_nodes f null = null
map_nodes f (node i children next) = node (f i) (map_nodes f children) (map_nodes f next)

pub info_at-map_nodes :
    (f : MediaInfo → MediaInfo) (keeps : (i : MediaInfo) → (f i).path ≡ i.path) (path : Bytes)
    (m : Media)
    → info_at path (map_nodes f m) ≡ mapped f (info_at path m)
unfolding info_at mapped
info_at-map_nodes f keeps path null = refl
info_at-map_nodes f keeps path (node j children next) = elim (Bool-cases (str_eq path j.path)) [
  | inl e ↦ rw (ap (str_eq path) (keeps j) ∙ e, e, info_at, mapped) refl
  | inr e ↦
      rw (ap (str_eq path) (keeps j) ∙ e, e, info_at)
        (ap (λ o. first_of o (info_at path (map_nodes f next)))
            (info_at-map_nodes f keeps path children)
          ∙ ap (first_of (mapped f (info_at path children))) (info_at-map_nodes f keeps path next)
          ∙ mapped-first_of f (info_at path children) (info_at path next))
]

mark_each_device-map : (m : Media) → mark_each_device m ≡ map_nodes marked m
unfolding mark_each_device
mark_each_device-map null = refl
mark_each_device-map (node i children next) =
    ap (λ c. node (marked i) c (mark_each_device next)) (mark_each_device-map children)
    ∙ ap (node (marked i) (map_nodes marked children)) (mark_each_device-map next)

pub info_at-mark_each_device :
    (path : Bytes) (m : Media) → info_at path (mark_each_device m) ≡ mapped marked (info_at path m)
info_at-mark_each_device path m =
    ap (info_at path) (mark_each_device-map m) ∙ info_at-map_nodes marked (λ i. refl) path m

-- The mount point that the end of the check leaves a node.
abbrev pub point_after : MediaInfo → Option Bytes
point_after i =
    if not (is_mounted_now i.mount_counter) && is_mounted_last i.mount_counter
    then none
    else i.mnt_point

process_node-point :
    (i : MediaInfo) (done : MediaInfo × List Notification)
    → process_node i ≡ ok done
    → (done.0.mnt_point ≡ point_after i) × (done.0.path ≡ i.path)
unfolding process_node
process_node-point i done =
    if_cases
      (λ (o : Outcome (MediaInfo × List Notification)).
        o ≡ ok done → (done.0.mnt_point ≡ point_after i) × (done.0.path ≡ i.path))
      (not (is_mounted_now i.mount_counter) && is_mounted_last i.mount_counter)
      (λ t.
        option_cases
          (λ (o : Outcome (MediaInfo × List Notification)).
            o ≡ ok done → (done.0.mnt_point ≡ point_after i) × (done.0.path ≡ i.path))
          i.mnt_point (λ n e. cc)
          (λ point s e. (
            ap (λ (x : MediaInfo × List Notification). x.0.mnt_point) (sym (ok_inj e)) ∙ rw t refl,
            ap (λ (x : MediaInfo × List Notification). x.0.path) (sym (ok_inj e)),
          )))
      (λ t e. (
        ap (λ (x : MediaInfo × List Notification). x.0.mnt_point) (sym (ok_inj e)) ∙ rw t refl,
        ap (λ (x : MediaInfo × List Notification). x.0.path) (sym (ok_inj e)),
      ))

-- The same path leads to a node before and behind, or to none.
abbrev pub Follows : Option MediaInfo → Option MediaInfo → Type 0
Follows none none = Unit
Follows (some i) (some k) = k.mnt_point ≡ point_after i
Follows _ _ = ⊥

Follows-first_of :
    (a b c d : Option MediaInfo) → Follows a c → Follows b d → Follows (first_of a b) (first_of c d)
Follows-first_of none b none d h k = k
Follows-first_of (some i) b (some j) d h k = h
Follows-first_of none b (some j) d h k = absurd h
Follows-first_of (some i) b none d h k = absurd h

pub process_changes-Follows :
    (path : Bytes) (m : Media) (done : Media × List Notification)
    → process_changes m ≡ ok done
    → Follows (info_at path m) (info_at path done.0)
unfolding process_changes info_at
process_changes-Follows path null done e =
    subst (λ (x : Media × List Notification). Follows none (info_at path x.0)) (ok_inj e) tt
process_changes-Follows path (node i children next) done e =
    let (here, p, e1) = >>=-eq-ok (process_node i) _ e in
    let (below, q, e2) = >>=-eq-ok (process_changes children) _ e1 in
    let (behind, r, e3) = >>=-eq-ok (process_changes next) _ e2 in
    let point = process_node-point i here p in
    let deeper =
      Follows-first_of (info_at path children) (info_at path next) (info_at path below.0)
        (info_at path behind.0) (process_changes-Follows path children below q)
        (process_changes-Follows path next behind r) in
    subst
      (λ (x : Media × List Notification).
        Follows (info_at path (node i children next)) (info_at path x.0))
      (ok_inj e3)
      (elim (Bool-cases (str_eq path i.path)) [
        | inl t ↦ rw (point.1, t, info_at) point.0
        | inr t ↦ rw (point.1, t, info_at) deeper
      ])
