-- ===== src/Mounting/Sweep.antt =====
-- Unmounting all devices.
use dtmd.Common.{◌≡◌, refl, sym, ap, ◌∙◌, false, List, [], ◌∷◌, ◌++◌, append_assoc, subst, Bytes}
use dtmd.Misc.Types.{success, is_fatal_error}
use dtmd.Media.Tree.{MediaInfo, Media, null, node}
use dtmd.Mounts.Nodes.{AllNodes}
use dtmd.Mounting.System.{System, SystemCall}
use dtmd.Mounting.Unmount.{Swept, go_on, unmount_node, unmount_siblings, invoke_unmount_all}
use dtmd.Mounting.Unmounting.{Unmounting, IsReadable, unmount_node-Unmounting}

-- The devices with those below each in front of it.
abbrev pub below_first : Media → List MediaInfo
below_first null = []
below_first (node i children next) = below_first children ++ (i ∷ below_first next)

-- The calls unmount one device of a list after the other.
abbrev pub UnmountsEach : (Bytes → System) → List MediaInfo → List SystemCall → Type 0
UnmountsEach systems [] calls = calls ≡ []
UnmountsEach systems (i ∷ infos) calls =
    (first : List SystemCall) × (rest : List SystemCall) × (calls ≡ first ++ rest)
    × Unmounting (systems i.path) i first
    × UnmountsEach systems infos rest

UnmountsEach-append :
    (systems : Bytes → System) (a b : List MediaInfo) (calls more : List SystemCall)
    → UnmountsEach systems a calls
    → UnmountsEach systems b more
    → UnmountsEach systems (a ++ b) (calls ++ more)
UnmountsEach-append systems [] b calls more h k = rw h k
UnmountsEach-append systems (i ∷ a) b calls more (first, rest, e, u, h) k = (
  first,
  rest ++ more,
  ap (λ c. c ++ more) e ∙ append_assoc first rest more,
  u,
  UnmountsEach-append systems a b rest more h k,
)

go_on-next :
    (first rest : Swept)
    → is_fatal_error first.0 ≡ false
    → go_on first rest ≡ (rest.0, first.1 ++ rest.1)
go_on-next (rc, calls) rest h = rw h refl

-- What is left of a list of siblings has been unmounted.
abbrev Sweeps : (Bytes → System) → Media → Swept → Type 0
Sweeps systems m s = (s.0 ≡ success) × UnmountsEach systems (below_first m) s.1

unmount_siblings-Sweeps :
    (systems : Bytes → System) (m : Media)
    → AllNodes (λ i. IsReadable (systems i.path)) m
    → Sweeps systems m (unmount_siblings systems m)
unfolding unmount_siblings
unmount_siblings-Sweeps systems null h = (refl, refl)
unmount_siblings-Sweeps systems (node i children next) h =
    let below = unmount_siblings systems children in
    let here = unmount_node systems i in
    let rest = unmount_siblings systems next in
    let below_swept = unmount_siblings-Sweeps systems children h.1 in
    let unmounting = unmount_node-Unmounting systems i h.0 in
    let rest_swept = unmount_siblings-Sweeps systems next h.2 in
    let all =
      go_on-next below (go_on here rest) (ap is_fatal_error below_swept.0)
      ∙ ap (λ (s : Swept). (s.0, below.1 ++ s.1)) (go_on-next here rest unmounting.0) in
    subst (Sweeps systems (node i children next)) (sym all) (
      rest_swept.0,
      UnmountsEach-append systems (below_first children) (i ∷ below_first next) below.1
          (here.1 ++ rest.1) below_swept.1 (here.1, rest.1, refl, unmounting.1, rest_swept.1),
    )

-- If there is memory for the commands and the table of mounts can be read, `invoke_unmount_all`
-- goes through all devices, those below a device before the device itself, makes for each the
-- calls that unmount it, and succeeds, whether or not the unmounting of a device fails. A mounted
-- device of a known file system is unmounted by running the line `umount -t NAME "PLACE"` if the
-- file system has an external name, and else by `umount` if the table has the place exactly once;
-- if that succeeds and leaves the directory empty, the directory is removed. For any other device
-- nothing is called.
pub invoke_unmount_all-all :
    (systems : Bytes → System) (root : Media)
    → AllNodes (λ i. IsReadable (systems i.path)) root
    → ((invoke_unmount_all systems root).0 ≡ success)
      × UnmountsEach systems (below_first root) (invoke_unmount_all systems root).1
unfolding invoke_unmount_all
invoke_unmount_all-all systems root h = unmount_siblings-Sweeps systems root h
