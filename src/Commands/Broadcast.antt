-- ===== src/Commands/Broadcast.antt =====
-- Each notification reaches each client.
use dtmd.Common.{
  ◌≡◌, refl, sym, ap, ◌∙◌, none, some, List, [], ◌∷◌, ◌++◌, append-nil, append_assoc, Option-cases,
  inl, inr, All, map, Bytes, codes,
}
use dtmd.Lists.Device.{
  Device, Notification, device_added, device_changed, device_removed, device_mounted,
  device_unmounted,
}
use dtmd.Commands.Message.{line, device_arguments}
use dtmd.Commands.Wire.{Wire, Sent}
use dtmd.Commands.Listing.{print_removable_device_common}
use dtmd.Commands.Notify.{
  Stream, device_info, removed_line, mounted_line, unmounted_line, notify_client, notify,
  notify_all,
}
use dtmd.Commands.Printed.{Accepts, dprintf-Accepts}

abbrev pub device_lines : Bytes → Device → List Bytes
device_lines name d = elim (device_arguments d.parent_path (device_info d)) [
  | none ↦ []
  | some arguments ↦ line name arguments ∷ []
]

-- The line of a notification; there is none for a device of unknown type.
abbrev pub note_lines : Notification → List Bytes
note_lines (device_added d) = device_lines (codes "removable_device_added") d
note_lines (device_changed d) = device_lines (codes "removable_device_changed") d
note_lines (device_removed path) = removed_line path ∷ []
note_lines (device_mounted path point opts) = mounted_line path point opts ∷ []
note_lines (device_unmounted path point) = unmounted_line path point ∷ []

abbrev pub all_lines : List Notification → List Bytes
all_lines [] = []
all_lines (note ∷ notes) = note_lines note ++ all_lines notes

-- A client that has got the lines too.
abbrev pub told : List Bytes → Stream → Stream
told lines s = record s { sent = s.sent ++ lines }

print_device-lines :
    (wire : Wire) (name : Bytes) (d : Device) (sent : List Bytes)
    → Accepts wire
    → (print_removable_device_common wire name d.parent_path (device_info d) sent).1
      ≡ sent ++ device_lines name d
unfolding print_removable_device_common
print_device-lines wire name d sent a =
    elim (Option-cases (device_arguments d.parent_path (device_info d))) [
      | inl n ↦ rw (n, print_removable_device_common, device_lines) (sym (append-nil sent))
      | inr s ↦
          rw (s.1, print_removable_device_common, device_lines)
            (ap (λ (x : Sent). x.1) (dprintf-Accepts wire (line name s.0) sent a))
    ]

notify_client-lines :
    (note : Notification) (wire : Wire) (sent : List Bytes)
    → Accepts wire
    → notify_client note wire sent ≡ sent ++ note_lines note
unfolding notify_client
notify_client-lines (device_added d) wire sent a =
    print_device-lines wire (codes "removable_device_added") d sent a
notify_client-lines (device_changed d) wire sent a =
    print_device-lines wire (codes "removable_device_changed") d sent a
notify_client-lines (device_removed path) wire sent a =
    ap (λ (x : Sent). x.1) (dprintf-Accepts wire (removed_line path) sent a)
notify_client-lines (device_mounted path point opts) wire sent a =
    ap (λ (x : Sent). x.1) (dprintf-Accepts wire (mounted_line path point opts) sent a)
notify_client-lines (device_unmounted path point) wire sent a =
    ap (λ (x : Sent). x.1) (dprintf-Accepts wire (unmounted_line path point) sent a)

abbrev pub AllAccept : List Stream → Type 0
AllAccept streams = All (λ s. Accepts s.wire) streams

notify-told :
    (note : Notification) (streams : List Stream)
    → AllAccept streams
    → notify note streams ≡ map (told (note_lines note)) streams
unfolding notify
notify-told note [] a = refl
notify-told note (s ∷ streams) a =
    ap (λ l. record s { sent = l } ∷ notify note streams)
      (notify_client-lines note s.wire s.sent a.0)
    ∙ ap (λ r. told (note_lines note) s ∷ r) (notify-told note streams a.1)

told-AllAccept :
    (lines : List Bytes) (streams : List Stream)
    → AllAccept streams
    → AllAccept (map (told lines) streams)
told-AllAccept lines [] a = tt
told-AllAccept lines (s ∷ streams) a = (a.0, told-AllAccept lines streams a.1)

told-append :
    (first second : List Bytes) (streams : List Stream)
    → map (told second) (map (told first) streams) ≡ map (told (first ++ second)) streams
told-append first second [] = refl
told-append first second (s ∷ streams) =
    ap (λ l. record s { sent = l } ∷ map (told second) (map (told first) streams))
      (append_assoc s.sent first second)
    ∙ ap (λ r. told (first ++ second) s ∷ r) (told-append first second streams)

told-nil : (streams : List Stream) → streams ≡ map (told []) streams
told-nil [] = refl
told-nil (s ∷ streams) =
    ap (λ l. record s { sent = l } ∷ streams) (sym (append-nil s.sent))
    ∙ ap (λ r. told [] s ∷ r) (told-nil streams)

-- Where every write is accepted, each client gets the lines of all notifications of an operation,
-- once each and in their order, and nothing else.
pub notify_all-told :
    (notes : List Notification) (streams : List Stream)
    → AllAccept streams
    → notify_all notes streams ≡ map (told (all_lines notes)) streams
unfolding notify_all
notify_all-told [] streams a = told-nil streams
notify_all-told (note ∷ notes) streams a =
    ap (notify_all notes) (notify-told note streams a)
    ∙ notify_all-told notes (map (told (note_lines note)) streams)
        (told-AllAccept (note_lines note) streams a)
    ∙ told-append (note_lines note) (all_lines notes) streams
