-- ===== src/Commands/Listed.antt =====
-- A list of names as it is written, piece by piece.
use dtmd.Common.{
  ◌≡◌, refl, sym, ap, ◌∙◌, Bool, true, false, ◌&&◌, Option, none, some, List, [], ◌∷◌, ◌++◌, map,
  append_assoc, append-nil, All, Bytes, codes,
}
use dtmd.Misc.Types.{success}
use dtmd.Options.Types.{MountOption}
use dtmd.Commands.Message.{print_with_all_checks, more_arguments, line}
use dtmd.Commands.Wire.{Wire, Sent, dprintf, and_then}
use dtmd.Commands.Printed.{Accepts, dprintf-Accepts}
use dtmd.Commands.Invoke.{started, finished}
use dtmd.Commands.Supported.{
  sized, bracketed, write_items, names_of, is_nil, write_lists, open_list, close_list,
}

-- The texts of all writes, one behind the other.
abbrev pub joined : List Bytes → Bytes
joined [] = []
joined (text ∷ texts) = text ++ joined texts

-- The writes for a list of names.
abbrev pub pieces : Bool → List Bytes → List Bytes
pieces first [] = []
pieces true (name ∷ names) = sized name ∷ pieces false names
pieces false (name ∷ names) = codes ", " ∷ sized name ∷ pieces false names

pub write_items-pieces :
    (wire : Wire) (first : Bool) (names sent : List Bytes)
    → Accepts wire
    → write_items wire first names sent ≡ (success, sent ++ pieces first names)
unfolding write_items
write_items-pieces wire first [] sent a = ap (λ s. (success, s)) (sym (append-nil sent))
write_items-pieces wire true (name ∷ names) sent a =
    ap (λ (x : Sent). and_then x (λ s. write_items wire false names s))
      (dprintf-Accepts wire (sized name) sent a)
    ∙ write_items-pieces wire false names (sent ++ sized name ∷ []) a
    ∙ ap (λ s. (success, s)) (append_assoc sent (sized name ∷ []) (pieces false names))
write_items-pieces wire false (name ∷ names) sent a =
    let comma = sent ++ codes ", " ∷ [] in
    ap
      (λ (x : Sent).
        and_then (and_then x (λ s. dprintf wire (sized name) s))
          (λ s. write_items wire false names s))
      (dprintf-Accepts wire (codes ", ") sent a)
    ∙ ap (λ (x : Sent). and_then x (λ s. write_items wire false names s))
        (dprintf-Accepts wire (sized name) comma a)
    ∙ write_items-pieces wire false names (comma ++ sized name ∷ []) a
    ∙ ap (λ s. (success, s))
        (append_assoc comma (sized name ∷ []) (pieces false names)
          ∙ append_assoc sent (codes ", " ∷ []) (sized name ∷ pieces false names))

abbrev pub all_names : List (List MountOption) → List Bytes
all_names [] = []
all_names (options ∷ lists) = names_of options ++ all_names lists

pieces-append :
    (first : Bool) (options : List MountOption) (names : List Bytes)
    → pieces first (names_of options ++ names)
      ≡ pieces first (names_of options) ++ pieces (first && is_nil options) names
pieces-append true [] names = refl
pieces-append false [] names = refl
pieces-append true (o ∷ options) names =
    ap (λ p. sized o.option ∷ p) (pieces-append false options names)
pieces-append false (o ∷ options) names =
    ap (λ p. codes ", " ∷ sized o.option ∷ p) (pieces-append false options names)

pub write_lists-pieces :
    (wire : Wire) (first : Bool) (lists : List (List MountOption)) (sent : List Bytes)
    → Accepts wire
    → write_lists wire first lists sent ≡ (success, sent ++ pieces first (all_names lists))
unfolding write_lists
write_lists-pieces wire first [] sent a = ap (λ s. (success, s)) (sym (append-nil sent))
write_lists-pieces wire first (options ∷ lists) sent a =
    let here = pieces first (names_of options) in
    let left = first && is_nil options in
    ap (λ (x : Sent). and_then x (λ s. write_lists wire left lists s))
      (write_items-pieces wire first (names_of options) sent a)
    ∙ write_lists-pieces wire left lists (sent ++ here) a
    ∙ ap (λ s. (success, s))
        (append_assoc sent here (pieces left (all_names lists))
          ∙ ap (λ p. sent ++ p) (sym (pieces-append first options (all_names lists))))

-- A text that is not empty.
abbrev pub is_full : Bytes → Bool
is_full [] = false
is_full (c ∷ text) = true

sized-print : (text : Bytes) → is_full text ≡ true → print_with_all_checks (some text) ≡ sized text
unfolding print_with_all_checks sized
sized-print [] h = cc
sized-print (c ∷ text) h = refl

joined-append : (a b : List Bytes) → joined (a ++ b) ≡ joined a ++ joined b
joined-append [] b = refl
joined-append (x ∷ a) b =
    ap (λ t. x ++ t) (joined-append a b) ∙ sym (append_assoc x (joined a) (joined b))

more_arguments-joined :
    (names : List Bytes)
    → All (λ n. is_full n ≡ true) names
    → more_arguments (map some names) ≡ joined (pieces false names) ++ codes ")\n"
unfolding more_arguments
more_arguments-joined [] h = refl
more_arguments-joined (name ∷ names) h =
    ap (λ t. b',' ∷ b' ' ∷ (t ++ more_arguments (map some names))) (sized-print name h.0)
    ∙ ap (λ t. b',' ∷ b' ' ∷ (sized name ++ t)) (more_arguments-joined names h.1)
    ∙ ap (λ t. b',' ∷ b' ' ∷ t)
        (sym (append_assoc (sized name) (joined (pieces false names)) (codes ")\n")))

line-joined :
    (title : Bytes) (names : List Bytes)
    → All (λ n. is_full n ≡ true) names
    → line title (map some names) ≡ title ++ (b'(' ∷ (joined (pieces true names) ++ codes ")\n"))
unfolding line
line-joined title [] h = refl
line-joined title (name ∷ names) h =
    append_assoc title (b'(' ∷ print_with_all_checks (some name)) (more_arguments (map some names))
    ∙ ap (λ t. title ++ (b'(' ∷ (t ++ more_arguments (map some names)))) (sized-print name h.0)
    ∙ ap (λ t. title ++ (b'(' ∷ (sized name ++ t))) (more_arguments-joined names h.1)
    ∙ ap (λ t. title ++ (b'(' ∷ t))
        (sym (append_assoc (sized name) (joined (pieces false names)) (codes ")\n")))

abbrev pub arguments : Bytes → Option Bytes → List (Option Bytes)
arguments command none = some command ∷ []
arguments command (some argument) = some command ∷ some argument ∷ []

abbrev pub is_full_option : Option Bytes → Bool
is_full_option none = true
is_full_option (some text) = is_full text

line-bracketed :
    (title command : Bytes) (argument : Option Bytes)
    → is_full command ≡ true
    → is_full_option argument ≡ true
    → line title (arguments command argument) ≡ title ++ bracketed command argument
unfolding line more_arguments bracketed
line-bracketed title command none h k =
    append_assoc title (b'(' ∷ print_with_all_checks (some command)) (codes ")\n")
    ∙ ap (λ t. title ++ (b'(' ∷ (t ++ codes ")\n"))) (sized-print command h)
line-bracketed title command (some argument) h k =
    append_assoc title (b'(' ∷ print_with_all_checks (some command))
      (b',' ∷ b' ' ∷ (print_with_all_checks (some argument) ++ codes ")\n"))
    ∙ ap
        (λ t.
          title
          ++ (b'(' ∷ (t ++ (b',' ∷ b' ' ∷ (print_with_all_checks (some argument) ++ codes ")\n")))))
        (sized-print command h)
    ∙ ap (λ t. title ++ (b'(' ∷ (sized command ++ (b',' ∷ b' ' ∷ (t ++ codes ")\n")))))
        (sized-print argument k)

-- What a listing has written: the line that starts it, the names as one line, and the line that
-- finishes it.
abbrev pub IsListing : Bytes → Option Bytes → Bytes → List Bytes → List Bytes → Sent → Type 0
IsListing command argument title names sent r =
    (texts : List Bytes) × ((r ≡ (success, sent ++ texts))
      × (joined texts
          ≡ line started (arguments command argument)
            ++ (line title (map some names) ++ line finished (arguments command argument))))

module _ (command : Bytes) (argument : Option Bytes) (title : Bytes) (names : List Bytes) where
  abbrev pub listed : List Bytes
  listed =
      open_list command argument title ∷ (pieces true names ++ close_list command argument ∷ [])

  pub listed-joined :
      is_full command ≡ true
      → is_full_option argument ≡ true
      → All (λ n. is_full n ≡ true) names
      → joined listed
        ≡ line started (arguments command argument)
          ++ (line title (map some names) ++ line finished (arguments command argument))
  unfolding open_list close_list
  listed-joined c a h =
      let b = bracketed command argument in
      let items = joined (pieces true names) in
      let end = finished ++ b in
      rw
        (
          line-bracketed started command argument c a,
          line-bracketed finished command argument c a,
          line-joined title names h,
          joined-append (pieces true names) (close_list command argument ∷ []),
        )
        (simp (append_assoc, append-nil))

  pub listed-Sent :
      (wire : Wire) (sent : List Bytes) (items : List Bytes → Sent)
      → Accepts wire
      → ((s : List Bytes) → items s ≡ (success, s ++ pieces true names))
      → and_then
          (and_then (dprintf wire (open_list command argument title) sent) items)
          (λ s. dprintf wire (close_list command argument) s)
        ≡ (success, sent ++ listed)
  listed-Sent wire sent items a h =
      let opened = sent ++ open_list command argument title ∷ [] in
      let end = λ (s : List Bytes). dprintf wire (close_list command argument) s in
      ap (λ (x : Sent). and_then (and_then x items) end)
        (dprintf-Accepts wire (open_list command argument title) sent a)
      ∙ ap (λ (x : Sent). and_then x end) (h opened)
      ∙ dprintf-Accepts wire (close_list command argument) (opened ++ pieces true names) a
      ∙ ap (λ s. (success, s))
          (append_assoc opened (pieces true names) (close_list command argument ∷ [])
            ∙ append_assoc sent (open_list command argument title ∷ [])
                (pieces true names ++ close_list command argument ∷ []))
