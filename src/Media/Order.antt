-- ===== src/Media/Order.antt =====
-- Siblings stand in the order of `strcmp`.
use dtmd.Common.{
  true, false, [], ◌∷◌, ◌≡◌, refl, arith, if_both, if_cases, str_eq_iff, Bytes, str_eq,
}
use dtmd.Media.Tree.{MediaInfo, Media, null, node, is_found, str_lt, find_media, at_media}

pub str_lt_asymm : (a b : Bytes) → str_lt a b ≡ true → str_lt b a ≡ false
unfolding str_lt
str_lt_asymm [] [] h = cc
str_lt_asymm [] (y ∷ b) h = refl
str_lt_asymm (x ∷ a) [] h = cc
str_lt_asymm (x ∷ a) (y ∷ b) h = ground (arith, str_lt_asymm a b)

pub str_le_trans : (a b c : Bytes) → str_lt b a ≡ false → str_lt c b ≡ false → str_lt c a ≡ false
unfolding str_lt
str_le_trans [] b [] h k = refl
str_le_trans [] [] (z ∷ c) h k = refl
str_le_trans [] (y ∷ b) (z ∷ c) h k = refl
str_le_trans (x ∷ a) [] c h k = cc
str_le_trans (x ∷ a) (y ∷ b) [] h k = cc
str_le_trans (x ∷ a) (y ∷ b) (z ∷ c) h k = ground (arith, str_le_trans a b c)

-- No path in front of this list is behind its first one.
abbrev pub Follows : Bytes → Media → Type 0
Follows p null = Unit
Follows p (node i children next) = str_lt i.path p ≡ false

-- Every list of siblings is in order.
abbrev pub IsSorted : Media → Type 0
IsSorted null = Unit
IsSorted (node i children next) = Follows i.path next × IsSorted children × IsSorted next

-- What a change of the list at a node of this path has to keep.
pub record KeepsOrder (path : Bytes) (g : Media → Media) : Type 0 where
  pub sorted :
      (i : MediaInfo) (c n : Media)
      → path ≡ i.path
      → IsSorted (node i c n)
      → IsSorted (g (node i c n))
  pub follows :
      (p : Bytes) (i : MediaInfo) (c n : Media)
      → path ≡ i.path
      → IsSorted (node i c n)
      → Follows p (node i c n)
      → Follows p (g (node i c n))

module _ (path : Bytes) {g : Media → Media} (keeps : KeepsOrder path g) where
  at_media-Follows :
      (p : Bytes) (m : Media) → IsSorted m → Follows p m → Follows p (at_media path g m)
  unfolding at_media
  at_media-Follows p null s h = tt
  at_media-Follows p (node i c n) s h =
      if_cases (Follows p) (str_eq path i.path)
        (λ e. keeps.follows p i c n ((str_eq_iff path i.path).0 e) s h)
        (λ _. if_both (Follows p) (is_found (find_media path i.path c)) h h)

  pub at_media-IsSorted : (m : Media) → IsSorted m → IsSorted (at_media path g m)
  unfolding at_media
  at_media-IsSorted null s = tt
  at_media-IsSorted (node i c n) s =
      if_cases IsSorted (str_eq path i.path)
        (λ e. keeps.sorted i c n ((str_eq_iff path i.path).0 e) s)
        (λ _.
          if_both IsSorted (is_found (find_media path i.path c)) (s.0, at_media-IsSorted c s.1, s.2)
            (at_media-Follows i.path n s.2 s.0, s.1, at_media-IsSorted n s.2))
