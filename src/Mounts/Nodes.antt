-- ===== src/Mounts/Nodes.antt =====
-- The node that a path leads to, and what a change of one node does to the others.
use dtmd.Common.{
  ◌≡◌, ◌≢◌, refl, sym, ap, subst, ◌∙◌, true, false, Option, none, some, inl, inr, Bool-cases,
  Option-cases, if_cases, if_both, if◌then◌else◌, Bytes, str_eq, str_eq_iff, str_eq_refl, some_inj,
}
use dtmd.Media.Tree.{MediaInfo, Media, null, node, Found, found_or, is_found, find_media, at_media}
use dtmd.Mounts.Table.{set_node}

abbrev pub info_of : Option Found → Option MediaInfo
info_of none = none
info_of (some f) = some f.info

abbrev pub first_of : Option MediaInfo → Option MediaInfo → Option MediaInfo
first_of none o = o
first_of (some i) o = some i

-- The node that `dtmd_find_media` finds.
unfoldable pub info_at : Bytes → Media → Option MediaInfo
info_at path null = none
info_at path (node i children next) =
    let below = info_at path children in
    let behind = info_at path next in if str_eq path i.path then some i else first_of below behind

info_of-found_or : (a b : Option Found) → info_of (found_or a b) ≡ first_of (info_of a) (info_of b)
info_of-found_or none b = refl
info_of-found_or (some f) b = refl

pub find_media-info_at :
    (path parent : Bytes) (m : Media) → info_of (find_media path parent m) ≡ info_at path m
unfolding find_media info_at
find_media-info_at path parent null = refl
find_media-info_at path parent (node i children next) = elim (Bool-cases (str_eq path i.path)) [
  | inl e ↦ rw (e, find_media, info_at)
  | inr e ↦
      rw (e, find_media, info_at)
        (info_of-found_or (find_media path i.path children) (find_media path parent next)
          ∙ ap (λ o. first_of o (info_of (find_media path parent next)))
              (find_media-info_at path i.path children)
          ∙ ap (first_of (info_at path children)) (find_media-info_at path parent next))
]

pub is_found-none :
    (path parent : Bytes) (m : Media)
    → is_found (find_media path parent m) ≡ false
    → info_at path m ≡ none
is_found-none path parent m h = elim (Option-cases (find_media path parent m)) [
  | inl n ↦ sym (find_media-info_at path parent m) ∙ ap info_of n
  | inr s ↦ cc (rw s.1 at h)
]

pub is_found-some :
    (path parent : Bytes) (m : Media)
    → is_found (find_media path parent m) ≡ true
    → info_at path m ≢ none
is_found-some path parent m h = λ e. elim (Option-cases (find_media path parent m)) [
  | inl n ↦ cc (rw n at h)
  | inr s ↦ let found = find_media-info_at path parent m ∙ e in cc (rw s.1 at found)
]

-- A change of the node at `at`, which keeps its path.
module _ (at : Bytes) (new : MediaInfo) (same : new.path ≡ at) where
  pub info_at-other :
      (path : Bytes) (m : Media)
      → str_eq path at ≡ false
      → info_at path (at_media at (set_node new) m) ≡ info_at path m
  unfolding info_at at_media set_node
  info_at-other path null e = refl
  info_at-other path (node i children next) e = elim (Bool-cases (str_eq at i.path)) [
    | inl t ↦
        let here = (str_eq_iff at i.path).0 t in
        rw (t, same, ← here, e, info_at, at_media, set_node) refl
    | inr t ↦ elim (Bool-cases (is_found (find_media at i.path children))) [
      | inl f ↦
          rw (t, f, at_media)
            (ap
              (λ (o : Option MediaInfo).
                if str_eq path i.path then some i else first_of o (info_at path next))
              (info_at-other path children e))
      | inr f ↦
          rw (t, f, at_media)
            (ap
              (λ (o : Option MediaInfo).
                if str_eq path i.path then some i else first_of (info_at path children) o)
              (info_at-other path next e))
    ]
  ]

  beyond :
      (i : MediaInfo) (children next : Media)
      → str_eq at i.path ≡ false
      → info_at at (node i children next) ≡ first_of (info_at at children) (info_at at next)
  unfolding info_at
  beyond i children next t = rw (t, info_at) refl

  pub info_at-same :
      (m : Media) → info_at at m ≢ none → info_at at (at_media at (set_node new) m) ≡ some new
  unfolding info_at at_media set_node
  info_at-same null h = absurd (h refl)
  info_at-same (node i children next) h = elim (Bool-cases (str_eq at i.path)) [
    | inl t ↦ rw (t, same, str_eq_refl at, info_at, at_media, set_node) refl
    | inr t ↦ elim (Bool-cases (is_found (find_media at i.path children))) [
      | inl f ↦
          rw (t, f, at_media)
            (beyond i (at_media at (set_node new) children) next t
              ∙ ap (λ o. first_of o (info_at at next))
                  (info_at-same children (is_found-some at i.path children f)))
      | inr f ↦
          let missing = is_found-none at i.path children f in
          let h' : info_at at next ≢ none = λ e.
            h (beyond i children next t ∙ ap (λ o. first_of o (info_at at next)) missing ∙ e) in
          rw (t, f, at_media)
            (beyond i children (at_media at (set_node new) next) t
              ∙ ap (λ o. first_of o (info_at at (at_media at (set_node new) next))) missing
              ∙ info_at-same next h')
    ]
  ]

-- What holds of every node.
abbrev pub AllNodes {ℓ} : (MediaInfo → Type ℓ) → Media → Type ℓ
AllNodes P null = Unit
AllNodes P (node i children next) = P i × AllNodes P children × AllNodes P next

module _ {ℓ} (P : MediaInfo → Type ℓ) where
  pub AllNodes-info_at :
      (path : Bytes) (m : Media) (i : MediaInfo) → AllNodes P m → info_at path m ≡ some i → P i
  unfolding info_at
  AllNodes-info_at path null i h = λ e. cc
  AllNodes-info_at path (node j children next) i h =
      if_cases (λ (o : Option MediaInfo). o ≡ some i → P i) (str_eq path j.path)
        (λ t e. subst P (some_inj e) h.0)
        (λ t. elim (Option-cases (info_at path children)) [
          | inl n ↦ rw n (λ e. AllNodes-info_at path next i h.2 e)
          | inr s ↦ rw s.1 (λ e. AllNodes-info_at path children i h.1 (s.1 ∙ e))
        ])

  pub at_media-AllNodes :
      (at : Bytes) (new : MediaInfo) (m : Media)
      → AllNodes P m
      → P new
      → AllNodes P (at_media at (set_node new) m)
  unfolding at_media set_node
  at_media-AllNodes at new null h p = tt
  at_media-AllNodes at new (node i children next) h p =
      if_both (AllNodes P) (str_eq at i.path) (p, h.1, h.2)
        (if_both (AllNodes P) (is_found (find_media at i.path children))
          (h.0, at_media-AllNodes at new children h.1 p, h.2)
          (h.0, h.1, at_media-AllNodes at new next h.2 p))
