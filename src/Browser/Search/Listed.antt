-- ===== src/Browser/Search/Listed.antt =====
-- What is listed is found: the path of a listed item leads the search to it.
use ohmic_bridge.Prelude.{
  ℕ, ◌≡◌, refl, sym, ap, ◌∙◌, inl, inr, Bool, true, false, Bool-cases, Option, none, some, List, [],
  ◌∷◌, ◌++◌, append_assoc, append-nil, Text, text_eq, text_eq_iff, is_empty, All, All-map, All-both,
  returned, raised, arith,
}
use ohmic_bridge.Prelude.Texts.{has_char, split, split-append, split_plain}
use ohmic_bridge.Browser.Tree.{
  Children, no_child, child, attribute_or_false, child_path, collect_loadable,
}
use ohmic_bridge.Browser.Tree.Under.{collect_loadable-IsWanted}
use ohmic_bridge.Browser.Search.Located.{IsTidy, path_over, IsLocated, collect_loadable-IsLocated}
use ohmic_bridge.Browser.Search.{Found, find_by_path, if_matches, find_loadable_in_root}

split-path_over :
    (c : ℕ) (prefix : Text) (segments : List Text)
    → All (λ t. has_char b'/' t ≡ false) segments
    → split b'/' (path_over (c ∷ prefix) segments) ≡ split b'/' (c ∷ prefix) ++ segments
split-path_over c prefix [] plain = sym (append-nil (split b'/' (c ∷ prefix)))
split-path_over c prefix (s ∷ segments) (plain_s, plain) =
    split-path_over c (prefix ++ b'/' ∷ s) segments plain
    ∙ ap (λ l. l ++ segments)
        (split-append b'/' (c ∷ prefix) s
          ∙ ap (λ l. split b'/' (c ∷ prefix) ++ l) (split_plain b'/' s plain_s))
    ∙ append_assoc (split b'/' (c ∷ prefix)) (s ∷ []) segments

split_path :
    (s : Text) (segments : List Text)
    → is_empty s ≡ false
    → has_char b'/' s ≡ false
    → All (λ t. has_char b'/' t ≡ false) segments
    → split b'/' (path_over [] (s ∷ segments)) ≡ s ∷ segments
split_path [] segments filled plain_s plain = cc
split_path (c ∷ s) segments filled plain_s plain =
    split-path_over c s segments plain ∙ ap (λ l. l ++ segments) (split_plain b'/' (c ∷ s) plain_s)

find_by_path-path :
    (prefix : Text) (segments : List Text) (children : Children) {found : Found}
    → find_by_path prefix segments children ≡ some found
    → found.path ≡ path_over prefix segments
unfolding find_by_path
find_by_path-path prefix [] children h = cc
find_by_path-path prefix (s ∷ segments) no_child h = cc
find_by_path-path prefix (s ∷ segments) (child (raised e) l f inner rest) h =
    find_by_path-path prefix (s ∷ segments) rest h
find_by_path-path prefix (s ∷ []) (child (returned name) l f inner rest) h =
    elim (Bool-cases (text_eq name s)) [
      | inl same ↦
          ground (arith, rw same at h, ap (child_path prefix) ((text_eq_iff name s).0 same))
      | inr other ↦ find_by_path-path prefix (s ∷ []) rest (rw other at h)
    ]
find_by_path-path prefix (s ∷ t ∷ segments) (child (returned name) l f inner rest) h =
    elim (Bool-cases (text_eq name s)) [
      | inl same ↦
          find_by_path-path (child_path prefix name) (t ∷ segments) inner (rw same at h)
          ∙ ap (λ n. path_over (child_path prefix n) (t ∷ segments)) ((text_eq_iff name s).0 same)
      | inr other ↦ find_by_path-path prefix (s ∷ t ∷ segments) rest (rw other at h)
    ]

if_matches-eq-some :
    (matches : Text → Bool) (o : Option Found) {found : Found}
    → if_matches matches o ≡ some found
    → o ≡ some found
unfolding if_matches
if_matches-eq-some matches none h = cc
if_matches-eq-some matches (some f) h = elim (Bool-cases (matches f.path)) [
  | inl kept ↦ rw kept at h
  | inr dropped ↦ cc (rw dropped at h)
]

module _ (lower : Text → Text) (matches : Text → Bool) (root : Children) where
  -- The search for the path finds a loadable item at it.
  abbrev pub IsFound : Text → Type 0
  IsFound p =
      has_char b'/' p ≡ true
      → (found : Found) × (find_loadable_in_root lower matches p root ≡ some found)
        × (found.path ≡ p)
        × (attribute_or_false found.is_loadable ≡ true)

  -- The path is made of the parts between its slashes.
  abbrev pub IsMade : Text → Type 0
  IsMade p = path_over [] (split b'/' p) ≡ p

  located-IsMade : (p : Text) → IsLocated [] root p → IsMade p
  unfolding IsLocated
  located-IsMade p (s, segments, found, whole, plain_s, plain, filled, named, at, same, loadable) =
      let parts : split b'/' p ≡ s ∷ segments =
        ap (split b'/') whole ∙ split_path s segments filled plain_s plain in
      ap (path_over []) parts ∙ sym whole

  -- What the search for a path with a slash finds has that path.
  pub find_loadable-path :
      (p : Text) {found : Found}
      → has_char b'/' p ≡ true
      → IsMade p
      → find_loadable_in_root lower matches p root ≡ some found
      → found.path ≡ p
  unfolding find_loadable_in_root
  find_loadable-path p slash made h =
      find_by_path-path [] (split b'/' p) root
        (if_matches-eq-some matches (find_by_path [] (split b'/' p) root) (rw slash at h))
      ∙ made

  located-IsFound : (p : Text) → (matches p ≡ true) × IsLocated [] root p → IsFound p
  unfolding IsLocated find_loadable_in_root if_matches
  located-IsFound p
        (wanted, (s, segments, found, whole, plain_s, plain, filled, named, at, same, loadable))
        slash =
      let parts : split b'/' p ≡ s ∷ segments =
        ap (split b'/') whole ∙ split_path s segments filled plain_s plain in
      let kept : matches found.path ≡ true = ap matches same ∙ wanted in
      (found, rw (slash, parts, at, kept) refl, same, loadable)

  -- In a tree whose readable names are not empty, have no slash, and differ among the children of an
  -- item, each path with a slash that is listed for a category leads the search for an item of the
  -- category to a loadable item at that path.
  pub listed-IsFound : IsTidy root → All IsFound (collect_loadable matches [] 0 root)
  listed-IsFound tidy = All-map _ IsFound (collect_loadable matches [] 0 root) located-IsFound (
      All-both (λ p. matches p ≡ true) (IsLocated [] root) (collect_loadable matches [] 0 root)
        (All-map _ (λ p. matches p ≡ true) (collect_loadable matches [] 0 root) (λ p h. h.0)
          (collect_loadable-IsWanted matches [] 0 root))
        (collect_loadable-IsLocated matches root tidy))

  pub listed-IsMade : IsTidy root → All IsMade (collect_loadable matches [] 0 root)
  listed-IsMade tidy =
      All-map (IsLocated [] root) IsMade (collect_loadable matches [] 0 root) located-IsMade
        (collect_loadable-IsLocated matches root tidy)
