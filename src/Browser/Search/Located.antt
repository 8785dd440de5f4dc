-- ===== src/Browser/Search/Located.antt =====
-- Where a listed item stands: the search by the names on its path finds it.
use ohmic_bridge.Prelude.{
  ℕ, ◌+◌, ◌≡◌, refl, ap, ◌∙◌, inl, inr, Bool, true, false, ◌&&◌, ◌||◌, not, ltb, Bool-cases,
  if◌then◌else◌, some, List, [], ◌∷◌, ◌++◌, Text, text_eq, text_eq_iff, is_empty, All, All-append,
  All-map, Exn, Outcome, returned, raised, arith,
}
use ohmic_bridge.Prelude.Texts.{has_char}
use ohmic_bridge.Browser.Tree.{
  Children, no_child, child, max_depth, attribute_or_false, child_path, collect_children,
  collect_loadable,
}
use ohmic_bridge.Browser.Search.{Found, find_by_path}

-- Has one of the children, the deeper ones left aside, this name?
unfoldable pub has_name : Text → Children → Bool
has_name s no_child = false
has_name s (child (raised e) is_loadable is_folder inner rest) = has_name s rest
has_name s (child (returned name) is_loadable is_folder inner rest) =
    text_eq name s || has_name s rest

-- The names that can be read are not empty, have no slash, and differ among the children of an item.
unfoldable pub IsTidy : Children → Type 0
IsTidy no_child = Unit
IsTidy (child (raised e) is_loadable is_folder inner rest) = IsTidy inner × IsTidy rest
IsTidy (child (returned name) is_loadable is_folder inner rest) =
    (is_empty name ≡ false)
    × (has_char b'/' name ≡ false)
    × (has_name name rest ≡ false)
    × IsTidy inner
    × IsTidy rest

-- The path that leads from a prefix over these names.
abbrev pub path_over : Text → List Text → Text
path_over prefix [] = prefix
path_over prefix (s ∷ segments) = path_over (child_path prefix s) segments

-- A listed path is that over some names, the first of them a child's, and the search by these names
-- finds a loadable item at it.
unfoldable pub IsLocated : Text → Children → Text → Type 0
IsLocated prefix children p =
    (s : Text) × (segments : List Text) × (found : Found) × (p ≡ path_over prefix (s ∷ segments))
    × (has_char b'/' s ≡ false)
    × (All (λ t. has_char b'/' t ≡ false) segments)
    × (is_empty s ≡ false)
    × (has_name s children ≡ true)
    × (find_by_path prefix (s ∷ segments) children ≡ some found)
    × (found.path ≡ p)
    × (attribute_or_false found.is_loadable ≡ true)

text_eq_same : (s : Text) → text_eq s s ≡ true
text_eq_same s = (text_eq_iff s s).1 refl

module _ (prefix : Text) (is_loadable is_folder : Outcome Bool) (inner rest : Children) where
  own-IsLocated :
      (name : Text)
      → is_empty name ≡ false
      → has_char b'/' name ≡ false
      → attribute_or_false is_loadable ≡ true
      → IsLocated prefix
          (child (returned name) is_loadable is_folder inner rest)
          (child_path prefix name)
  unfolding IsLocated find_by_path has_name
  own-IsLocated name filled plain loadable = (
    name,
    [],
    record { path = child_path prefix name; is_loadable = is_loadable },
    refl,
    plain,
    tt,
    filled,
    rw (text_eq_same name) refl,
    rw (text_eq_same name) refl,
    refl,
    loadable,
  )

  deeper-IsLocated :
      (name p : Text)
      → is_empty name ≡ false
      → has_char b'/' name ≡ false
      → IsLocated (child_path prefix name) inner p
      → IsLocated prefix (child (returned name) is_loadable is_folder inner rest) p
  unfolding IsLocated find_by_path has_name
  deeper-IsLocated name p filled plain
        (s, segments, found, whole, plain_s, plain_rest, filled_s, named, at, same, loadable) =
      (
        name,
        s ∷ segments,
        found,
        whole,
        plain,
        (plain_s, plain_rest),
        filled,
        rw (text_eq_same name) refl,
        rw (text_eq_same name) at,
        same,
        loadable,
      )

  unnamed-IsLocated :
      (e : Exn) (p : Text)
      → IsLocated prefix rest p
      → IsLocated prefix (child (raised e) is_loadable is_folder inner rest) p
  unfolding IsLocated find_by_path has_name
  unnamed-IsLocated e p h = h

  later-IsLocated :
      (name p : Text)
      → has_name name rest ≡ false
      → IsLocated prefix rest p
      → IsLocated prefix (child (returned name) is_loadable is_folder inner rest) p
  unfolding IsLocated find_by_path has_name
  later-IsLocated name p fresh
        (s, segments, found, whole, plain_s, plain_rest, filled_s, named, at, same, loadable) =
      let other : text_eq name s ≡ false = elim (Bool-cases (text_eq name s)) [
        | inl e ↦
            let named' : has_name name rest ≡ true =
              ap (λ t. has_name t rest) ((text_eq_iff name s).0 e) ∙ named in
            absurd (ground (arith, fresh, named'))
        | inr e ↦ e
      ] in
      (
        s,
        segments,
        found,
        whole,
        plain_s,
        plain_rest,
        filled_s,
        rw other named,
        rw other at,
        same,
        loadable,
      )

module _ (matches : Text → Bool) where
  if-All :
      (P : Text → Type 0) (b : Bool) (paths : List Text)
      → (b ≡ true → All P paths)
      → All P (if b then paths else [])
  if-All P true paths h = h refl
  if-All P false paths h = tt

  collect_children-IsLocated :
      (prefix : Text) (depth : ℕ) (children : Children)
      → IsTidy children
      → All (IsLocated prefix children) (collect_children matches prefix depth children)
  unfolding collect_children IsTidy
  collect_children-IsLocated prefix depth no_child tidy = tt
  collect_children-IsLocated prefix depth (child (raised e) l f inner rest) (tidy_inner, tidy) =
      All-map (IsLocated prefix rest) _ _ (λ p h. unnamed-IsLocated prefix l f inner rest e p h)
        (collect_children-IsLocated prefix depth rest tidy)
  collect_children-IsLocated prefix depth (child (returned name) l f inner rest)
        (filled, plain, fresh, tidy_inner, tidy) =
      let path = child_path prefix name in
      let P : Text → Type 0 = IsLocated prefix (child (returned name) l f inner rest) in
      let lists : Bool = attribute_or_false l && matches path in
      let own : List Text = if lists then path ∷ [] else [] in
      let deeper : List Text = collect_children matches path (depth + 1) inner in
      let descends : Bool = attribute_or_false f && not (ltb max_depth (depth + 1)) in
      let inside : List Text = if descends then deeper else [] in
      let others : List Text = collect_children matches prefix depth rest in
      All-append P (own ++ inside) others
        (All-append P own inside
          (if-All P lists (path ∷ [])
            (λ h. (own-IsLocated prefix l f inner rest name filled plain (ground (arith, h)), tt)))
          (if-All P descends deeper (λ h.
            All-map (IsLocated path inner) P deeper
              (λ p located. deeper-IsLocated prefix l f inner rest name p filled plain located)
              (collect_children-IsLocated path (depth + 1) inner tidy_inner))))
        (All-map (IsLocated prefix rest) P others
          (λ p located. later-IsLocated prefix l f inner rest name p fresh located)
          (collect_children-IsLocated prefix depth rest tidy))

  pub collect_loadable-IsLocated :
      (root : Children) → IsTidy root → All (IsLocated [] root) (collect_loadable matches [] 0 root)
  unfolding collect_loadable
  collect_loadable-IsLocated root tidy = collect_children-IsLocated [] 0 root tidy
