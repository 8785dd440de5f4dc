-- ===== src/Browser/Tree/Under.antt =====
-- The paths that are collected are wanted, and lie under the prefix.
use ohmic_bridge.Prelude.{
  ℕ, ◌+◌, ◌≡◌, refl, ap, ◌∙◌, Bool, true, false, Bool-cases, inl, inr, ◌&&◌, not, ltb,
  if◌then◌else◌, List, [], ◌∷◌, ◌++◌, append_assoc, Text, All, All-append, returned, raised,
}
use ohmic_bridge.Browser.Tree.{
  max_depth, Children, no_child, child, attribute_or_false, child_path, collect_children,
  collect_loadable,
}

module _ (matches : Text → Bool) where
  -- A path that the category wants and that continues the prefix.
  abbrev pub IsWanted : Text → Text → Type 0
  IsWanted prefix path = (matches path ≡ true) × (rest : Text) × (path ≡ prefix ++ rest)

  child_path-under :
      (prefix name : Text) → (rest : Text) × (child_path prefix name ≡ prefix ++ rest)
  child_path-under [] name = (name, refl)
  child_path-under (c ∷ prefix) name = (47 ∷ name, refl)

  All-IsWanted :
      (prefix name : Text) (paths : List Text)
      → All (IsWanted (child_path prefix name)) paths
      → All (IsWanted prefix) paths
  All-IsWanted prefix name [] h = tt
  All-IsWanted prefix name (path ∷ paths) ((wanted, rest, e), h) =
      let (middle, under) = child_path-under prefix name in
      (
        (wanted, middle ++ rest, e ∙ ap (λ p. p ++ rest) under ∙ append_assoc prefix middle rest),
        All-IsWanted prefix name paths h,
      )

  if-All :
      (prefix : Text) (b : Bool) (paths : List Text)
      → All (IsWanted prefix) paths
      → All (IsWanted prefix) (if b then paths else [])
  if-All prefix true paths h = h
  if-All prefix false paths h = tt

  own-All :
      (prefix name : Text) (loadable : Bool)
      → All
          (IsWanted prefix)
          (if loadable && matches (child_path prefix name) then child_path prefix name ∷ [] else [])
  own-All prefix name false = tt
  own-All prefix name true = elim (Bool-cases (matches (child_path prefix name))) [
    | inl wanted ↦
        if-All prefix _ (child_path prefix name ∷ [])
          ((wanted, (child_path-under prefix name).0, (child_path-under prefix name).1), tt)
    | inr refused ↦ rw refused tt
  ]

  collect_children-IsWanted :
      (prefix : Text) (depth : ℕ) (children : Children)
      → All (IsWanted prefix) (collect_children matches prefix depth children)
  unfolding collect_children
  collect_children-IsWanted prefix depth no_child = tt
  collect_children-IsWanted prefix depth (child (raised e) is_loadable is_folder inner rest) =
      collect_children-IsWanted prefix depth rest
  collect_children-IsWanted prefix depth (child (returned name) is_loadable is_folder inner rest) =
      let path = child_path prefix name in
      let own : List Text =
        if attribute_or_false is_loadable && matches path then path ∷ [] else [] in
      let deeper : List Text = collect_children matches path (depth + 1) inner in
      let descends : Bool = attribute_or_false is_folder && not (ltb max_depth (depth + 1)) in
      let inside : List Text = if descends then deeper else [] in
      let others : List Text = collect_children matches prefix depth rest in
      All-append (IsWanted prefix) (own ++ inside) others
        (All-append (IsWanted prefix) own inside
          (own-All prefix name (attribute_or_false is_loadable))
          (if-All prefix descends deeper
            (All-IsWanted prefix name deeper (collect_children-IsWanted path (depth + 1) inner))))
        (collect_children-IsWanted prefix depth rest)

  -- Every path that is collected from a tree under a prefix passes the test of the category and
  -- continues the prefix.
  pub collect_loadable-IsWanted :
      (prefix : Text) (depth : ℕ) (children : Children)
      → All (IsWanted prefix) (collect_loadable matches prefix depth children)
  unfolding collect_loadable
  collect_loadable-IsWanted prefix depth children = keep (ltb max_depth depth)
    where
      keep :
          (b : Bool)
          → All (IsWanted prefix) (if b then [] else collect_children matches prefix depth children)
      keep true = tt
      keep false = collect_children-IsWanted prefix depth children
