-- ===== src/Browser/Items/Reach.antt =====
-- What a category lists can be loaded: the search in all its roots finds an item at each listed path.
use ohmic_bridge.Prelude.{
  ◌≤◌, ◌≡◌, refl, ap, ◌∙◌, ◌⊎◌, inl, inr, true, Bool-cases, Option, none, some, List, [], ◌∷◌, ◌++◌,
  map, length, Text, All, All-append, All-map, All-both, arith,
}
use ohmic_bridge.Prelude.Texts.{has_char}
use ohmic_bridge.Browser.{contains, extend_unique}
use ohmic_bridge.Browser.Tree.{Children, attribute_or_false, collect_loadable}
use ohmic_bridge.Browser.Search.{Found}
use ohmic_bridge.Browser.Search.Located.{IsTidy}
use ohmic_bridge.Browser.Search.Listed.{
  IsFound, IsMade, find_loadable-path, listed-IsFound, listed-IsMade,
}
use ohmic_bridge.Browser.Category.{
  Category, user_library_max_for_live, Attribute, max_for_live_stem, path_matches_category,
}
use ohmic_bridge.Browser.Items.{
  Root, missing, unreadable, root, Browser, attributes_of, extend_unique_max_for_live, passes,
  keep_passing, collected, extend, collect_loop, collect_category_items, find_in, find_loop,
  find_loadable_for_browser_category,
}

module _ (P : Text → Type 0) where
  extend_unique-All :
      (results items : List Text)
      → All P results
      → All P items
      → All P (extend_unique results items)
  unfolding extend_unique
  extend_unique-All results [] h k = h
  extend_unique-All results (item ∷ items) h k = elim (Bool-cases (contains results item)) [
    | inl known ↦ rw known (extend_unique-All results items h k.1)
    | inr fresh ↦ rw fresh (
        extend_unique-All (results ++ item ∷ []) items
          (All-append P results (item ∷ []) h (k.0, tt)) k.1)
  ]

  extend_unique_max_for_live-All :
      (lower : Text → Text) (results items : List Text)
      → All P results
      → All P items
      → All P (extend_unique_max_for_live lower results items)
  unfolding extend_unique_max_for_live
  extend_unique_max_for_live-All lower results [] h k = h
  extend_unique_max_for_live-All lower results (item ∷ items) h k =
      elim (Bool-cases
        (contains (map (max_for_live_stem lower) results) (max_for_live_stem lower item))) [
          | inl known ↦ rw known (extend_unique_max_for_live-All lower results items h k.1)
          | inr fresh ↦ rw fresh (
              extend_unique_max_for_live-All lower (results ++ item ∷ []) items
                (All-append P results (item ∷ []) h (k.0, tt)) k.1)
        ]

module _ (lower : Text → Text) (user_stems installed_stems : List Text) (browser : Browser)
    (category : Category) where
  -- A path stands in the root of an attribute, and passes where it is not the category's own.
  Here : Attribute → Text → Type 0
  Here a p =
      (passes lower user_stems installed_stems category a p ≡ true)
      × (children : Children) × (browser a ≡ root children)
      × IsFound lower (path_matches_category lower user_stems category) children p
      × IsMade lower (path_matches_category lower user_stems category) children p

  Stands : List Attribute → Text → Type 0
  Stands [] p = ⊥
  Stands (a ∷ attributes) p = Here a p ⊎ Stands attributes p

  keep_passing-All :
      (P : Text → Type 0) (a : Attribute) (paths : List Text)
      → All P paths
      → All
          (λ p. P p × (passes lower user_stems installed_stems category a p ≡ true))
          (keep_passing lower user_stems installed_stems category a paths)
  keep_passing-All P a [] h = tt
  keep_passing-All P a (p ∷ paths) h =
      elim (Bool-cases (passes lower user_stems installed_stems category a p)) [
        | inl yes' ↦ rw yes' ((h.0, yes'), keep_passing-All P a paths h.1)
        | inr no' ↦ rw no' (keep_passing-All P a paths h.1)
      ]

  extend-All :
      (P : Text → Type 0) (c : Category) (results items : List Text)
      → All P results
      → All P items
      → All P (extend lower user_stems installed_stems c results items)
  extend-All P user_library_max_for_live = extend_unique_max_for_live-All P lower
  extend-All P Category.max_for_live = extend_unique_max_for_live-All P lower
  extend-All P _ = extend_unique-All P

  find_in-path :
      (p : Text) (r : Root) {found : Found}
      → has_char b'/' p ≡ true
      → ((children : Children)
          → IsMade lower (path_matches_category lower user_stems category) children p)
      → find_in lower user_stems installed_stems category p r ≡ some found
      → found.path ≡ p
  find_in-path p missing slash made h = cc
  find_in-path p unreadable slash made h = cc
  find_in-path p (root children) slash made h =
      find_loadable-path lower (path_matches_category lower user_stems category) children p slash
        (made children) h

  module _
      (tidy : (a : Attribute) (children : Children)
        → browser a ≡ root children
        → IsTidy children) where
    collected-Here :
        (a : Attribute) (r : Root)
        → browser a ≡ r
        → All (Here a) (collected lower user_stems installed_stems category a r)
    unfolding Here
    collected-Here a missing e = tt
    collected-Here a unreadable e = tt
    collected-Here a (root children) e =
        let matches = path_matches_category lower user_stems category in
        let paths = collect_loadable matches [] 0 children in
        All-map _ (Here a) (keep_passing lower user_stems installed_stems category a paths)
          (λ p h. (h.1, children, e, h.0.0, h.0.1))
          (keep_passing-All
            (λ p. IsFound lower matches children p × IsMade lower matches children p) a paths
            (All-both (IsFound lower matches children) (IsMade lower matches children) paths
              (listed-IsFound lower matches children (tidy a children e))
              (listed-IsMade lower matches children (tidy a children e))))

    collect_loop-All :
        (P : Text → Type 0) (attributes : List Attribute) (results : List Text)
        → All (λ a. (p : Text) → Here a p → P p) attributes
        → All P results
        → All P (collect_loop lower user_stems installed_stems browser category attributes results)
    unfolding collect_loop
    collect_loop-All P [] results into h = h
    collect_loop-All P (a ∷ attributes) results into h =
        let items = collected lower user_stems installed_stems category a (browser a) in
        collect_loop-All P attributes
          (extend lower user_stems installed_stems category results items) into.1
          (extend-All P category results items h
            (All-map (Here a) P items into.0 (collected-Here a (browser a) refl)))

    Here-Stands :
        (attributes : List Attribute)
        → All (λ a. (p : Text) → Here a p → Stands attributes p) attributes
    unfolding Stands
    Here-Stands [] = tt
    Here-Stands (a ∷ attributes) = (
      λ p h. inl h,
      All-map _ _ attributes (λ b into p h. inr (into p h)) (Here-Stands attributes),
    )

  -- What the search for a listed path gives, in some of the roots.
  IsReached : List Attribute → Text → Type 0
  IsReached attributes p =
      (found : Found) × (find_loop lower user_stems installed_stems browser category p attributes
        ≡ some found)
      × (found.path ≡ p)
      × (length attributes ≤ 1 → attribute_or_false found.is_loadable ≡ true)

  Here-IsReached :
      (a : Attribute) (attributes : List Attribute) (p : Text)
      → has_char b'/' p ≡ true
      → Here a p
      → IsReached (a ∷ attributes) p
  unfolding Here IsReached find_loop
  Here-IsReached a attributes p slash (pass, children, e, is_found, made) =
      let (found, at, same, loadable) = is_found slash in
      let pass' : passes lower user_stems installed_stems category a found.path ≡ true =
        ap (passes lower user_stems installed_stems category a) same ∙ pass in
      (found, rw (e, at, pass') refl, same, λ h. loadable)

  later-IsReached :
      (a : Attribute) (attributes : List Attribute) (p : Text) (o : Option Found)
      → find_in lower user_stems installed_stems category p (browser a) ≡ o
      → ((found : Found) → o ≡ some found → found.path ≡ p)
      → (1 ≤ length attributes)
      → IsReached attributes p
      → IsReached (a ∷ attributes) p
  unfolding IsReached find_loop
  later-IsReached a attributes p none e path more (found, at, same, loadable) =
      (found, rw e at, same, λ h. absurd (omega (arith, h, more)))
  later-IsReached a attributes p (some f) e path more (found, at, same, loadable) =
      elim (Bool-cases (passes lower user_stems installed_stems category a f.path)) [
        | inl pass ↦ (f, rw (e, pass) refl, path f refl, λ h. absurd (omega (arith, h, more)))
        | inr fails ↦ (found, rw (e, fails) at, same, λ h. absurd (omega (arith, h, more)))
      ]

  Stands-some :
      (attributes : List Attribute) (p : Text) → Stands attributes p → 1 ≤ length attributes
  unfolding Stands
  Stands-some [] p h = absurd h
  Stands-some (a ∷ attributes) p h = omega arith

  Stands-IsMade :
      (attributes : List Attribute) (p : Text) (children : Children)
      → Stands attributes p
      → IsMade lower (path_matches_category lower user_stems category) children p
  unfolding Stands Here
  Stands-IsMade [] p children h = absurd h
  Stands-IsMade (a ∷ attributes) p children (inl (pass, c, e, is_found, made)) = made
  Stands-IsMade (a ∷ attributes) p children (inr h) = Stands-IsMade attributes p children h

  Stands-IsReached :
      (attributes : List Attribute) (p : Text)
      → has_char b'/' p ≡ true
      → Stands attributes p
      → IsReached attributes p
  unfolding Stands
  Stands-IsReached [] p slash h = absurd h
  Stands-IsReached (a ∷ attributes) p slash (inl here) = Here-IsReached a attributes p slash here
  Stands-IsReached (a ∷ attributes) p slash (inr h) =
      later-IsReached a attributes p _ refl
        (λ found at. find_in-path p (browser a) slash (λ c. Stands-IsMade attributes p c h) at)
        (Stands-some attributes p h) (Stands-IsReached attributes p slash h)

  -- If in each root the readable names are not empty, have no slash, and differ among the children of an
  -- item, then for each path with a slash that a category lists, the search for the path in the
  -- category finds an item of that path, which is loadable if the category has one root.
  pub items-IsReached :
      ((a : Attribute) (children : Children) → browser a ≡ root children → IsTidy children)
      → All
          (λ p.
            has_char b'/' p ≡ true
            → (found : Found) × (find_loadable_for_browser_category lower user_stems installed_stems
                  browser category p
                ≡ some found)
              × (found.path ≡ p)
              × (length (attributes_of category) ≤ 1 → attribute_or_false found.is_loadable ≡ true))
          (collect_category_items lower user_stems installed_stems browser category)
  unfolding collect_category_items find_loadable_for_browser_category IsReached
  items-IsReached tidy =
      All-map (Stands (attributes_of category)) _
        (collect_loop lower user_stems installed_stems browser category (attributes_of category) [])
        (λ p h slash. Stands-IsReached (attributes_of category) p slash h)
        (collect_loop-All tidy (Stands (attributes_of category)) (attributes_of category) []
          (Here-Stands tidy (attributes_of category)) tt)
