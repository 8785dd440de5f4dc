-- ===== src/Browser/Search/First.antt =====
-- A name without a slash is searched for as in the listing: the first item of that name is found.
use ohmic_bridge.Prelude.{
  ℕ, ◌+◌, ◌≡◌, refl, sym, ap, ◌∙◌, ap₂, inl, inr, Bool, true, false, ◌&&◌, not, ltb, Bool-cases,
  if◌then◌else◌, Option, none, some, List, [], ◌∷◌, ◌++◌, Text, text_eq, All, subst, returned,
  raised, arith,
}
use ohmic_bridge.Prelude.Texts.{has_char, leaf, leaf-append, leaf_plain}
use ohmic_bridge.Browser.Tree.{
  Children, no_child, child, max_depth, attribute_or_false, child_path, collect_children,
  collect_loadable,
}
use ohmic_bridge.Browser.Tree.Under.{IsWanted, collect_loadable-IsWanted}
use ohmic_bridge.Browser.Search.{Found, find_by_name, or_else, if_matches, find_loadable_in_root}

-- The first text that passes a test.
abbrev pub first : (Text → Bool) → List Text → Option Text
first test [] = none
first test (x ∷ xs) = let later = first test xs in if test x then some x else later

first-append :
    (test : Text → Bool) (xs ys : List Text)
    → first test (xs ++ ys) ≡ or_else (first test xs) (first test ys)
first-append test [] ys = refl
first-append test (x ∷ xs) ys = elim (Bool-cases (test x)) [
  | inl yes' ↦ rw yes' refl
  | inr no' ↦ rw no' (first-append test xs ys)
]

first-All :
    (P : Text → Type 0) (test : Text → Bool) (xs : List Text) {x : Text}
    → All P xs
    → first test xs ≡ some x
    → P x
first-All P test [] h e = cc
first-All P test (y ∷ ys) {x} h e = elim (Bool-cases (test y)) [
  | inl passes ↦ subst P (ground (arith, rw passes at e)) h.0
  | inr fails ↦ first-All P test ys h.1 (rw fails at e)
]

-- No readable name has a slash.
unfoldable pub HasPlainNames : Children → Type 0
HasPlainNames no_child = Unit
HasPlainNames (child (raised e) is_loadable is_folder inner rest) =
    HasPlainNames inner × HasPlainNames rest
HasPlainNames (child (returned name) is_loadable is_folder inner rest) =
    (has_char b'/' name ≡ false) × HasPlainNames inner × HasPlainNames rest

abbrev pub found_path : Option Found → Option Text
found_path none = none
found_path (some found) = some found.path

leaf-child_path :
    (prefix name : Text) → has_char b'/' name ≡ false → leaf (child_path prefix name) ≡ name
leaf-child_path [] name plain = leaf_plain name plain
leaf-child_path (c ∷ prefix) name plain = leaf-append (c ∷ prefix) name plain

found_path-or_else :
    (a b : Option Found) → found_path (or_else a b) ≡ or_else (found_path a) (found_path b)
found_path-or_else none b = refl
found_path-or_else (some a) b = refl

module _ (lower : Text → Text) (matches : Text → Bool) (query : Text) where
  -- Is this the path of an item of the name, letter case aside?
  abbrev pub is_named : Text → Bool
  is_named p = text_eq (lower (leaf p)) (lower query)

  if-first :
      (b : Bool) (paths : List Text)
      → first is_named (if b then paths else []) ≡ (if b then first is_named paths else none)
  if-first true paths = refl
  if-first false paths = refl

  if-found_path :
      (b : Bool) (a : Option Found)
      → found_path (if b then a else none) ≡ (if b then found_path a else none)
  if-found_path true a = refl
  if-found_path false a = refl

  kept_path :
      (o : Option Found)
      → ((p : Text) → found_path o ≡ some p → matches p ≡ true)
      → found_path (if_matches matches o) ≡ found_path o
  unfolding if_matches
  kept_path none h = refl
  kept_path (some found) h = rw (h found.path refl) refl

  -- What follows an item that is not taken.
  others-first :
      (descends : Bool) (inside later : Option Found) (inside_paths others : List Text)
      → found_path inside ≡ first is_named inside_paths
      → found_path later ≡ first is_named others
      → found_path (or_else (if descends then inside else none) later)
        ≡ first is_named ((if descends then inside_paths else []) ++ others)
  others-first false inside later inside_paths others e1 e2 = e2
  others-first true inside later inside_paths others e1 e2 =
      found_path-or_else inside later
      ∙ ap₂ or_else e1 e2
      ∙ sym (first-append is_named inside_paths others)

  -- One round of the loop, once the rest of it is known.
  round :
      (path : Text) (found : Found) (l n m descends : Bool) (inside later : Option Found)
      (inside_paths others : List Text)
      → found.path ≡ path
      → is_named path ≡ n
      → found_path inside ≡ first is_named inside_paths
      → found_path later ≡ first is_named others
      → found_path
          (if l && n && m then some found else or_else (if descends then inside else none) later)
        ≡ first is_named (
            (if l && m then path ∷ [] else []) ++ (if descends then inside_paths else []) ++ others)
  round path found true true true descends inside later ips others e n e1 e2 = rw (n, e) refl
  round path found true false true descends inside later ips others e n e1 e2 =
      rw n (others-first descends inside later ips others e1 e2)
  round path found true true false descends inside later ips others e n e1 e2 =
      others-first descends inside later ips others e1 e2
  round path found true false false descends inside later ips others e n e1 e2 =
      others-first descends inside later ips others e1 e2
  round path found false true m descends inside later ips others e n e1 e2 =
      others-first descends inside later ips others e1 e2
  round path found false false m descends inside later ips others e n e1 e2 =
      others-first descends inside later ips others e1 e2

  find_by_name-first :
      (prefix : Text) (depth : ℕ) (children : Children)
      → HasPlainNames children
      → found_path (find_by_name lower matches query prefix depth children)
        ≡ first is_named (collect_children matches prefix depth children)
  unfolding find_by_name collect_children HasPlainNames
  find_by_name-first prefix depth no_child plain = refl
  find_by_name-first prefix depth (child (raised e) l f inner rest) (plain_inner, plain) =
      find_by_name-first prefix depth rest plain
  find_by_name-first prefix depth (child (returned name) l f inner rest)
        (plain_name, plain_inner, plain) =
      round (child_path prefix name) (record { path = child_path prefix name; is_loadable = l })
        (attribute_or_false l) (text_eq (lower name) (lower query))
        (matches (child_path prefix name)) (attribute_or_false f && not (ltb max_depth (depth + 1)))
        (find_by_name lower matches query (child_path prefix name) (depth + 1) inner)
        (find_by_name lower matches query prefix depth rest)
        (collect_children matches (child_path prefix name) (depth + 1) inner)
        (collect_children matches prefix depth rest) refl
        (ap (λ t. text_eq (lower t) (lower query)) (leaf-child_path prefix name plain_name))
        (find_by_name-first (child_path prefix name) (depth + 1) inner plain_inner)
        (find_by_name-first prefix depth rest plain)

  -- A query without a slash, in a tree whose readable names have none: the search finds the first path
  -- of the listing whose last name is the query, letter case aside, and nothing if there is none.
  pub find_loadable-first :
      (root : Children)
      → HasPlainNames root
      → has_char b'/' query ≡ false
      → found_path (find_loadable_in_root lower matches query root)
        ≡ first is_named (collect_loadable matches [] 0 root)
  unfolding find_loadable_in_root collect_loadable
  find_loadable-first root plain no_slash =
      let same = find_by_name-first [] 0 root plain in
      rw no_slash (
        kept_path (find_by_name lower matches query [] 0 root) (λ p at.
          (first-All (IsWanted matches []) is_named (collect_children matches [] 0 root)
            (collect_loadable-IsWanted matches [] 0 root) (sym same ∙ at)).0)
        ∙ same)
