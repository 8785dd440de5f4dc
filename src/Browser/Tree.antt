-- ===== src/Browser/Tree.antt =====
-- `_collect_loadable` of abletonosc/browser.py: the paths of the loadable items of a tree of the browser.
-- A category is the test `_path_matches_category` of a path.
pub mod Under
mod Examples
use ohmic_bridge.Prelude.{
  ℕ, ◌+◌, Bool, true, false, ◌&&◌, not, ltb, if◌then◌else◌, List, [], ◌∷◌, ◌++◌, Text, is_empty,
  Outcome, returned, raised,
}

-- `MAX_DEPTH`
abbrev pub max_depth : ℕ
max_depth = 5

-- What `_get_children` gives of an item: its children in their order, each with what reading its name,
-- `is_loadable` and `is_folder` gives, and with its own children.
pub data Children : Type 0 where
  no_child : Children
  child :
      (name : Outcome Text) (is_loadable is_folder : Outcome Bool) → Children → Children → Children

-- An attribute that cannot be read is false.
abbrev pub attribute_or_false : Outcome Bool → Bool
attribute_or_false (returned b) = b
attribute_or_false (raised e) = false

-- The path of a child: 47 is the slash.
abbrev pub child_path : Text → Text → Text
child_path prefix name = if is_empty prefix then name else prefix ++ 47 ∷ name

-- The loop over the children at a depth that is allowed.
unfoldable pub collect_children : (Text → Bool) → Text → ℕ → Children → List Text
collect_children matches prefix depth no_child = []
collect_children matches prefix depth (child (raised e) is_loadable is_folder inner rest) =
    collect_children matches prefix depth rest
collect_children matches prefix depth (child (returned name) is_loadable is_folder inner rest) =
    let path = child_path prefix name in
    let own = if attribute_or_false is_loadable && matches path then path ∷ [] else [] in
    let deeper = collect_children matches path (depth + 1) inner in
    let inside =
      if attribute_or_false is_folder && not (ltb max_depth (depth + 1)) then deeper else [] in
    own ++ inside ++ collect_children matches prefix depth rest

unfoldable pub collect_loadable : (Text → Bool) → Text → ℕ → Children → List Text
collect_loadable matches prefix depth children =
    let found = collect_children matches prefix depth children in
    if ltb max_depth depth then [] else found
