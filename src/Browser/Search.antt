-- ===== src/Browser/Search.antt =====
-- The search of abletonosc/browser.py for one item of a tree: `_find_by_path_with_path`,
-- `_find_by_name_with_path` and `_find_loadable_in_root`. A category is its test of a path; `lower` is
-- `str.lower`.
pub mod Located
pub mod Listed
pub mod First
mod Examples
use ohmic_bridge.Prelude.{
  ℕ, ◌+◌, Bool, true, false, ◌&&◌, not, ltb, if◌then◌else◌, Option, none, some, List, [], ◌∷◌, Text,
  text_eq, is_empty, Outcome, returned, raised,
}
use ohmic_bridge.Prelude.Texts.{has_char, split}
use ohmic_bridge.Browser.Tree.{Children, no_child, child, max_depth, attribute_or_false, child_path}

-- An item that is found: its path, and what reading its `is_loadable` gives.
pub record Found : Type 0 where
  pub path : Text
  pub is_loadable : Outcome Bool

-- The loop over the children; behind the first one of the name, the search goes on in it.
unfoldable pub find_by_path : Text → List Text → Children → Option Found
find_by_path prefix [] children = none
find_by_path prefix (s ∷ segments) no_child = none
find_by_path prefix (s ∷ segments) (child (raised e) is_loadable is_folder inner rest) =
    find_by_path prefix (s ∷ segments) rest
find_by_path prefix (s ∷ segments) (child (returned name) is_loadable is_folder inner rest) =
    let path = child_path prefix name in
    let deeper = find_by_path path segments inner in
    let here =
      if is_empty segments
      then some (record { path = path; is_loadable = is_loadable })
      else deeper in
    let later = find_by_path prefix (s ∷ segments) rest in if text_eq name s then here else later

abbrev pub or_else : {A : Type 0} → Option A → Option A → Option A
or_else (some a) other = some a
or_else none other = other

-- The loop over the children at a depth that is allowed.
unfoldable pub find_by_name :
    (Text → Text) → (Text → Bool) → Text → Text → ℕ → Children → Option Found
find_by_name lower matches name prefix depth no_child = none
find_by_name lower matches name prefix depth (child (raised e) is_loadable is_folder inner rest) =
    find_by_name lower matches name prefix depth rest
find_by_name lower matches name prefix depth
      (child (returned child_name) is_loadable is_folder inner rest) =
    let path = child_path prefix child_name in
    let deeper = find_by_name lower matches name path (depth + 1) inner in
    let inside =
      if attribute_or_false is_folder && not (ltb max_depth (depth + 1)) then deeper else none in
    let later = find_by_name lower matches name prefix depth rest in
    if attribute_or_false is_loadable && text_eq (lower child_name) (lower name) && matches path
    then some (record { path = path; is_loadable = is_loadable })
    else or_else inside later

-- The test of the category behind either search.
unfoldable pub if_matches : (Text → Bool) → Option Found → Option Found
if_matches matches none = none
if_matches matches (some found) = if matches found.path then some found else none

unfoldable pub find_loadable_in_root :
    (Text → Text) → (Text → Bool) → Text → Children → Option Found
find_loadable_in_root lower matches query root = if_matches matches (
    if has_char b'/' query
    then find_by_path [] (split b'/' query) root
    else find_by_name lower matches query [] 0 root)
