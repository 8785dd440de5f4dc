-- ===== src/Browser/Search/Examples.antt =====
-- A folder with two loadable items, and an item of the same name as one of them beside the folder.
use ohmic_bridge.Prelude.{
  ◌≡◌, refl, Bool, true, false, leb, ◌&&◌, if◌then◌else◌, ◌+◌, some, [], ◌∷◌, map, String, Text,
  text_eq, codes, returned, raised, Exn, runtime_error,
}
use ohmic_bridge.Prelude.Texts.{has_char, split}
use ohmic_bridge.Browser.Tree.{Children, no_child, child, collect_loadable, collect_children}
use ohmic_bridge.Browser.Search.{find_by_path, find_by_name, if_matches, find_loadable_in_root}
use ohmic_bridge.Browser.Search.Located.{has_name, IsTidy}
use ohmic_bridge.Browser.Search.First.{
  first, HasPlainNames, found_path, is_named, find_loadable-first,
}

abbrev failure : Exn
failure = record { class = runtime_error; message = [] }

abbrev lower : Text → Text
lower = map (λ c. if leb b'A' c && leb c b'Z' then c + 32 else c)

abbrev all_paths : Text → Bool
all_paths path = true

abbrev item : String → Children → Children
item name rest = child (returned (codes name)) (returned true) (raised failure) no_child rest

abbrev tree : Children
tree = child (raised failure) (returned true) (returned false) no_child (
    child (returned (codes "Pads")) (returned false) (returned true)
      (item "Warm" (item "Cold" no_child)) (item "Warm" no_child))

tree-IsTidy : IsTidy tree
unfolding IsTidy has_char has_name text_eq
tree-IsTidy = (
  tt,
  (
    refl,
    refl,
    refl,
    (refl, refl, refl, tt, (refl, refl, refl, tt, tt)),
    (refl, refl, refl, tt, tt),
  ),
)

tree-HasPlainNames : HasPlainNames tree
unfolding HasPlainNames has_char
tree-HasPlainNames = (tt, (refl, (refl, tt, (refl, tt, tt)), (refl, tt, tt)))

listed :
    collect_loadable all_paths [] 0 tree ≡ codes "Pads/Warm" ∷ codes "Pads/Cold" ∷ codes "Warm" ∷ []
unfolding collect_loadable collect_children
listed = refl

cold_found :
    find_loadable_in_root lower all_paths (codes "Pads/Cold") tree
    ≡ some (record { path = codes "Pads/Cold"; is_loadable = returned true })
unfolding find_loadable_in_root has_char split find_by_path if_matches text_eq
cold_found = refl

-- The listed name of the last item finds another one.
other_found :
    find_loadable_in_root lower all_paths (codes "Warm") tree
    ≡ some (record { path = codes "Pads/Warm"; is_loadable = returned true })
unfolding find_loadable_in_root has_char find_by_name if_matches text_eq
other_found = refl

no_slash : has_char b'/' (codes "warm") ≡ false
unfolding has_char
no_slash = refl

find_loadable-first_example :
    found_path (find_loadable_in_root lower all_paths (codes "warm") tree)
    ≡ first (is_named lower all_paths (codes "warm")) (collect_loadable all_paths [] 0 tree)
find_loadable-first_example =
    find_loadable-first lower all_paths (codes "warm") tree tree-HasPlainNames no_slash
