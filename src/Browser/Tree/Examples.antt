-- ===== src/Browser/Tree/Examples.antt =====
-- A folder with a loadable item and one that is not wanted, and an item without a name.
use ohmic_bridge.Prelude.{
  ◌≡◌, refl, Bool, true, false, [], ◌∷◌, Text, text_eq, codes, not, returned, raised, Exn,
  runtime_error,
}
use ohmic_bridge.Browser.Tree.{Children, no_child, child, collect_loadable, collect_children}

abbrev failure : Exn
failure = record { class = runtime_error; message = [] }

abbrev wanted : Text → Bool
wanted path = not (text_eq path (codes "Pads/Old"))

abbrev tree : Children
tree = child (raised failure) (returned true) (returned false) no_child (
    child (returned (codes "Pads")) (raised failure) (returned true)
      (child (returned (codes "Warm")) (returned true) (returned false) no_child
        (child (returned (codes "Old")) (returned true) (raised failure) no_child no_child))
      no_child)

one_found : collect_loadable wanted [] 0 tree ≡ codes "Pads/Warm" ∷ []
unfolding collect_loadable collect_children text_eq
one_found = refl
