-- ===== src/Browser/Items/Examples.antt =====
-- A browser with a rack in its user library, and with devices of Max for Live in two roots.
use ohmic_bridge.Prelude.{
  ◌+◌, ◌≤◌, ◌≡◌, refl, ap, subst, true, false, leb, ◌&&◌, if◌then◌else◌, some, [], ◌∷◌, map, String,
  length, Text, text_eq, codes, All, returned,
}
use ohmic_bridge.Prelude.Texts.{has_char, split, leaf, strip, replace, ends_with}
use ohmic_bridge.Browser.{contains, extend_unique}
use ohmic_bridge.Browser.Tree.{
  Children, no_child, child, attribute_or_false, collect_loadable, collect_children,
}
use ohmic_bridge.Browser.Search.{Found}
use ohmic_bridge.Browser.Search.Located.{has_name, IsTidy}
use ohmic_bridge.Browser.Category.{
  Category, drum_racks, Attribute, user_library, normalise_browser_path, path_parts,
  max_for_live_stem, normalised_stem_set, path_matches_stem_set, category_for_user_library_path,
  path_matches_category, same_category,
}
use ohmic_bridge.Browser.Items.{
  Root, missing, root, Browser, attributes_of, extend_unique_max_for_live, collect_loop,
  collect_category_items, find_loadable_for_browser_category,
}
use ohmic_bridge.Browser.Items.Reach.{items-IsReached}

abbrev lower : Text → Text
lower = map (λ c. if leb b'A' c && leb c b'Z' then c + 32 else c)

abbrev item : String → Children → Children
item name rest = child (returned (codes name)) (returned true) (returned false) no_child rest

abbrev folder : String → Children → Children → Children
folder name inner rest = child (returned (codes name)) (returned false) (returned true) inner rest

abbrev library : Children
library = folder "Drum Rack" (item "Kit.adg" (item "Kit.adv" no_child)) no_child

abbrev devices : Children
devices = folder "Utility" (item "Scope.amxd" no_child) no_child

abbrev browser : Browser
browser user_library = root library
browser Attribute.max_for_live = root devices
browser Attribute.instruments = root devices
browser _ = missing

kits :
    collect_category_items lower [] (codes "scope" ∷ []) browser drum_racks
    ≡ codes "Drum Rack/Kit.adg" ∷ []
unfolding collect_category_items collect_loop collect_loadable collect_children extend_unique
    contains path_matches_category category_for_user_library_path path_parts normalise_browser_path
    split strip replace ends_with text_eq same_category
kits = refl

-- Both roots have the device, and it is listed once.
scopes :
    collect_category_items lower [] (codes "scope" ∷ []) browser Category.max_for_live
    ≡ codes "Utility/Scope.amxd" ∷ []
unfolding collect_category_items collect_loop collect_loadable collect_children
    extend_unique_max_for_live contains path_matches_category path_matches_stem_set
    normalised_stem_set max_for_live_stem normalise_browser_path leaf has_char strip replace
    ends_with text_eq
scopes = refl

library-IsTidy : IsTidy library
unfolding IsTidy has_char has_name text_eq
library-IsTidy = (refl, refl, refl, (refl, refl, refl, tt, (refl, refl, refl, tt, tt)), tt)

devices-IsTidy : IsTidy devices
unfolding IsTidy has_char has_name text_eq
devices-IsTidy = (refl, refl, refl, (refl, refl, refl, tt, tt), tt)

abbrev of_root : Root → Children
of_root (root children) = children
of_root _ = no_child

browser-IsTidy : (a : Attribute) (children : Children) → browser a ≡ root children → IsTidy children
browser-IsTidy user_library children e = subst IsTidy (ap of_root e) library-IsTidy
browser-IsTidy Attribute.max_for_live children e = subst IsTidy (ap of_root e) devices-IsTidy
browser-IsTidy Attribute.instruments children e = subst IsTidy (ap of_root e) devices-IsTidy
browser-IsTidy Attribute.audio_effects children e = cc
browser-IsTidy Attribute.midi_effects children e = cc
browser-IsTidy Attribute.plugins children e = cc

items-IsReached_example :
    All
      (λ p.
        has_char b'/' p ≡ true
        → (found : Found) × (find_loadable_for_browser_category lower []
              (codes "scope" ∷ [])
              browser
              drum_racks
              p
            ≡ some found)
          × (found.path ≡ p)
          × (length (attributes_of drum_racks) ≤ 1 → attribute_or_false found.is_loadable ≡ true))
      (collect_category_items lower [] (codes "scope" ∷ []) browser drum_racks)
items-IsReached_example =
    items-IsReached lower [] (codes "scope" ∷ []) browser drum_racks browser-IsTidy
