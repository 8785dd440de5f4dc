-- ===== src/Browser/Items.antt =====
-- The items of a category in abletonosc/browser.py: `_collect_category_items` lists them, from all the
-- roots of the category, and `_find_loadable_for_browser_category` searches for one of them.
pub mod Reach
mod Examples
use ohmic_bridge.Prelude.{
  Bool, true, false, ◌||◌, if◌then◌else◌, Option, none, some, List, [], ◌∷◌, ◌++◌, map, Text,
}
use ohmic_bridge.Browser.{contains, extend_unique}
use ohmic_bridge.Browser.Tree.{Children, collect_loadable}
use ohmic_bridge.Browser.Search.{Found, find_loadable_in_root}
use ohmic_bridge.Browser.Category.{
  Category, user_library_max_for_live, unknown, Attribute, user_library, category_map,
  is_max_for_live, max_for_live_stem, path_matches_stem_set, path_matches_category,
}

-- What reading an attribute of the browser gives: `missing` if `hasattr` says no, `unreadable` if it
-- says yes and `getattr` raises behind it. That `hasattr` itself raises, as it does for another
-- exception than AttributeError, is not in the model.
pub data Root : Type 0 where
  missing unreadable : Root
  root : Children → Root

abbrev pub Browser : Type 0
Browser = Attribute → Root

-- The attributes that are read for a category, in their order.
abbrev pub attributes_of : Category → List Attribute
attributes_of user_library_max_for_live = Attribute.max_for_live ∷ user_library ∷ []
attributes_of Category.max_for_live =
    Attribute.max_for_live ∷ Attribute.audio_effects ∷ Attribute.midi_effects
    ∷ Attribute.instruments ∷ []
attributes_of category = elim (category_map category) [ none ↦ [] | some a ↦ a ∷ [] ]

module _ (lower : Text → Text) where
  -- `_extend_unique_max_for_live`: no two items with one stem.
  unfoldable pub extend_unique_max_for_live : List Text → List Text → List Text
  extend_unique_max_for_live results [] = results
  extend_unique_max_for_live results (item ∷ items) =
      if contains (map (max_for_live_stem lower) results) (max_for_live_stem lower item)
      then extend_unique_max_for_live results items
      else extend_unique_max_for_live (results ++ item ∷ []) items

  module _ (user_stems installed_stems : List Text) where
    -- An item of `max_for_live` from another root has to be installed.
    abbrev pub passes : Category → Attribute → Text → Bool
    passes Category.max_for_live a path =
        is_max_for_live a || path_matches_stem_set lower path installed_stems
    passes category a path = true

    abbrev pub keep_passing : Category → Attribute → List Text → List Text
    keep_passing category a [] = []
    keep_passing category a (path ∷ paths) =
        if passes category a path
        then path ∷ keep_passing category a paths
        else keep_passing category a paths

    abbrev pub collected : Category → Attribute → Root → List Text
    collected category a missing = []
    collected category a unreadable = []
    collected category a (root children) =
        keep_passing category a
          (collect_loadable (path_matches_category lower user_stems category) [] 0 children)

    abbrev pub extend : Category → List Text → List Text → List Text
    extend user_library_max_for_live = extend_unique_max_for_live
    extend Category.max_for_live = extend_unique_max_for_live
    extend category = extend_unique

    unfoldable pub collect_loop : Browser → Category → List Attribute → List Text → List Text
    collect_loop browser category [] results = results
    collect_loop browser category (a ∷ as') results =
        collect_loop browser category as'
          (extend category results (collected category a (browser a)))

    unfoldable pub collect_category_items : Browser → Category → List Text
    collect_category_items browser category =
        collect_loop browser category (attributes_of category) []

    abbrev pub find_in : Category → Text → Root → Option Found
    find_in category query missing = none
    find_in category query unreadable = none
    find_in category query (root children) =
        find_loadable_in_root lower (path_matches_category lower user_stems category) query children

    -- What is found in one root, unless the search goes on behind it.
    abbrev pub or_later : Category → Attribute → Option Found → Option Found → Option Found
    or_later category a none later = later
    or_later category a (some found) later =
        if passes category a found.path then some found else later

    unfoldable pub find_loop : Browser → Category → Text → List Attribute → Option Found
    find_loop browser category query [] = none
    find_loop browser category query (a ∷ as') =
        or_later category a (find_in category query (browser a))
          (find_loop browser category query as')

    unfoldable pub find_loadable_for_browser_category : Browser → Category → Text → Option Found
    find_loadable_for_browser_category browser category query =
        find_loop browser category query (attributes_of category)
