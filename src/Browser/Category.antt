-- ===== src/Browser/Category.antt =====
-- The categories of abletonosc/browser.py: which attributes of Live's browser one reads, which paths
-- belong to it, the list of its items, and the search for one of them in all its roots. `lower` is
-- `str.lower`; the stems of Max for Live devices, which a scan of two folders gives, are parameters.
use ohmic_bridge.Prelude.{
  ◌-◌, Bool, true, false, ◌||◌, not, if◌then◌else◌, Option, none, some, List, [], ◌∷◌, Text, codes,
  length, take, is_empty,
}
use ohmic_bridge.Prelude.Texts.{strip, replace, split, leaf, ends_with}
use ohmic_bridge.Browser.{contains}

-- The keys of `CATEGORY_MAP`; `unknown` is any other text.
pub data Category : Type 0 where
  instruments audio_effects midi_effects plugins : Category
  instrument_racks drum_racks audio_effect_racks midi_effect_racks : Category
  ableton_presets plugin_presets user_library_max_for_live max_for_live unknown : Category

-- The attributes of the browser that hold a root.
pub data Attribute : Type 0 where
  instruments audio_effects midi_effects plugins user_library max_for_live : Attribute

-- `CATEGORY_MAP.get`
abbrev pub category_map : Category → Option Attribute
category_map Category.instruments = some Attribute.instruments
category_map Category.audio_effects = some Attribute.audio_effects
category_map Category.midi_effects = some Attribute.midi_effects
category_map Category.plugins = some Attribute.plugins
category_map user_library_max_for_live = some Attribute.max_for_live
category_map Category.max_for_live = some Attribute.max_for_live
category_map unknown = none
category_map _ = some user_library

-- `category in USER_LIBRARY_CATEGORIES`
abbrev pub is_user_library : Category → Bool
is_user_library Category.instruments = false
is_user_library Category.audio_effects = false
is_user_library Category.midi_effects = false
is_user_library Category.plugins = false
is_user_library Category.max_for_live = false
is_user_library unknown = false
is_user_library _ = true

abbrev pub is_max_for_live : Attribute → Bool
is_max_for_live Attribute.max_for_live = true
is_max_for_live _ = false

-- Two categories that come from the path of a file are the same.
unfoldable pub same_category : Category → Category → Bool
same_category instrument_racks instrument_racks = true
same_category drum_racks drum_racks = true
same_category audio_effect_racks audio_effect_racks = true
same_category midi_effect_racks midi_effect_racks = true
same_category ableton_presets ableton_presets = true
same_category plugin_presets plugin_presets = true
same_category user_library_max_for_live user_library_max_for_live = true
same_category _ _ = false

abbrev pub is_category : Option Category → Category → Bool
is_category none category = false
is_category (some c) category = same_category c category

unfoldable pub normalise_browser_path : Text → Text
normalise_browser_path path = strip (replace b'\\' b'/' path)

module _ (lower : Text → Text) where
  abbrev pub keep_parts : List Text → List Text
  keep_parts [] = []
  keep_parts (part ∷ parts) =
      if is_empty (strip part) then keep_parts parts else lower (strip part) ∷ keep_parts parts

  unfoldable pub path_parts : Text → List Text
  path_parts path = keep_parts (split b'/' (normalise_browser_path path))

  abbrev pub without_amxd : Text → Text
  without_amxd name =
      if ends_with (lower name) (codes ".amxd") then take (length name - 5) name else name

  unfoldable pub max_for_live_stem : Text → Text
  max_for_live_stem path = lower (strip (without_amxd (strip (leaf (normalise_browser_path path)))))

  -- The stems that are not blank.
  unfoldable pub normalised_stem_set : List Text → List Text
  normalised_stem_set [] = []
  normalised_stem_set (stem ∷ stems) =
      if is_empty (strip stem)
      then normalised_stem_set stems
      else max_for_live_stem stem ∷ normalised_stem_set stems

  unfoldable pub path_matches_stem_set : Text → List Text → Bool
  path_matches_stem_set path stems = contains (normalised_stem_set stems) (max_for_live_stem path)

  abbrev pub rack_category : List Text → Option Category
  rack_category parts =
      if contains parts (codes "instrument rack")
      then some instrument_racks
      else if contains parts (codes "drum rack")
      then some drum_racks
      else if contains parts (codes "audio effect rack")
      then some audio_effect_racks
      else if contains parts (codes "midi effect rack")
      then some midi_effect_racks
      else none

  unfoldable pub category_for_user_library_path : Text → Option Category
  category_for_user_library_path path =
      let lowered = lower (normalise_browser_path path) in
      if ends_with lowered (codes ".adg")
      then rack_category (path_parts (normalise_browser_path path))
      else if ends_with lowered (codes ".adv")
      then some ableton_presets
      else if ends_with lowered (codes ".vstpreset") || ends_with lowered (codes ".aupreset")
      then some plugin_presets
      else if ends_with lowered (codes ".amxd")
      then some user_library_max_for_live
      else none

  module _ (user_stems : List Text) where
    unfoldable pub path_matches_category : Category → Text → Bool
    path_matches_category user_library_max_for_live path =
        path_matches_stem_set path user_stems
        || is_category (category_for_user_library_path path) user_library_max_for_live
    path_matches_category Category.max_for_live path = not (path_matches_stem_set path user_stems)
    path_matches_category category path =
        if is_user_library category
        then is_category (category_for_user_library_path path) category
        else true
