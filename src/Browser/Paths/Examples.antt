-- ===== src/Browser/Paths/Examples.antt =====
-- A path with backslashes, one that would leave its root, and one that is too long.
use ohmic_bridge.Prelude.{◌≡◌, refl, none, some, List, [], ◌++◌, Text, codes, All}
use ohmic_bridge.Prelude.Texts.{strip, replace, split, leaf, has_char, starts_with}
use ohmic_bridge.Browser.Category.{normalise_browser_path}
use ohmic_bridge.Browser.Paths.{
  has_drive, is_dots, join_parts, safe_browser_relative_path, strip_slashes_left,
  strip_slashes_right, shorten, last_name, safe_output_browser_path,
}
use ohmic_bridge.Browser.Paths.Safe.{GoesDown, enter, safe_browser_relative_path-GoesDown}
use ohmic_bridge.Prelude.{text_eq}

rack : safe_browser_relative_path (codes " Racks\\Old//Kit.adg ") ≡ some (codes "Racks/Old/Kit.adg")
unfolding safe_browser_relative_path normalise_browser_path strip replace starts_with has_drive
    split is_dots text_eq join_parts
rack = refl

leaves_root : safe_browser_relative_path (codes "Racks/../../Kit.adg") ≡ none
unfolding safe_browser_relative_path normalise_browser_path strip replace starts_with has_drive
    split is_dots text_eq join_parts
leaves_root = refl

safe_browser_relative_path-GoesDown_example :
    All GoesDown (split b'/' (codes "Racks/Old/Kit.adg"))
    × ((folder : List Text)
        → enter folder (split b'/' (codes "Racks/Old/Kit.adg"))
          ≡ folder ++ split b'/' (codes "Racks/Old/Kit.adg"))
safe_browser_relative_path-GoesDown_example =
    safe_browser_relative_path-GoesDown (codes " Racks\\Old//Kit.adg ") rack

abbrev no_name : Text → Text
no_name path = []

outside_given : safe_output_browser_path no_name (codes "/Users/me/Kit.adg") ≡ codes "Kit.adg"
unfolding safe_output_browser_path safe_browser_relative_path normalise_browser_path strip replace
    starts_with has_drive split is_dots text_eq join_parts last_name strip_slashes_left
    strip_slashes_right leaf has_char shorten
outside_given = refl
