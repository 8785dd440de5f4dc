-- ===== src/Browser/Paths.antt =====
-- The paths that abletonosc/browser.py takes from a browser and gives to a client:
-- `_safe_browser_relative_path` and `_safe_output_browser_path`. `PureWindowsPath(path).name` is a
-- parameter.
pub mod Safe
pub mod Output
mod Examples
use ohmic_bridge.Prelude.{
  ℕ, ◌-◌, Bool, true, false, ◌&&◌, ◌||◌, not, ◌==◌, leb, ltb, if◌then◌else◌, Option, none, some,
  List, [], ◌∷◌, ◌++◌, Text, text_eq, codes, length, take, is_empty,
}
use ohmic_bridge.Prelude.Texts.{strip, split, leaf, starts_with}
use ohmic_bridge.Browser.Category.{normalise_browser_path}

-- `MAX_METADATA_BROWSER_PATH_CHARS`
abbrev pub max_metadata_browser_path_chars : ℕ
max_metadata_browser_path_chars = 1024

abbrev pub is_letter : ℕ → Bool
is_letter c = (leb b'a' c && leb c b'z') || (leb b'A' c && leb c b'Z')

-- `PureWindowsPath(text)` has a drive, or is absolute: of a text that begins with no slash of either
-- kind, that is a letter with a colon.
unfoldable pub has_drive : Text → Bool
has_drive [] = false
has_drive (c ∷ []) = false
has_drive (c ∷ d ∷ s) = is_letter c && d == b':'

abbrev pub nonempty_parts : List Text → List Text
nonempty_parts [] = []
nonempty_parts (part ∷ parts) =
    if is_empty part then nonempty_parts parts else part ∷ nonempty_parts parts

unfoldable pub is_dots : Text → Bool
is_dots part = text_eq part (codes ".") || text_eq part (codes "..")

abbrev pub any_dots : List Text → Bool
any_dots [] = false
any_dots (part ∷ parts) = is_dots part || any_dots parts

-- `"/".join(parts)`
unfoldable pub join_parts : List Text → Text
join_parts [] = []
join_parts (part ∷ []) = part
join_parts (part ∷ next ∷ parts) = part ++ b'/' ∷ join_parts (next ∷ parts)

abbrev pub if_plain : List Text → Option Text
if_plain parts = if any_dots parts then none else some (join_parts parts)

unfoldable pub safe_browser_relative_path : Text → Option Text
safe_browser_relative_path path =
    let text = strip path in
    let normalised = normalise_browser_path text in
    if is_empty normalised
    then none
    else if starts_with normalised (codes "/")
    then none
    else if has_drive text
    then none
    else if_plain (nonempty_parts (split b'/' normalised))

-- `text.strip("/")`
unfoldable pub strip_slashes_left : Text → Text
strip_slashes_left [] = []
strip_slashes_left (c ∷ s) = if c == b'/' then strip_slashes_left s else c ∷ s

unfoldable pub strip_slashes_right : Text → Text
strip_slashes_right [] = []
strip_slashes_right (c ∷ s) =
    let rest = strip_slashes_right s in if is_empty rest && c == b'/' then [] else c ∷ rest

abbrev pub or_text : Text → Text → Text
or_text [] other = other
or_text (c ∷ s) other = c ∷ s

-- The leaf of a path that is too long, cut.
unfoldable pub shorten : Text → Text
shorten path =
    if ltb max_metadata_browser_path_chars (length path)
    then if leb (length (leaf path)) max_metadata_browser_path_chars
      then leaf path
      else take max_metadata_browser_path_chars (leaf path)
    else path

abbrev pub relative_or : Option Text → Text → Text
relative_or none other = other
relative_or (some path) other = or_text path other

module _ (windows_name : Text → Text) where
  unfoldable pub last_name : Text → Text → Text
  last_name path text =
      or_text (windows_name path) (strip (leaf (strip_slashes_right (strip_slashes_left text))))

  unfoldable pub safe_output_browser_path : Text → Text
  safe_output_browser_path path =
      let text = normalise_browser_path path in
      shorten (
        or_text (relative_or (safe_browser_relative_path text) (last_name path text))
          (codes "unknown"))
