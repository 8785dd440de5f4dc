-- ===== src/Browser.antt =====
-- abletonosc/browser.py: here lists without duplicates, the byte budget of a listing, and the place of a
-- device that has been inserted; `load_item`, metadata pages and the tree of items are children of this.
pub mod Budget
pub mod Unique
pub mod Inserted
pub mod Load
pub mod Metadata
pub mod Tree
pub mod Search
pub mod Category
pub mod Items
pub mod Paths
mod Examples
use ohmic_bridge.Prelude.{
  ℕ, zero, suc, ◌+◌, ◌*◌, ◌/◌, Bool, true, false, ◌||◌, ltb, leb, if◌then◌else◌, Option, none, some,
  List, [], ◌∷◌, ◌++◌, Text, text_eq, codes, length, take, drop,
}
use ohmic_bridge.Constants.{max_reply_bytes}
use ohmic_bridge.Decimal.{decimal}

-- The bytes of a character in UTF-8, and of a text.
abbrev pub utf8_char : ℕ → ℕ
utf8_char c = if ltb c 128 then 1 else if ltb c 2048 then 2 else if ltb c 65536 then 3 else 4

abbrev pub utf8_size : Text → ℕ
utf8_size [] = 0
utf8_size (c ∷ s) = utf8_char c + utf8_size s

unfoldable pub osc_string_arg_bytes : Text → ℕ
osc_string_arg_bytes text = (utf8_size text + 1 + 3) / 4 * 4 + 4

-- `NAMES_TRUNCATION_MARKER` and `SEARCH_TRUNCATION_MARKER`, filled in.
abbrev pub names_marker : ℕ → ℕ → Text
names_marker shown total =
    codes "TRUNCATED: showing "
    ++ decimal shown
    ++ codes " of "
    ++ decimal total
    ++ codes " items - use search_browser_items to find specific items"

abbrev pub search_marker : ℕ → ℕ → Text
search_marker shown total =
    codes "TRUNCATED: showing "
    ++ decimal shown
    ++ codes " of "
    ++ decimal total
    ++ codes " matches - refine the query"

-- The loop that shows items while the budget lasts.
unfoldable pub show_within : ℕ → List Text → List Text
show_within budget [] = []
show_within budget (item ∷ rest) =
    let others = show_within (budget + osc_string_arg_bytes item) rest in
    if ltb max_reply_bytes (budget + osc_string_arg_bytes item) then [] else item ∷ others

abbrev pub mark : (ℕ → ℕ → Text) → ℕ → List Text → List Text
mark marker total shown =
    if ltb (length shown) total then shown ++ marker (length shown) total ∷ [] else shown

-- The items of a reply: `get_names` and `search_items` behind their collection, with either marker.
unfoldable pub listing : (ℕ → ℕ → Text) → List Text → List Text
listing marker items =
    let total = length items in
    mark marker total (show_within (64 + osc_string_arg_bytes (marker total total)) items)

unfoldable pub names_reply : Text → List Text → List Text
names_reply category [] = category ∷ codes "empty" ∷ []
names_reply category (item ∷ rest) = category ∷ listing names_marker (item ∷ rest)

unfoldable pub search_reply : Text → Text → List Text → List Text
search_reply category query [] = category ∷ query ∷ codes "no matches" ∷ []
search_reply category query (item ∷ rest) = category ∷ query ∷ listing search_marker (item ∷ rest)

-- `item in seen`
unfoldable pub contains : List Text → Text → Bool
contains [] item = false
contains (x ∷ xs) item = text_eq x item || contains xs item

-- `_extend_unique`: `seen` is the set of what the results hold.
unfoldable pub extend_unique : List Text → List Text → List Text
extend_unique results [] = results
extend_unique results (item ∷ items) =
    if contains results item
    then extend_unique results items
    else extend_unique (results ++ item ∷ []) items

unfoldable pub texts_eq : List Text → List Text → Bool
texts_eq [] [] = true
texts_eq [] (y ∷ ys) = false
texts_eq (x ∷ xs) [] = false
texts_eq (x ∷ xs) (y ∷ ys) = if text_eq x y then texts_eq xs ys else false

-- `after[:index] + after[index + 1:]`
abbrev pub without : List Text → ℕ → List Text
without xs i = take i xs ++ drop (i + 1) xs

-- The loop over `range(len(after))`, from an index on.
unfoldable pub inserted_from : List Text → List Text → ℕ → ℕ → Option ℕ
inserted_from before after i zero = none
inserted_from before after i (suc n) =
    let later = inserted_from before after (i + 1) n in
    if texts_eq (without after i) before then some i else later

-- `none` is -1.
unfoldable pub find_inserted_device_index : List Text → List Text → Option ℕ
find_inserted_device_index before after =
    if leb (length after) (length before) then none else inserted_from before after 0 (length after)
