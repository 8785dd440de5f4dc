-- ===== src/ClipGrid.antt =====
-- `clip_grid` of abletonosc/song.py: the occupied clip slots of the session grid, in pages.
pub mod Pages
mod Examples
use ohmic_bridge.Prelude.{
  ℕ, zero, suc, ◌+◌, Bool, true, false, ◌&&◌, not, ltb, leb, if◌then◌else◌, Option, none, some,
  List, [], ◌∷◌, ◌++◌, Text, text_eq, codes, length, get_elem?, is_empty, Outcome, returned, raised,
}
use ohmic_bridge.Prelude.Int.{ℤ, pos, negsuc}
use ohmic_bridge.Constants.{max_reply_bytes}
use ohmic_bridge.Decimal.{decimal}
use ohmic_bridge.Color.{color_hex}
use ohmic_bridge.Json.{compact, json_str, json_object}

pub record Entry : Type 0 where
  pub key : Text
  pub name : Text
  pub color : Text

-- `d[key] = value`
unfoldable pub set_value : List (Text × Text) → Text → Text → List (Text × Text)
set_value [] k v = (k, v) ∷ []
set_value ((j, w) ∷ m) k v =
    let rest = set_value m k v in if text_eq j k then (j, v) ∷ m else (j, w) ∷ rest

abbrev pub page_members : Text → Text → Text → Text → List (Text × Text)
page_members page_index page_count clips clip_colors =
    (codes "page_index", page_index)
    ∷ (codes "page_count", page_count)
    ∷ (codes "clips", clips)
    ∷ (codes "clip_colors", clip_colors)
    ∷ []

-- `_CLIP_GRID_ENVELOPE_BYTES`
unfoldable pub envelope_bytes : ℕ
envelope_bytes =
    length (
      json_object compact
        (page_members (decimal 0) (decimal 0) (json_object compact []) (json_object compact [])))
    + 20

unfoldable pub entry_bytes : Entry → ℕ
entry_bytes e =
    length (json_str e.key)
    + 1
    + length (json_str e.name)
    + 1
    + length (json_str e.key)
    + 1
    + length (json_str e.color)
    + 1

-- The pages before the last, the last page, and `budget_used`.
pub record Paging : Type 0 where
  pub closed : List (List Entry)
  pub page : List Entry
  pub budget_used : ℕ

-- One round of the loop of `_clip_grid_pages`.
unfoldable pub page_step : Paging → Entry → Paging
page_step s e =
    if not (is_empty s.page) && ltb max_reply_bytes (s.budget_used + entry_bytes e)
    then record {
      closed = s.closed ++ s.page ∷ [];
      page = e ∷ [];
      budget_used = envelope_bytes + entry_bytes e;
    }
    else record s { page = s.page ++ e ∷ []; budget_used = s.budget_used + entry_bytes e }

unfoldable pub page_loop : Paging → List Entry → Paging
page_loop s [] = s
page_loop s (e ∷ rest) = page_loop (page_step s e) rest

unfoldable pub clip_grid_pages : List Entry → List (List Entry)
clip_grid_pages entries =
    let s = page_loop (record { closed = []; page = []; budget_used = envelope_bytes }) entries in
    s.closed ++ s.page ∷ []

-- The two dictionaries of a page.
unfoldable pub page_clips : List (Text × Text) → List Entry → List (Text × Text)
page_clips m [] = m
page_clips m (e ∷ rest) = page_clips (set_value m e.key (json_str e.name)) rest

unfoldable pub page_colors : List (Text × Text) → List Entry → List (Text × Text)
page_colors m [] = m
page_colors m (e ∷ rest) = page_colors (set_value m e.key (json_str e.color)) rest

unfoldable pub page_json : ℕ → ℕ → List Entry → Text
page_json page_index page_count entries = json_object compact (
    page_members (decimal page_index) (decimal page_count)
      (json_object compact (page_clips [] entries)) (json_object compact (page_colors [] entries)))

-- A clip's name and colour.
pub record GridClip : Type 0 where
  pub name : Text
  pub color : ℤ

-- What reading a slot gives or raises.
abbrev pub Slot : Type 0
Slot = Outcome (Option GridClip)

abbrev pub grid_entry : ℕ → ℕ → GridClip → Entry
grid_entry track slot c = record {
  key = decimal track ++ codes "," ++ decimal slot;
  name = if is_empty c.name then codes "(unnamed)" else c.name;
  color = color_hex c.color;
}

unfoldable pub slot_entries : ℕ → ℕ → ℕ → List Slot → List Entry
slot_entries num_scenes track i [] = []
slot_entries num_scenes track i (slot ∷ rest) =
    let others = slot_entries num_scenes track (i + 1) rest in
    if leb num_scenes i then [] else elim slot [
      | raised e ↦ others
      | returned none ↦ others
      | returned (some c) ↦ grid_entry track i c ∷ others
    ]

unfoldable pub grid_entries : ℕ → ℕ → List (List Slot) → List Entry
grid_entries num_scenes track [] = []
grid_entries num_scenes track (slots ∷ rest) =
    slot_entries num_scenes track 0 slots ++ grid_entries num_scenes (track + 1) rest

-- The reply: a page alone, a page behind its index, or the error for an index out of range.
pub data GridReply : Type 0 where
  first_page : Text → GridReply
  page_at : (page_index : ℕ) → Text → GridReply
  out_of_range : (page_count : ℕ) → GridReply
  -- `pages[page_index]` has no such page.
  no_such_page : GridReply

-- The reply with `pages[page_index]`, behind its index.
abbrev pub numbered_page : ℕ → ℕ → Option (List Entry) → GridReply
numbered_page i page_count none = no_such_page
numbered_page i page_count (some page) = page_at i (page_json i page_count page)

-- `clip_grid`, without an argument, or with one and what `int` makes of it, if anything.
unfoldable pub clip_grid : ℕ → List (List Slot) → Option (Option ℤ) → GridReply
clip_grid num_scenes tracks none =
    let pages = clip_grid_pages (grid_entries num_scenes 0 tracks) in
    elim (get_elem? pages 0) [
      | none ↦ no_such_page
      | some page ↦ first_page (page_json 0 (length pages) page)
    ]
clip_grid num_scenes tracks (some none) =
    out_of_range (length (clip_grid_pages (grid_entries num_scenes 0 tracks)))
clip_grid num_scenes tracks (some (some (negsuc n))) =
    out_of_range (length (clip_grid_pages (grid_entries num_scenes 0 tracks)))
clip_grid num_scenes tracks (some (some (pos i))) =
    let pages = clip_grid_pages (grid_entries num_scenes 0 tracks) in
    if leb (length pages) i
    then out_of_range (length pages)
    else numbered_page i (length pages) (get_elem? pages i)
