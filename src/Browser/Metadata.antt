-- ===== src/Browser/Metadata.antt =====
-- `_metadata_for_category_items` of abletonosc/browser.py: one page of what is known of the items of a
-- category. What `int` makes of the two arguments is an argument; the description of one path, which
-- may use up the bytes left for hashes, and the size of a page as JSON are parameters.
pub mod Pages
mod Examples
use ohmic_bridge.Prelude.{
  ℕ, ◌+◌, min, Bool, ◌&&◌, not, ◌==◌, ltb, if◌then◌else◌, Option, none, some, List, [], ◌∷◌, ◌++◌,
  length, take, drop, is_empty, Outcome, returned, raised, ◌>>=◌, value_error, type_error,
}
use ohmic_bridge.Prelude.Int.{ℤ, nat_part}
use ohmic_bridge.Constants.{max_reply_bytes}

-- `MAX_METADATA_PAGE_LIMIT`
abbrev pub max_metadata_page_limit : ℕ
max_metadata_page_limit = 25

-- A `ValueError` or a `TypeError` gives the default.
unfoldable pub int_or : ℕ → Outcome ℤ → Outcome ℕ
int_or default (returned i) = returned (nat_part i)
int_or default (raised e) = elim (e.class) [
  | value_error ↦ returned default
  | type_error ↦ returned default
  | _ ↦ raised e
]

pub record Page (I : Type 0) : Type 0 where
  pub offset : ℕ
  pub limit : ℕ
  pub total : ℕ
  pub next_offset : Option ℕ
  pub items : List I

-- The offset behind a page, if there is an item there.
abbrev pub offset_before : ℕ → ℕ → Option ℕ
offset_before total next = if ltb next total then some next else none

-- The payload with some items, before it has a next offset.
abbrev pub candidate : {I : Type 0} → ℕ → ℕ → ℕ → List I → Page I
candidate offset limit total items = record {
  offset = offset;
  limit = limit;
  total = total;
  next_offset = none;
  items = items;
}

abbrev pub finish_page : {I : Type 0} → ℕ → ℕ → ℕ → List I → Page I
finish_page offset limit total items = record (candidate offset limit total items) {
  next_offset = offset_before total (offset + length items);
}

module _ {P I B : Type 0} (describe : P → B → Outcome I × B) where
  -- The loop over the selected paths: the items behind those that the page has already.
  unfoldable pub fill : (List I → ℕ) → List I → B → List P → Outcome (List I)
  fill size shown budget [] = returned []
  fill size shown budget (path ∷ rest) = (describe path budget).0 >>= λ item.
      let more = fill size (shown ++ item ∷ []) (describe path budget).1 rest in
      if ltb max_reply_bytes (size (shown ++ item ∷ [])) && not (is_empty shown)
      then returned []
      else more >>= λ items. returned (item ∷ items)

  module _ (fresh : B) (json_size : Page I → ℕ) where
    -- The page behind the reading of the arguments; a limit of 0 gives an empty one.
    unfoldable pub page_at : ℕ → ℕ → List P → Outcome (Page I)
    page_at offset limit paths =
        let total = length paths in
        let empty = record (candidate offset limit total []) {
          next_offset = if ltb offset total then some (offset + 1) else none;
        } in
        let filled =
          fill (λ items. json_size (candidate offset limit total items)) [] fresh
            (take limit (drop offset paths))
          >>= λ items. returned (finish_page offset limit total items) in
        if limit == 0 then returned empty else filled

    unfoldable pub metadata_for_category_items : Outcome ℤ → Outcome ℤ → List P → Outcome (Page I)
    metadata_for_category_items offset limit paths = int_or 0 offset >>= λ offset.
        int_or max_metadata_page_limit limit >>= λ limit.
        page_at offset (min limit max_metadata_page_limit) paths
