-- ===== src/ClipGrid/Examples.antt =====
-- Pages of a small grid.
use ohmic_bridge.Prelude.{
  ap, sym, subst, ◌≤◌, ◌<◌, ◌≡◌, refl, ◌⊎◌, List, [], ◌∷◌, arith, concat, codes, length, get_elem?,
}
use ohmic_bridge.Prelude.Int.{pos}
use ohmic_bridge.Constants.{max_reply_bytes}
use ohmic_bridge.Json.{json_object, json_str}
use ohmic_bridge.Decimal.{decimal}
use ohmic_bridge.Color.{color_hex}
use ohmic_bridge.ClipGrid.{
  Entry, envelope_bytes, entry_bytes, page_step, page_loop, clip_grid_pages, page_json, GridClip,
  grid_entry,
}
use ohmic_bridge.ClipGrid.Pages.{concat-clip_grid_pages, page_json-fits}

abbrev bass : GridClip
bass = record { name = codes "Bass"; color = pos 16744448 }

abbrev entries : List Entry
entries = grid_entry 0 0 bass ∷ grid_entry 1 0 bass ∷ []

one_page : clip_grid_pages entries ≡ entries ∷ []
unfolding clip_grid_pages page_loop page_step entry_bytes envelope_bytes json_object json_str
    decimal color_hex
one_page = refl

concat-clip_grid_pages_example : concat (clip_grid_pages entries) ≡ entries
concat-clip_grid_pages_example = concat-clip_grid_pages entries

page_json-fits_example :
    (length (page_json 0 (length (clip_grid_pages entries)) entries) ≤ max_reply_bytes)
    ⊎ (length entries ≤ 1)
page_json-fits_example =
    page_json-fits entries 0 (ap (λ l. get_elem? l 0) one_page)
      (subst (λ l. length l < 100000000000) (sym one_page) (omega arith))
