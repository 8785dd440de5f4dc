-- ===== src/Browser/Metadata/Examples.antt =====
-- Two pages' worth of three items, each too large to stand beside another.
use ohmic_bridge.Prelude.{
  ℕ, ◌+◌, ◌*◌, ◌≤◌, ◌<◌, min, ◌≡◌, refl, ◌⊎◌, some, List, [], ◌∷◌, drop, length, take, Outcome,
  returned, arith, raised, Exn, type_error,
}
use ohmic_bridge.Prelude.Int.{pos}
use ohmic_bridge.Constants.{max_reply_bytes}
use ohmic_bridge.Browser.Metadata.{
  int_or, Page, candidate, fill, page_at, metadata_for_category_items, offset_before,
}
use ohmic_bridge.Browser.Metadata.Pages.{describe_all, metadata_page-right}

-- A path describes itself, and takes one from the budget.
abbrev describe : ℕ → ℕ → Outcome ℕ × ℕ
describe path budget = (returned path, budget + 1)

abbrev json_size : Page ℕ → ℕ
json_size page = 100 + length page.items * 5000

abbrev paths : List ℕ
paths = 10 ∷ 20 ∷ 30 ∷ []

abbrev not_a_number : Exn
not_a_number = record { class = type_error; message = [] }

read_offset : int_or 0 (returned (pos 1)) ≡ returned 1
unfolding int_or
read_offset = refl

read_limit : int_or 25 (raised not_a_number) ≡ returned 25
unfolding int_or
read_limit = refl

second_page :
    metadata_for_category_items describe 0 json_size (returned (pos 1)) (raised not_a_number) paths
    ≡ returned (record { offset = 1; limit = 25; total = 3; next_offset = some 2; items = 20 ∷ [] })
unfolding metadata_for_category_items page_at fill int_or
second_page = refl

metadata_page-right_example :
    (page : Page ℕ) × (metadata_for_category_items describe 0 json_size
        (returned (pos 1))
        (raised not_a_number)
        paths
      ≡ returned page)
    × (describe_all describe 0 (take (length page.items) (drop 1 paths)) ≡ returned page.items)
    × (1 < 3 → 0 < length page.items)
    × (length page.items ≤ min 25 25)
    × (page.next_offset ≡ offset_before 3 (1 + length page.items))
    × ((length page.items ≤ 1)
        ⊎ (json_size (candidate 1 (min 25 25) 3 page.items) ≤ max_reply_bytes))
metadata_page-right_example =
    metadata_page-right describe (λ path budget. (path, refl)) 0 json_size (returned (pos 1))
      (raised not_a_number) 1 25 paths read_offset read_limit (omega arith)
