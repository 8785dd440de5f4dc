-- ===== src/Json/Size.antt =====
-- How long the texts of `json.dumps` are.
use ohmic_bridge.Prelude.{
  ℕ, ◌+◌, ◌≡◌, refl, List, [], ◌∷◌, ◌++◌, map, arith, Text, length, length-append,
}
use ohmic_bridge.Json.{Style, json_str, json_array, json_object, member, join, more}

abbrev pub member_size : Style → Text × Text → ℕ
member_size st e = length st.item_sep + length (json_str e.0) + length st.key_sep + length e.1

-- The members of an object, a separator counted for each.
abbrev pub members_size : Style → List (Text × Text) → ℕ
members_size st [] = 0
members_size st (e ∷ m) = member_size st e + members_size st m

pub length-member :
    (st : Style) (e : Text × Text) → length st.item_sep + length (member st e) ≡ member_size st e
unfolding member
length-member st e =
    omega (arith, length-append (json_str e.0) (st.key_sep ++ e.1), length-append st.key_sep e.1)

pub length-more :
    (st : Style) (m : List (Text × Text))
    → length (more st.item_sep (map (member st) m)) ≡ members_size st m
unfolding more
length-more st [] = refl
length-more st (e ∷ m) = omega (
  arith,
  length-append st.item_sep (member st e ++ more st.item_sep (map (member st) m)),
  length-append (member st e) (more st.item_sep (map (member st) m)),
  length-member st e,
  length-more st m,
)

-- The separator that the first member does not have.
abbrev pub first_sep : Style → List (Text × Text) → ℕ
first_sep st [] = 0
first_sep st (e ∷ m) = length st.item_sep

-- An object is two braces and its members, one separator less than they are.
pub length-json_object :
    (st : Style) (m : List (Text × Text))
    → length (json_object st m) + first_sep st m ≡ 2 + members_size st m
unfolding json_object join
length-json_object st [] = refl
length-json_object st (e ∷ m) = omega (
  arith,
  length-append (member st e ++ more st.item_sep (map (member st) m)) (b'}' ∷ []),
  length-append (member st e) (more st.item_sep (map (member st) m)),
  length-member st e,
  length-more st m,
)

-- The items of an array, a separator counted for each.
abbrev pub items_size : Style → List Text → ℕ
items_size st [] = 0
items_size st (x ∷ xs) = length st.item_sep + length x + items_size st xs

length-more_items : (st : Style) (xs : List Text) → length (more st.item_sep xs) ≡ items_size st xs
unfolding more
length-more_items st [] = refl
length-more_items st (x ∷ xs) = omega (
  arith,
  length-append st.item_sep (x ++ more st.item_sep xs),
  length-append x (more st.item_sep xs),
  length-more_items st xs,
)

-- An array with an item is two brackets and its items, one separator less than they are.
pub length-json_array :
    (st : Style) (x : Text) (xs : List Text)
    → length (json_array st (x ∷ xs)) + length st.item_sep ≡ 2 + items_size st (x ∷ xs)
unfolding json_array join
length-json_array st x xs = omega (
  arith,
  length-append (x ++ more st.item_sep xs) (b']' ∷ []),
  length-append x (more st.item_sep xs),
  length-more_items st xs,
)

pub length-json_array_nil : (st : Style) → length (json_array st []) ≡ 2
unfolding json_array join
length-json_array_nil st = refl
