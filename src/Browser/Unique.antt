-- ===== src/Browser/Unique.antt =====
-- Extending a list without duplicates.
use ohmic_bridge.Prelude.{
  ◌≡◌, refl, sym, ap, ◌∙◌, inl, inr, true, false, ◌||◌, Bool-cases, List, [], ◌∷◌, ◌++◌,
  append_assoc, append-nil, Text, text_eq, text_eq_iff, arith,
}
use ohmic_bridge.Browser.{contains, extend_unique}

-- No text stands twice.
abbrev pub IsUnique : List Text → Type 0
IsUnique [] = Unit
IsUnique (x ∷ xs) = (contains xs x ≡ false) × IsUnique xs

contains-append :
    (xs ys : List Text) (item : Text)
    → contains (xs ++ ys) item ≡ (contains xs item || contains ys item)
unfolding contains
contains-append [] ys item = refl
contains-append (x ∷ xs) ys item = ground (arith, contains-append xs ys item)

text_eq_comm : (s t : Text) → text_eq s t ≡ text_eq t s
unfolding text_eq
text_eq_comm [] [] = refl
text_eq_comm [] (d ∷ t) = refl
text_eq_comm (c ∷ s) [] = refl
text_eq_comm (c ∷ s) (d ∷ t) = ground (arith, text_eq_comm s t)

IsUnique-behind :
    (xs : List Text) (item : Text)
    → IsUnique xs
    → contains xs item ≡ false
    → IsUnique (xs ++ item ∷ [])
unfolding contains
IsUnique-behind [] item h fresh = (refl, tt)
IsUnique-behind (x ∷ xs) item h fresh = (
  ground (arith, h.0, fresh, contains-append xs (item ∷ []) x, text_eq_comm x item),
  IsUnique-behind xs item h.1 (ground (arith, fresh)),
)

-- A text that the results hold already adds nothing.
known_again :
    (results items : List Text) (item t : Text)
    → contains results item ≡ true
    → (contains results t || contains items t) ≡ (contains results t || contains (item ∷ items) t)
unfolding contains
known_again results items item t known = elim (Bool-cases (text_eq item t)) [
  | inl same ↦
      let held : contains results t ≡ true =
        ap (contains results) (sym ((text_eq_iff item t).0 same)) ∙ known in
      rw held refl
  | inr other ↦ rw other refl
]

-- `_extend_unique` keeps what the results hold at their front, and adds no text twice; behind it the
-- results hold exactly the texts that they or the items held.
pub extend_unique-IsUnique :
    (results items : List Text)
    → IsUnique results
    → IsUnique (extend_unique results items)
      × ((more : List Text) × (extend_unique results items ≡ results ++ more))
      × ((t : Text)
          → contains (extend_unique results items) t ≡ (contains results t || contains items t))
unfolding extend_unique contains
extend_unique-IsUnique results [] h = (h, ([], sym (append-nil results)), λ t. ground arith)
extend_unique-IsUnique results (item ∷ items) h = elim (Bool-cases (contains results item)) [
  | inl known ↦
      let (unique, more, same) = extend_unique-IsUnique results items h in
      rw known ((unique, more, λ t. same t ∙ known_again results items item t known))
  | inr fresh ↦
      let (unique, (more, whole), same) =
        extend_unique-IsUnique (results ++ item ∷ []) items
          (IsUnique-behind results item h fresh) in
      rw fresh (
        (
          unique,
          (item ∷ more, whole ∙ append_assoc results (item ∷ []) more),
          λ t. ground (arith, same t, contains-append results (item ∷ []) t),
        ))
]
