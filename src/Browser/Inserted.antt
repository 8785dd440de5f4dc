-- ===== src/Browser/Inserted.antt =====
-- The place of a device that has been inserted.
use ohmic_bridge.Prelude.{
  ℕ, zero, suc, ◌+◌, ◌≤◌, ◌<◌, ◌≡◌, ◌≢◌, refl, sym, ap, ◌∙◌, ◌↔◌, inl, inr, true, false, Bool-cases,
  leb, some, List, [], ◌∷◌, ◌++◌, Text, text_eq_iff, length, length-append, arith, take, drop,
}
use ohmic_bridge.Browser.{texts_eq, without, inserted_from, find_inserted_device_index}

texts_eq_iff : (xs ys : List Text) → (texts_eq xs ys ≡ true) ↔ (xs ≡ ys)
unfolding texts_eq
texts_eq_iff [] [] = ground arith
texts_eq_iff [] (y ∷ ys) = ground arith
texts_eq_iff (x ∷ xs) [] = ground arith
texts_eq_iff (x ∷ xs) (y ∷ ys) = ground (arith, texts_eq_iff xs ys, text_eq_iff x y)

-- An index that is found is the first at which the removal gives the list before.
inserted_from-first :
    (before after : List Text) (i n k : ℕ)
    → i ≤ k
    → k < i + n
    → without after k ≡ before
    → (j : ℕ) × (inserted_from before after i n ≡ some j) × (j ≤ k) × (without after j ≡ before)
unfolding inserted_from
inserted_from-first before after i zero k low high h = absurd (omega arith)
inserted_from-first before after i (suc n) k low high h =
    elim (Bool-cases (texts_eq (without after i) before)) [
      | inl here ↦ (i, rw here refl, low, (texts_eq_iff (without after i) before).0 here)
      | inr other ↦
          let apart : i ≢ k = λ p.
            cc (sym other ∙ (texts_eq_iff (without after i) before).1 (ap (without after) p ∙ h)) in
          let behind : i + 1 ≤ k = ground (arith, low, apart) in
          let (j, found, less, right) =
            inserted_from-first before after (i + 1) n k behind (omega arith) h in
          (j, rw other found, less, right)
    ]

inserted_from-right :
    (before after : List Text) (i n : ℕ) {j : ℕ}
    → inserted_from before after i n ≡ some j
    → without after j ≡ before
unfolding inserted_from
inserted_from-right before after i zero e = cc
inserted_from-right before after i (suc n) {j} e =
    elim (Bool-cases (texts_eq (without after i) before)) [
      | inl here ↦
          let same : i ≡ j = ground (arith, e, here) in
          ap (without after) (sym same) ∙ (texts_eq_iff (without after i) before).0 here
      | inr other ↦ inserted_from-right before after (i + 1) n {j = j} (ground (arith, e, other))
    ]

without-middle :
    (front back : List Text) (x : Text) → without (front ++ x ∷ back) (length front) ≡ front ++ back
without-middle [] back x = refl
without-middle (y ∷ front) back x =
    let next : suc (length front) + 1 ≡ suc (length front + 1) = omega arith in
    ap (λ n. y ∷ (take (length front) (front ++ x ∷ back) ++ drop n (y ∷ (front ++ x ∷ back)))) next
    ∙ ap (λ l. y ∷ l) (without-middle front back x)

-- The index that is found, if there is one, is right: without the device there the list is as it was
-- before. If one device has been inserted anywhere, an index is found, not behind that place, and
-- removing the device there gives the list before.
pub find_inserted_device_index-right :
    ((before after : List Text) (j : ℕ)
      → find_inserted_device_index before after ≡ some j
      → without after j ≡ before)
    × ((front back : List Text) (x : Text)
        → (j : ℕ) × (find_inserted_device_index (front ++ back) (front ++ x ∷ back) ≡ some j)
          × (j ≤ length front)
          × (without (front ++ x ∷ back) j ≡ front ++ back))
unfolding find_inserted_device_index
find_inserted_device_index-right = (
  λ before after j e. elim (Bool-cases (leb (length after) (length before))) [
    | inl shorter ↦ absurd (ground (arith, e, shorter))
    | inr longer ↦
        inserted_from-right before after 0 (length after) {j = j} (ground (arith, e, longer))
  ],
  λ front back x.
      let longer : leb (length (front ++ x ∷ back)) (length (front ++ back)) ≡ false =
        ground (arith, length-append front (x ∷ back), length-append front back) in
      let (j, found, less, right) =
        inserted_from-first (front ++ back) (front ++ x ∷ back) 0 (length (front ++ x ∷ back))
          (length front) (omega arith) (omega (arith, length-append front (x ∷ back)))
          (without-middle front back x) in
      (j, rw longer found, less, right),
)
