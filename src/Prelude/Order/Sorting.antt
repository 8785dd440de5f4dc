-- ===== src/Prelude/Order/Sorting.antt =====
-- Sorting does not depend on the order of the list, and loses nothing.
use mathlib.Core.Logic.{∥∥₁_elim}
use mathlib.Core.List.{Perm, Permᴰ}
use mathlib.Core.List.Perm
use ohmic_bridge.Prelude.{
  ◌≡◌, refl, sym, ap, ◌∙◌, inl, inr, true, false, Bool-cases, List, [], ◌∷◌, length, suc, arith,
}
use ohmic_bridge.Prelude.Order.{WeakOrder, IsTotal, insert, sort}

module _ {ℓ} {A : Type ℓ} (o : WeakOrder A) (total : IsTotal o) where
  insert_below : (x y : A) (ys : List A) → o.lt y x ≡ true → insert o x (y ∷ ys) ≡ y ∷ insert o x ys
  unfolding insert
  insert_below x y ys h = rw h refl

  insert_above : (x y : A) (ys : List A) → o.lt y x ≡ false → insert o x (y ∷ ys) ≡ x ∷ y ∷ ys
  unfolding insert
  insert_above x y ys h = rw h refl

  insert-nil : (x : A) → insert o x [] ≡ x ∷ []
  unfolding insert
  insert-nil x = refl

  -- Two insertions, the smaller or equal one first.
  insert_ordered :
      (x y : A) (l : List A)
      → o.lt x y ≡ true
      → insert o x (insert o y l) ≡ insert o y (insert o x l)
  insert_ordered x y [] h =
      rw (insert-nil x, insert-nil y, insert_above x y [] (o.asym x y h), insert_below y x [] h)
        (ap (λ l. x ∷ l) (sym (insert-nil y)))
  insert_ordered x y (z ∷ l) h = elim (Bool-cases (o.lt z x)) [
    | inl below_x ↦
        let below_y : o.lt z y ≡ true = ground (arith, o.split z x y, o.split z y x, o.asym x y) in
        rw
          (
            insert_below y z l below_y,
            insert_below x z l below_x,
            insert_below x z (insert o y l) below_x,
            insert_below y z (insert o x l) below_y,
          )
          (ap (λ m. z ∷ m) (insert_ordered x y l h))
    | inr above_x ↦ elim (Bool-cases (o.lt z y)) [
      | inl below_y ↦
          rw
            (
              insert_below y z l below_y,
              insert_above x z l above_x,
              insert_above x z (insert o y l) above_x,
              insert_below y x (z ∷ l) h,
              insert_below y z l below_y,
            )
            refl
      | inr above_y ↦
          rw
            (
              insert_above y z l above_y,
              insert_above x z l above_x,
              insert_above x y (z ∷ l) (o.asym x y h),
              insert_below y x (z ∷ l) h,
              insert_above y z l above_y,
            )
            refl
    ]
  ]

  pub insert_comm : (x y : A) (l : List A) → insert o x (insert o y l) ≡ insert o y (insert o x l)
  insert_comm x y l = elim (Bool-cases (o.lt x y)) [
    | inl below ↦ insert_ordered x y l below
    | inr not_below ↦ elim (Bool-cases (o.lt y x)) [
      | inl above ↦ sym (insert_ordered y x l above)
      | inr not_above ↦
          ap (λ z. insert o z (insert o y l)) (total x y not_below not_above)
          ∙ ap (λ z. insert o y (insert o z l)) (sym (total x y not_below not_above))
    ]
  ]

  sort-eq_by_moves : {xs ys : List A} → Permᴰ xs ys → sort o xs ≡ sort o ys
  unfolding sort
  sort-eq_by_moves Permᴰ.nil = refl
  sort-eq_by_moves (Permᴰ.cons {a = a} {l₂ = l} e d) =
      ap (insert o a) (sort-eq_by_moves d) ∙ ap (λ z. insert o z (sort o l)) e
  sort-eq_by_moves (Permᴰ.swap {a = a} {b = b} {a' = a'} {l = l} e f) =
      insert_comm a b (sort o l)
      ∙ ap (λ z. insert o z (insert o a (sort o l))) f
      ∙ ap (λ z. insert o a' (insert o z (sort o l))) e
  sort-eq_by_moves (Permᴰ.trans d e) = sort-eq_by_moves d ∙ sort-eq_by_moves e

  -- Two orders of one list are sorted into the same list.
  pub sort-eq_of_perm : IsSet (List A) → (xs ys : List A) → Perm xs ys → sort o xs ≡ sort o ys
  sort-eq_of_perm set xs ys p =
      ∥∥₁_elim p (set (sort o xs) (sort o ys)) (λ moves. sort-eq_by_moves moves)

module _ {ℓ} {A : Type ℓ} (o : WeakOrder A) where
  insert-perm : (x : A) (l : List A) → Perm (insert o x l) (x ∷ l)
  unfolding insert
  insert-perm x [] = Perm.rfl
  insert-perm x (y ∷ l) = elim (Bool-cases (o.lt y x)) [
    | inl below ↦ rw below (Perm.trans (Perm.cons y (insert-perm x l)) (Perm.swap x y l))
    | inr above ↦ rw above Perm.rfl
  ]

  -- Sorting only moves.
  pub sort-perm : (l : List A) → Perm (sort o l) l
  unfolding sort
  sort-perm [] = Perm.rfl
  sort-perm (x ∷ l) = Perm.trans (insert-perm x (sort o l)) (Perm.cons x (sort-perm l))

  length-insert : (x : A) (l : List A) → length (insert o x l) ≡ suc (length l)
  unfolding insert
  length-insert x [] = refl
  length-insert x (y ∷ l) = ground (arith, length-insert x l)

  pub length-sort : (l : List A) → length (sort o l) ≡ length l
  unfolding sort
  length-sort [] = refl
  length-sort (x ∷ l) = length-insert x (sort o l) ∙ ap suc (length-sort l)
