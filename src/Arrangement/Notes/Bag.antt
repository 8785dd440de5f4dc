-- ===== src/Arrangement/Notes/Bag.antt =====
-- The signature of a clip's notes stands for the bag of their rows.
use mathlib.Core.List.{Perm}
use mathlib.Core.List.Perm
use ohmic_bridge.Prelude.{
  ◌≡◌, ◌↔◌, refl, sym, ap, ◌∙◌, false, List, [], ◌∷◌, ◌++◌, Text, arith, length, length-append,
  returned, subst,
}
use ohmic_bridge.Prelude.Order.{
  WeakOrder, IsTotal, lex, int-IsTotal, text-IsTotal, sort, int_order, text_order, by,
}
use ohmic_bridge.Prelude.Order.Sorting.{sort-eq_of_perm, sort-perm, length-sort}
use ohmic_bridge.Decimal.{decimal}
use ohmic_bridge.Arrangement.Rows.{Float}
use ohmic_bridge.Arrangement.Notes.{
  NoteRow, row_order, by_start, by_duration, by_velocity, by_mute, NoteObject, read_rows,
  rows_signature, signature_of_notes,
}

lex-false {ℓ} :
    {A : Type ℓ} (o p : WeakOrder A) (a b : A)
    → lex o.lt p.lt a b ≡ false
    → lex o.lt p.lt b a ≡ false
    → (o.lt a b ≡ false) × (o.lt b a ≡ false) × (p.lt a b ≡ false) × (p.lt b a ≡ false)
lex-false o p a b h k = (ground arith, ground arith, ground arith, ground arith)

row-IsTotal : IsTotal row_order
row-IsTotal a b h k =
    let (p, p', h1, k1) = lex-false (by (λ r. r.pitch) int_order) by_start a b h k in
    let (s, s', h2, k2) = lex-false (by (λ r. r.start_time) text_order) by_duration a b h1 k1 in
    let (d, d', h3, k3) = lex-false (by (λ r. r.duration) text_order) by_velocity a b h2 k2 in
    let (v, v', h4, k4) = lex-false (by (λ r. r.velocity) int_order) by_mute a b h3 k3 in
    let (m, m', q, q') =
      lex-false (by (λ r. r.mute) int_order) (by (λ r. r.probability) text_order) a b h4 k4 in
    ground (
      arith,
      int-IsTotal a.pitch b.pitch p p',
      text-IsTotal a.start_time b.start_time s s',
      text-IsTotal a.duration b.duration d d',
      int-IsTotal a.velocity b.velocity v v',
      int-IsTotal a.mute b.mute m m',
      text-IsTotal a.probability b.probability q q',
    )

rows-set : IsSet (List NoteRow)
rows-set = hlevel

length-eq_suffix : (xs ys s t : Text) → length s ≡ length t → xs ++ s ≡ ys ++ t → s ≡ t
length-eq_suffix [] [] s t e h = h
length-eq_suffix [] (y ∷ ys) s t e h =
    absurd (omega (arith, ap length h, e, length-append (y ∷ ys) t))
length-eq_suffix (x ∷ xs) [] s t e h =
    absurd (omega (arith, ap length h, e, length-append (x ∷ xs) s))
length-eq_suffix (x ∷ xs) (y ∷ ys) s t e h = length-eq_suffix xs ys s t e (ground (arith, h))

returned-injective : {s t : Text} → returned s ≡ returned t → s ≡ t
returned-injective h = ground (arith, h)

module _ (digest : List NoteRow → Text)
    (sixteen : (rows : List NoteRow) → length (digest rows) ≡ 16) where
  empty_or_not :
      (row : NoteRow) (rows : List NoteRow)
      → rows_signature digest [] ≡ rows_signature digest (row ∷ rows)
      → ⊥
  unfolding rows_signature
  empty_or_not row rows h =
      let d = digest (sort row_order (row ∷ rows)) in
      let n = decimal (length (row ∷ rows)) in
      omega (arith, ap length h, length-append n (b':' ∷ d), sixteen (sort row_order (row ∷ rows)))

  equal_digests :
      (x y : NoteRow) (xs ys : List NoteRow)
      → rows_signature digest (x ∷ xs) ≡ rows_signature digest (y ∷ ys)
      → digest (sort row_order (x ∷ xs)) ≡ digest (sort row_order (y ∷ ys))
  unfolding rows_signature
  equal_digests x y xs ys h =
      let d = digest (sort row_order (x ∷ xs)) in
      let e = digest (sort row_order (y ∷ ys)) in
      let n = decimal (length (x ∷ xs)) in
      let m = decimal (length (y ∷ ys)) in
      let same : b':' ∷ d ≡ b':' ∷ e =
        length-eq_suffix n m (b':' ∷ d) (b':' ∷ e)
          (omega (arith, sixteen (sort row_order (x ∷ xs)), sixteen (sort row_order (y ∷ ys)))) h in
      ground (arith, same)

  perm-signature :
      (xs ys : List NoteRow) → Perm xs ys → rows_signature digest xs ≡ rows_signature digest ys
  unfolding rows_signature
  perm-signature [] [] p = refl
  perm-signature [] (y ∷ ys) p = cc (Perm.nil-eq p)
  perm-signature (x ∷ xs) [] p = cc (Perm.eq-nil p)
  perm-signature (x ∷ xs) (y ∷ ys) p =
      let sorted : sort row_order (x ∷ xs) ≡ sort row_order (y ∷ ys) =
        sort-eq_of_perm row_order row-IsTotal rows-set (x ∷ xs) (y ∷ ys) p in
      let same_length : length (x ∷ xs) ≡ length (y ∷ ys) =
        sym (length-sort row_order (x ∷ xs)) ∙ ap length sorted ∙ length-sort row_order (y ∷ ys) in
      ap (λ n. decimal n ++ b':' ∷ digest (sort row_order (x ∷ xs))) same_length
      ∙ ap (λ l. decimal (length (y ∷ ys)) ++ b':' ∷ digest l) sorted

  signature-perm :
      (xs ys : List NoteRow)
      → (digest (sort row_order xs) ≡ digest (sort row_order ys)
          → sort row_order xs ≡ sort row_order ys)
      → rows_signature digest xs ≡ rows_signature digest ys
      → Perm xs ys
  signature-perm [] [] distinct h = Perm.rfl
  signature-perm [] (y ∷ ys) distinct h = absurd (empty_or_not y ys h)
  signature-perm (x ∷ xs) [] distinct h = absurd (empty_or_not x xs (sym h))
  signature-perm (x ∷ xs) (y ∷ ys) distinct h =
      Perm.trans (Perm.symm (sort-perm row_order (x ∷ xs))) (
        subst (λ l. Perm l (y ∷ ys)) (sym (distinct (equal_digests x y xs ys h)))
          (sort-perm row_order (y ∷ ys)))

  -- Two clips whose notes can all be read, if the digest has 16 characters and does not collide on the two
  -- sorted lists of rows: their signatures are the same exactly if the rows of the one are those of the
  -- other, as often and in any order.
  pub signature_of_notes_iff :
      (six_decimals : Float → Text) (notes others : List NoteObject)
      (rows other_rows : List NoteRow)
      → read_rows six_decimals notes ≡ returned rows
      → read_rows six_decimals others ≡ returned other_rows
      → (digest (sort row_order rows) ≡ digest (sort row_order other_rows)
          → sort row_order rows ≡ sort row_order other_rows)
      → (signature_of_notes digest six_decimals (returned notes)
          ≡ signature_of_notes digest six_decimals (returned others))
        ↔ Perm rows other_rows
  unfolding signature_of_notes
  signature_of_notes_iff six_decimals notes others rows other_rows read read_others distinct = (
    λ h. signature-perm rows other_rows distinct (returned-injective (rw (read, read_others) at h)),
    λ p. rw (read, read_others) (ap (λ t. returned t) (perm-signature rows other_rows p)),
  )
