-- ===== src/Browser/Metadata/Pages.antt =====
-- The items of a page of metadata, and the offset of the next one.
use ohmic_bridge.Prelude.{
  ℕ, zero, suc, ◌+◌, ◌≤◌, ◌<◌, min, ◌≡◌, refl, length-drop, sym, ap, subst, ◌∙◌, ◌⊎◌, inl, inr,
  true, false, ◌==◌, ltb, ◌&&◌, not, if◌then◌else◌, Bool, Bool-cases, List, [], ◌∷◌, ◌++◌,
  append-nil, append_assoc, arith, length, take, drop, length-take, is_empty, Outcome, returned,
  ◌>>=◌, >>=-eq-returned,
}
use ohmic_bridge.Prelude.Int.{ℤ}
use ohmic_bridge.Constants.{max_reply_bytes}
use ohmic_bridge.Browser.Metadata.{
  max_metadata_page_limit, int_or, Page, candidate, fill, page_at, finish_page, offset_before,
  metadata_for_category_items,
}

take-take-le : {A : Type 0} (k l : ℕ) (xs : List A) → k ≤ l → take k (take l xs) ≡ take k xs
take-take-le zero l xs h = refl
take-take-le (suc k) zero xs h = absurd (omega arith)
take-take-le (suc k) (suc l) [] h = refl
take-take-le (suc k) (suc l) (x ∷ xs) h = ap (λ t. x ∷ t) (take-take-le k l xs (omega arith))

if-true : {A : Type 0} {b : Bool} → b ≡ true → (x y : A) → (if b then x else y) ≡ x
if-true h x y = rw h refl

if-false : {A : Type 0} {b : Bool} → b ≡ false → (x y : A) → (if b then x else y) ≡ y
if-false h x y = rw h refl

module _ {P I B : Type 0} (describe : P → B → Outcome I × B) where
  -- The items of paths, one after the other, with what is left for hashes.
  unfoldable pub describe_all : B → List P → Outcome (List I)
  describe_all budget [] = returned []
  describe_all budget (path ∷ rest) = (describe path budget).0 >>= λ item.
      describe_all (describe path budget).1 rest >>= λ items. returned (item ∷ items)

  module _ (size : List I → ℕ) where
    -- What is known of the items `more` that follow `shown`.
    Filled : List I → B → List P → List I → Type 0
    Filled shown budget paths more =
        (describe_all budget (take (length more) paths) ≡ returned more)
        × (length more ≤ length paths)
        × (shown ≡ [] → 0 < length paths → 0 < length more)
        × ((length (shown ++ more) ≤ 1) ⊎ (size (shown ++ more) ≤ max_reply_bytes))

    abbrev Fits : List I → Type 0
    Fits items = (length items ≤ 1) ⊎ (size items ≤ max_reply_bytes)

    next-Fits :
        (shown : List I) (item : I)
        → (ltb max_reply_bytes (size (shown ++ item ∷ [])) && not (is_empty shown)) ≡ false
        → Fits (shown ++ item ∷ [])
    next-Fits [] item h = inl (omega arith)
    next-Fits (x ∷ shown) item h =
        elim (Bool-cases (ltb max_reply_bytes (size (x ∷ shown ++ item ∷ [])))) [
          | inl over ↦ absurd (ground arith)
          | inr within ↦ inr (ground arith)
        ]

    stop-Filled :
        (shown : List I) (budget : B) (paths : List P)
        → (shown ≡ [] → 0 < length paths → ⊥)
        → Fits shown
        → Filled shown budget paths []
    unfolding Filled describe_all
    stop-Filled shown budget paths busy fits = (
      refl,
      omega arith,
      λ e below. absurd (busy e below),
      subst Fits (sym (append-nil shown)) fits,
    )

    go-Filled :
        (shown : List I) (budget : B) (path : P) (rest : List P) (item : I) (items : List I)
        → (describe path budget).0 ≡ returned item
        → Filled (shown ++ item ∷ []) (describe path budget).1 rest items
        → Filled shown budget (path ∷ rest) (item ∷ items)
    unfolding Filled describe_all
    go-Filled shown budget path rest item items first (described, below, next, fits) = (
      rw (first, described) refl,
      omega (arith, below),
      λ e some_path. omega arith,
      subst Fits (append_assoc shown (item ∷ []) items) fits,
    )

    full_cases :
        (shown : List I) (item : I)
        → (((ltb max_reply_bytes (size (shown ++ item ∷ [])) && not (is_empty shown)) ≡ true)
            × (shown ≡ [] → ⊥))
          ⊎ ((ltb max_reply_bytes (size (shown ++ item ∷ [])) && not (is_empty shown)) ≡ false)
    full_cases [] item = inr (elim (Bool-cases (ltb max_reply_bytes (size (item ∷ [])))) [
      | inl over ↦ rw over refl
      | inr within ↦ rw within refl
    ])
    full_cases (x ∷ shown) item =
        elim (Bool-cases (ltb max_reply_bytes (size (x ∷ shown ++ item ∷ [])))) [
          | inl over ↦ inl (rw over refl, λ e. cc)
          | inr within ↦ inr (rw within refl)
        ]

    fill-Filled :
        (shown : List I) (budget : B) (paths : List P) {more : List I}
        → Fits shown
        → fill describe size shown budget paths ≡ returned more
        → Filled shown budget paths more
    unfolding fill
    fill-Filled shown budget [] {more} fits h =
        let nothing : [] ≡ more = ground (arith, h) in
        subst (Filled shown budget []) nothing
          (stop-Filled shown budget [] (λ e below. omega (arith, below)) fits)
    fill-Filled shown budget (path ∷ rest) {more} fits h =
        let (item, e1, p1) = >>=-eq-returned (describe path budget).0 _ h in
        elim (full_cases shown item) [
          | inl (full, busy) ↦
              let nothing : [] ≡ more = ground (arith, sym (if-true full _ _) ∙ p1) in
              subst (Filled shown budget (path ∷ rest)) nothing
                (stop-Filled shown budget (path ∷ rest) (λ e below. busy e) fits)
          | inr room ↦
              let (items, e2, p2) =
                >>=-eq-returned
                  (fill describe size (shown ++ item ∷ []) (describe path budget).1 rest) _
                  (sym (if-false room _ _) ∙ p1) in
              let whole : item ∷ items ≡ more = ground (arith, p2) in
              subst (Filled shown budget (path ∷ rest)) whole (
                go-Filled shown budget path rest item items e1 (
                  fill-Filled (shown ++ item ∷ []) (describe path budget).1 rest
                    (next-Fits shown item room) e2))
        ]

module _ {P I B : Type 0} (describe : P → B → Outcome I × B)
    (describes : (path : P) (budget : B)
      → (item : I) × ((describe path budget).0 ≡ returned item)) where
  fill-returns :
      (size : List I → ℕ) (shown : List I) (budget : B) (paths : List P)
      → (items : List I) × (fill describe size shown budget paths ≡ returned items)
  unfolding fill
  fill-returns size shown budget [] = ([], refl)
  fill-returns size shown budget (path ∷ rest) =
      let (item, first) = describes path budget in
      let (items, others) = fill-returns size (shown ++ item ∷ []) (describe path budget).1 rest in
      elim (full_cases describe size shown item) [
        | inl (full, busy) ↦ ([], rw first (if-true full _ _))
        | inr room ↦ (
          item ∷ items,
          rw first (if-false room _ _ ∙ ap (λ m. m >>= λ l. returned (item ∷ l)) others),
        )
      ]

  module _ (fresh : B) (json_size : Page I → ℕ) where
    -- If every path can be described, then a request whose limit is read as a positive number returns a
    -- page. Its items are those of the paths from the offset on, one after the other, described with a
    -- fresh budget of bytes to hash; there is at least one if the offset is below the number of paths,
    -- and no more than the limit or 25. The next offset is that of the first path behind them, if there
    -- is one. Before the next offset is filled in, a page of more than one item takes at most
    -- `MAX_REPLY_BYTES` as JSON.
    pub metadata_page-right :
        (offset_arg limit_arg : Outcome ℤ) (offset limit : ℕ) (paths : List P)
        → int_or 0 offset_arg ≡ returned offset
        → int_or max_metadata_page_limit limit_arg ≡ returned limit
        → 0 < limit
        → (page : Page I) × (metadata_for_category_items describe fresh json_size offset_arg
              limit_arg paths
            ≡ returned page)
          × (describe_all describe fresh (take (length page.items) (drop offset paths))
              ≡ returned page.items)
          × (offset < length paths → 0 < length page.items)
          × (length page.items ≤ min limit 25)
          × (page.next_offset ≡ offset_before (length paths) (offset + length page.items))
          × ((length page.items ≤ 1)
              ⊎ (json_size (candidate offset (min limit 25) (length paths) page.items)
                  ≤ max_reply_bytes))
    unfolding metadata_for_category_items page_at Filled
    metadata_page-right offset_arg limit_arg offset limit paths read_offset read_limit positive =
        let size : List I → ℕ =
          λ items. json_size (candidate offset (min limit 25) (length paths) items) in
        let selected = take (min limit 25) (drop offset paths) in
        let (items, filled) = fill-returns size [] fresh selected in
        let (described, below, some_item, fits) =
          fill-Filled describe size [] fresh selected (inl (omega arith)) filled in
        let some_selected : offset < length paths → 0 < length selected = λ h.
          omega
            (arith, h, length-take (min limit 25) (drop offset paths), length-drop offset paths) in
        (
          finish_page offset (min limit 25) (length paths) items,
          rw (read_offset, read_limit)
              (if-false not_zero _ _
                ∙ ap (λ m. m >>= λ l. returned (finish_page offset (min limit 25) (length paths) l))
                    filled),
          ap (describe_all describe fresh) (
                sym (
                  take-take-le (length items) (min limit 25) (drop offset paths)
                    (omega (arith, below, length-take (min limit 25) (drop offset paths)))))
              ∙ described,
          λ h. some_item refl (some_selected h),
          omega (arith, below, length-take (min limit 25) (drop offset paths)),
          refl,
          fits,
        )
      where
        not_zero : (min limit 25 == 0) ≡ false
        not_zero = ground (arith, positive)
