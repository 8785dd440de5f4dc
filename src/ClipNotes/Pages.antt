-- ===== src/ClipNotes/Pages.antt =====
-- The pages of a clip's notes: each is served by its index, and together they are all the notes.
use ohmic_bridge.Prelude.{
  ℕ, zero, suc, ◌+◌, ◌*◌, ◌≤◌, ◌<◌, ◌≡◌, refl, sym, ap, ap₂, subst, ◌∙◌, ◌⊎◌, get_elem?, ◌-◌, inl,
  inr, Bool-cases, leb, le→leb, leb→le, none, some, List, [], ◌∷◌, ◌++◌, arith, concat, length,
  take, drop, length-take, Outcome, returned, raised, >>=-eq-returned,
}
use ohmic_bridge.Prelude.Int.{ℤ, pos, negsuc}
use ohmic_bridge.ClipNotes.{
  max_notes_per_page, Param, LiveNote, NoteFields, Window, page_outside, count_pages, page_of,
  in_range, read_request, read_page_index, read_note, read_notes, param_values, page_reply,
  paged_notes_reply,
}

module _ {N : Type 0} where
  -- `n` pages from page `i` on.
  abbrev pub pages_from : List N → ℕ → ℕ → List (List N)
  pages_from notes i zero = []
  pages_from notes i (suc n) = page_of notes i ∷ pages_from notes (i + 1) n

  take-nil : (n : ℕ) → take {A = N} n [] ≡ []
  take-nil zero = refl
  take-nil (suc n) = refl

  drop-nil : (n : ℕ) → drop {A = N} n [] ≡ []
  drop-nil zero = refl
  drop-nil (suc n) = refl

  drop-drop : (a b : ℕ) (xs : List N) → drop a (drop b xs) ≡ drop (b + a) xs
  drop-drop a zero xs = ap (λ n. drop n xs) (omega arith)
  drop-drop a (suc b) [] = drop-nil a ∙ sym (drop-nil (suc b + a))
  drop-drop a (suc b) (x ∷ xs) =
      let next : suc (b + a) ≡ suc b + a = omega arith in
      drop-drop a b xs ∙ ap (λ n. drop n (x ∷ xs)) next

  take-take : (a b : ℕ) (xs : List N) → take a xs ++ take b (drop a xs) ≡ take (a + b) xs
  take-take zero b xs = ap (λ n. take n xs) (omega arith)
  take-take (suc a) b [] = take-nil b ∙ sym (take-nil (suc a + b))
  take-take (suc a) b (x ∷ xs) =
      let next : suc (a + b) ≡ suc a + b = omega arith in
      ap (λ l. x ∷ l) (take-take a b xs) ∙ ap (λ n. take n (x ∷ xs)) next

  take-all : (n : ℕ) (xs : List N) → length xs ≤ n → take n xs ≡ xs
  take-all zero [] h = refl
  take-all zero (x ∷ xs) h = absurd (omega arith)
  take-all (suc n) [] h = refl
  take-all (suc n) (x ∷ xs) h = ap (λ l. x ∷ l) (take-all n xs (omega arith))

  concat-pages_from :
      (notes : List N) (i n : ℕ)
      → concat (pages_from notes i n)
        ≡ take (n * max_notes_per_page) (drop (i * max_notes_per_page) notes)
  unfolding page_of
  concat-pages_from notes i zero = refl
  concat-pages_from notes i (suc n) =
      let next : (i + 1) * 300 ≡ i * 300 + 300 = omega arith in
      let all : 300 + n * 300 ≡ suc n * 300 = omega arith in
      ap (λ l. take 300 (drop (i * 300) notes) ++ l)
        (concat-pages_from notes (i + 1) n
          ∙ ap (λ k. take (n * 300) (drop k notes)) next
          ∙ ap (take (n * 300)) (sym (drop-drop 300 (i * 300) notes)))
      ∙ take-take 300 (n * 300) (drop (i * 300) notes)
      ∙ ap (λ k. take k (drop (i * 300) notes)) all

enough_pages : (total : ℕ) → total ≤ count_pages total * 300
unfolding count_pages
enough_pages total = omega arith

-- All the pages, one behind the other, are all the notes; and there is a page for no more than that.
pub concat-pages :
    {N : Type 0} (notes : List N) → concat (pages_from notes 0 (count_pages (length notes))) ≡ notes
concat-pages notes =
    concat-pages_from notes 0 (count_pages (length notes))
    ∙ take-all (count_pages (length notes) * 300) notes (enough_pages (length notes))

module _ {N : Type 0} where
  length-pages_from : (notes : List N) (i n : ℕ) → length (pages_from notes i n) ≡ n
  length-pages_from notes i zero = refl
  length-pages_from notes i (suc n) = ap suc (length-pages_from notes (i + 1) n)

  pages_from-at :
      (notes : List N) (first n i : ℕ) {page : List N}
      → get_elem? (pages_from notes first n) i ≡ some page
      → (i < n) × (page ≡ page_of notes (first + i))
  pages_from-at notes first zero i h = absurd (cc h)
  pages_from-at notes first (suc n) zero {page} h =
      let here : page_of notes first ≡ page = ground (arith, h) in
      let same : first ≡ first + 0 = omega arith in
      (omega arith, sym here ∙ ap (page_of notes) same)
  pages_from-at notes first (suc n) (suc i) h =
      let (less, is_page) = pages_from-at notes (first + 1) n i h in
      let same : first + 1 + i ≡ first + suc i = omega arith in
      (omega (arith, less), is_page ∙ ap (page_of notes) same)

  short_page : (notes : List N) (i : ℕ) → length (page_of notes i) ≤ 300
  unfolding page_of
  short_page notes i = omega (arith, length-take 300 (drop (i * 300) notes))

-- There is a page, and no page could be spared.
count_pages-least :
    (total : ℕ)
    → (1 ≤ count_pages total) × ((count_pages total ≡ 1) ⊎ ((count_pages total - 1) * 300 < total))
unfolding count_pages
count_pages-least total = (omega arith, ground arith)

inside : (i n : ℕ) → i < n → in_range (pos i) n ≡ some i
unfolding in_range
inside i n h = elim (Bool-cases (leb n i)) [
  | inl above ↦ absurd (ground (arith, leb→le n i above))
  | inr below ↦ rw below refl
]

outside : (i n : ℕ) → n ≤ i → in_range (pos i) n ≡ none
unfolding in_range
outside i n h = rw (le→leb n i h) refl

module _ {V : Type 0} (default : V) where
  read_notes-drop :
      (n : ℕ) (notes : List (LiveNote V)) {fields : List (NoteFields V)}
      → read_notes default notes ≡ returned fields
      → read_notes default (drop n notes) ≡ returned (drop n fields)
  unfolding read_notes
  read_notes-drop zero notes h = h
  read_notes-drop (suc n) [] {fields} h =
      let nothing : [] ≡ fields = ground (arith, h) in ap (λ l. returned (drop (suc n) l)) nothing
  read_notes-drop (suc n) (note ∷ notes) {fields} h =
      let (first, e1, p1) = >>=-eq-returned (read_note default note) _ h in
      let (others, e2, p2) = >>=-eq-returned (read_notes default notes) _ p1 in
      let whole : first ∷ others ≡ fields = ground (arith, p2) in
      read_notes-drop n notes e2 ∙ ap (λ l. returned (drop (suc n) l)) whole

  read_notes-take :
      (n : ℕ) (notes : List (LiveNote V)) {fields : List (NoteFields V)}
      → read_notes default notes ≡ returned fields
      → read_notes default (take n notes) ≡ returned (take n fields)
  unfolding read_notes
  read_notes-take zero notes h = refl
  read_notes-take (suc n) [] {fields} h =
      let nothing : [] ≡ fields = ground (arith, h) in ap (λ l. returned (take (suc n) l)) nothing
  read_notes-take (suc n) (note ∷ notes) {fields} h =
      let (first, e1, p1) = >>=-eq-returned (read_note default note) _ h in
      let (others, e2, p2) = >>=-eq-returned (read_notes default notes) _ p1 in
      let whole : first ∷ others ≡ fields = ground (arith, p2) in
      rw (e1, read_notes-take n notes e2) (ap (λ l. returned (take (suc n) l)) whole)

  page_reply-page :
      (params : List (Param V)) (notes : List (LiveNote V)) (fields : List (NoteFields V)) (i : ℕ)
      → read_notes default notes ≡ returned fields
      → page_reply default params notes (some i)
        ≡ returned (record {
          echo = param_values params;
          page_count = count_pages (length notes);
          total_notes = length notes;
          notes = page_of fields i;
        })
  unfolding page_reply page_of
  page_reply-page params notes fields i h =
      rw (read_notes-take 300 (drop (i * 300) notes) (read_notes-drop (i * 300) notes h)) refl

  length-read_notes :
      (notes : List (LiveNote V)) {fields : List (NoteFields V)}
      → read_notes default notes ≡ returned fields
      → length fields ≡ length notes
  unfolding read_notes
  length-read_notes [] {fields} h =
      let nothing : [] ≡ fields = ground (arith, h) in ap length (sym nothing)
  length-read_notes (note ∷ notes) {fields} h =
      let (first, e1, p1) = >>=-eq-returned (read_note default note) _ h in
      let (others, e2, p2) = >>=-eq-returned (read_notes default notes) _ p1 in
      let whole : first ∷ others ≡ fields = ground (arith, p2) in
      ap length (sym whole) ∙ ap suc (length-read_notes notes e2)

  module _ (get_notes_extended : Window V → Outcome (List (LiveNote V))) (span : ℕ) where
    -- The reply to a request is a page of a clip with `n` pages and `total` notes.
    abbrev pub Serves : List (Param V) → ℕ → ℕ → List (NoteFields V) → Type 0
    Serves params n total page =
        (paged_notes_reply get_notes_extended default span params
          ≡ returned (record {
            echo = param_values params;
            page_count = n;
            total_notes = total;
            notes = page;
          }))
        × (length page ≤ 300)

    -- A client asks for the pages of a clip, whose notes in the window can all be read, by the index of
    -- each. Then there are pages that are, one behind the other, exactly the fields of all the notes: as
    -- many pages as every reply tells, at least one, and none that could be spared. The reply to an index
    -- below that number is the page at the index, with at most 300 notes and the count of all notes, and
    -- any other index, also a negative one, raises the `ValueError` for a page outside the pages.
    pub paged_notes_reply-pages :
        (ask : ℤ → List (Param V)) (asked : Window V) (index : ℤ → Param V)
        (notes : List (LiveNote V)) (fields : List (NoteFields V))
        → ((i : ℤ) → read_request span (ask i) ≡ returned (asked, some (index i)))
        → ((i : ℤ) → (index i).as_int ≡ returned i)
        → get_notes_extended asked ≡ returned notes
        → read_notes default notes ≡ returned fields
        → (pages : List (List (NoteFields V))) × (concat pages ≡ fields)
          × (1 ≤ length pages)
          × ((length pages ≡ 1) ⊎ ((length pages - 1) * 300 < length notes))
          × ((i : ℕ) (page : List (NoteFields V))
              → get_elem? pages i ≡ some page
              → Serves (ask (pos i)) (length pages) (length notes) page)
          × ((i : ℕ)
              → length pages ≤ i
              → paged_notes_reply get_notes_extended default span (ask (pos i))
                ≡ raised page_outside)
          × ((n : ℕ)
              → paged_notes_reply get_notes_extended default span (ask (negsuc n))
                ≡ raised page_outside)
    unfolding paged_notes_reply read_page_index
    paged_notes_reply-pages ask asked index notes fields request reads found readable =
        let n = count_pages (length notes) in
        let pages = pages_from fields 0 n in
        let total : length fields ≡ length notes = length-read_notes notes readable in
        let many : length pages ≡ n = length-pages_from fields 0 n in
        (
          pages,
          ap (λ k. concat (pages_from fields 0 (count_pages k))) (sym total) ∙ concat-pages fields,
          subst (λ k. 1 ≤ k) (sym many) (count_pages-least (length notes)).0,
          subst (λ k. (k ≡ 1) ⊎ ((k - 1) * 300 < length notes)) (sym many)
              (count_pages-least (length notes)).1,
          λ i page at.
              let (below, placed) = pages_from-at fields 0 n i at in
              let front : 0 + i ≡ i = omega arith in
              let is_page = placed ∙ ap (page_of fields) front in
              (
                rw (request (pos i), reads (pos i), found)
                    (ap (page_reply default (ask (pos i)) notes) (inside i n below)
                      ∙ page_reply-page (ask (pos i)) notes fields i readable
                      ∙ ap₂
                          (λ k l. returned (record {
                            echo = param_values (ask (pos i));
                            page_count = k;
                            total_notes = length notes;
                            notes = l;
                          }))
                          (sym many) (sym is_page)),
                subst (λ l. length l ≤ 300) (sym is_page) (short_page fields i),
              ),
          λ i above.
              rw (request (pos i), reads (pos i), found)
                (ap (page_reply default (ask (pos i)) notes)
                    (outside i n (subst (λ k. k ≤ i) many above))
                  ∙ nowhere (ask (pos i))),
          λ k.
              rw (request (negsuc k), reads (negsuc k), found)
                (unfold in_range in nowhere (ask (negsuc k))),
        )
      where
        nowhere :
            (params : List (Param V)) → page_reply default params notes none ≡ raised page_outside
        nowhere params = unfold page_reply in refl
