-- ===== src/ClipGrid/Pages.antt =====
-- The pages of the grid hold every entry once, in order, and each fits into a reply.
use ohmic_bridge.Prelude.{
  ℕ, zero, suc, ◌+◌, ◌≤◌, ◌<◌, ◌≡◌, refl, sym, subst, ap, ◌∙◌, ◌⊎◌, inl, inr, false, Bool-cases,
  ◌&&◌, not, ltb, List, [], ◌∷◌, ◌++◌, append_assoc, append-nil, arith, All, All-append, concat,
  concat-append, Text, text_eq, text_eq_iff, length, get_elem?, is_empty, some,
}
use ohmic_bridge.Constants.{max_reply_bytes}
use ohmic_bridge.Decimal.{decimal, length-decimal_bound}
use ohmic_bridge.Json.{compact, json_str, json_object}
use ohmic_bridge.Json.Size.{members_size, member_size, length-json_object}
use ohmic_bridge.ClipGrid.{
  Entry, set_value, page_members, envelope_bytes, entry_bytes, Paging, page_step, page_loop,
  clip_grid_pages, page_clips, page_colors, page_json,
}

-- All that a state of the loop holds.
abbrev held : Paging → List Entry
held s = concat s.closed ++ s.page

held-step : (s : Paging) (e : Entry) → held (page_step s e) ≡ held s ++ e ∷ []
unfolding page_step
held-step s e =
    elim (Bool-cases
      (not (is_empty s.page) && ltb max_reply_bytes (s.budget_used + entry_bytes e))) [
        | inl full ↦ rw full (
            ap (λ l. l ++ e ∷ [])
              (concat-append s.closed (s.page ∷ [])
                ∙ ap (λ l. concat s.closed ++ l) (append-nil s.page)))
        | inr room ↦ rw room (sym (append_assoc (concat s.closed) s.page (e ∷ [])))
      ]

held-loop : (s : Paging) (entries : List Entry) → held (page_loop s entries) ≡ held s ++ entries
unfolding page_loop
held-loop s [] = sym (append-nil (held s))
held-loop s (e ∷ rest) =
    held-loop (page_step s e) rest
    ∙ ap (λ l. l ++ rest) (held-step s e)
    ∙ append_assoc (held s) (e ∷ []) rest

-- The pages, one behind the other, are the entries: none is lost, doubled or moved.
pub concat-clip_grid_pages : (entries : List Entry) → concat (clip_grid_pages entries) ≡ entries
unfolding clip_grid_pages
concat-clip_grid_pages entries =
    let s = page_loop (record { closed = []; page = []; budget_used = envelope_bytes }) entries in
    concat-append s.closed (s.page ∷ [])
    ∙ ap (λ l. concat s.closed ++ l) (append-nil s.page)
    ∙ held-loop (record { closed = []; page = []; budget_used = envelope_bytes }) entries

abbrev pub page_bytes : List Entry → ℕ
page_bytes [] = 0
page_bytes (e ∷ rest) = entry_bytes e + page_bytes rest

page_bytes-append :
    (es : List Entry) (e : Entry) → page_bytes (es ++ e ∷ []) ≡ page_bytes es + entry_bytes e
page_bytes-append [] e = omega arith
page_bytes-append (d ∷ es) e = omega (arith, page_bytes-append es e)

-- The estimate of a page, unless it has at most one entry.
abbrev pub PageFits : List Entry → Type 0
PageFits es = (envelope_bytes + page_bytes es ≤ max_reply_bytes) ⊎ (length es ≤ 1)

abbrev Sized : Paging → Type 0
Sized s =
    All PageFits s.closed × PageFits s.page × (s.budget_used ≡ envelope_bytes + page_bytes s.page)

joined :
    (page : List Entry) (e : Entry) (used : ℕ)
    → used ≡ envelope_bytes + page_bytes (page ++ e ∷ [])
    → (not (is_empty page) && ltb max_reply_bytes used) ≡ false
    → PageFits (page ++ e ∷ [])
joined [] e used h room = inr (omega arith)
joined (d ∷ page) e used h room = inl (ground (arith, h))

Sized-step : (s : Paging) (e : Entry) → Sized s → Sized (page_step s e)
unfolding page_step
Sized-step s e (closed, page, used) =
    elim (Bool-cases
      (not (is_empty s.page) && ltb max_reply_bytes (s.budget_used + entry_bytes e))) [
        | inl full ↦ rw full (
            (
              All-append PageFits s.closed (s.page ∷ []) closed (page, tt),
              inr (omega arith),
              omega arith,
            ))
        | inr room ↦
            let bytes = page_bytes-append s.page e in
            rw room (
              (
                closed,
                joined s.page e (s.budget_used + entry_bytes e) (omega (arith, used, bytes)) room,
                omega (arith, used, bytes),
              ))
      ]

Sized-loop : (s : Paging) (entries : List Entry) → Sized s → Sized (page_loop s entries)
unfolding page_loop
Sized-loop s [] h = h
Sized-loop s (e ∷ rest) h = Sized-loop (page_step s e) rest (Sized-step s e h)

-- Each page is estimated within the budget of a reply, or has one entry at most.
pages-PageFits : (entries : List Entry) → All PageFits (clip_grid_pages entries)
unfolding clip_grid_pages
pages-PageFits entries =
    let s = page_loop (record { closed = []; page = []; budget_used = envelope_bytes }) entries in
    let (closed, page, used) =
      Sized-loop (record { closed = []; page = []; budget_used = envelope_bytes }) entries
        (tt, inr (omega arith), omega arith) in
    All-append PageFits s.closed (s.page ∷ []) closed (page, tt)

-- Setting a value costs at most a key, a value and two separators.
set_value-size :
    (m : List (Text × Text)) (k v : Text)
    → members_size compact (set_value m k v) ≤ members_size compact m + member_size compact (k, v)
unfolding set_value
set_value-size [] k v = omega arith
set_value-size ((j, w) ∷ m) k v = elim (Bool-cases (text_eq j k)) [
  | inl same ↦ rw same (omega (arith, ap (λ t. length (json_str t)) ((text_eq_iff j k).0 same)))
  | inr other ↦ rw other (omega (arith, set_value-size m k v))
]

page-size :
    (m n : List (Text × Text)) (es : List Entry)
    → members_size compact (page_clips m es) + members_size compact (page_colors n es)
      ≤ members_size compact m + members_size compact n + page_bytes es
unfolding page_clips page_colors entry_bytes
page-size m n [] = omega arith
page-size m n (e ∷ es) = omega (
  arith,
  page-size (set_value m e.key (json_str e.name)) (set_value n e.key (json_str e.color)) es,
  set_value-size m e.key (json_str e.name),
  set_value-size n e.key (json_str e.color),
)

envelope : envelope_bytes ≡ 79
unfolding envelope_bytes json_object json_str decimal
envelope = refl

length-page_members :
    (i n : ℕ) (clips colors : Text)
    → length (json_object compact (page_members (decimal i) (decimal n) clips colors)) + 1
      ≡ 54 + length (decimal i) + length (decimal n) + length clips + length colors
unfolding json_str
length-page_members i n clips colors =
    omega (arith, length-json_object compact (page_members (decimal i) (decimal n) clips colors))

-- An object is no longer than its members and two braces.
object-size : (m : List (Text × Text)) → length (json_object compact m) ≤ 2 + members_size compact m
object-size m = omega (arith, length-json_object compact m)

page_json-size :
    (i n : ℕ) (es : List Entry)
    → length (decimal i) + length (decimal n) ≤ 22
    → length (page_json i n es) ≤ envelope_bytes + page_bytes es
unfolding page_json
page_json-size i n es h = omega (
  arith,
  h,
  envelope,
  length-page_members i n (json_object compact (page_clips [] es))
      (json_object compact (page_colors [] es)),
  object-size (page_clips [] es),
  object-size (page_colors [] es),
  page-size [] [] es,
)

at-All :
    (P : List Entry → Type 0) (pages : List (List Entry)) (i : ℕ) {page : List Entry}
    → All P pages
    → get_elem? pages i ≡ some page
    → P page × (i < length pages)
at-All P (x ∷ pages) zero h e = (subst P (ground arith) h.0, omega arith)
at-All P (x ∷ pages) (suc i) h e = let (p, less) = at-All P pages i h.1 e in (p, omega arith)
at-All P [] i h e = cc

-- Each page, as the text that is sent, is at most `MAX_REPLY_BYTES` bytes long, or has one entry at
-- most; there are fewer than 10^11 pages.
pub page_json-fits :
    (entries : List Entry) (i : ℕ) {page : List Entry}
    → get_elem? (clip_grid_pages entries) i ≡ some page
    → length (clip_grid_pages entries) < 100000000000
    → (length (page_json i (length (clip_grid_pages entries)) page) ≤ max_reply_bytes)
      ⊎ (length page ≤ 1)
page_json-fits entries i {page} found few =
    let (fits, less) = at-All PageFits (clip_grid_pages entries) i (pages-PageFits entries) found in
    elim fits [
      | inr single ↦ inr single
      | inl estimate ↦ inl (
          omega (
            arith,
            estimate,
            page_json-size i (length (clip_grid_pages entries)) page (
                omega (
                  arith,
                  length-decimal_bound i (omega arith),
                  length-decimal_bound (length (clip_grid_pages entries)) few,
                )),
          ))
    ]
