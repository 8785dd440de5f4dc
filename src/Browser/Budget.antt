-- ===== src/Browser/Budget.antt =====
-- A listing stays within its byte budget, and says so if it is cut.
use ohmic_bridge.Prelude.{
  ℕ, ◌+◌, ◌≤◌, ◌<◌, ◌≡◌, refl, sym, ap, ◌∙◌, ◌⊎◌, inl, inr, Bool-cases, ltb, List, [], ◌∷◌, ◌++◌,
  append-nil, Text, codes, All, arith, length, length-append,
}
use ohmic_bridge.Constants.{max_reply_bytes}
use ohmic_bridge.Decimal.{decimal, decimal-Ascii, length-decimal_mono, length-decimal_bound}
use ohmic_bridge.Browser.{
  utf8_size, osc_string_arg_bytes, names_marker, search_marker, show_within, listing,
}

utf8_size-append : (s t : Text) → utf8_size (s ++ t) ≡ utf8_size s + utf8_size t
utf8_size-append [] t = omega arith
utf8_size-append (c ∷ s) t = omega (arith, utf8_size-append s t)

-- ASCII is one byte a character.
utf8_size-Ascii : (s : Text) → All (λ c. c < 128) s → utf8_size s ≡ length s
utf8_size-Ascii [] h = refl
utf8_size-Ascii (c ∷ s) h = ground (arith, h.0, utf8_size-Ascii s h.1)

utf8_size-decimal : (n : ℕ) → utf8_size (decimal n) ≡ length (decimal n)
utf8_size-decimal n = utf8_size-Ascii (decimal n) (decimal-Ascii n)

-- The arguments of a reply, all told.
abbrev pub args_bytes : List Text → ℕ
args_bytes [] = 0
args_bytes (x ∷ xs) = osc_string_arg_bytes x + args_bytes xs

args_bytes-append : (xs ys : List Text) → args_bytes (xs ++ ys) ≡ args_bytes xs + args_bytes ys
args_bytes-append [] ys = omega arith
args_bytes-append (x ∷ xs) ys = omega (arith, args_bytes-append xs ys)

show_within-fits :
    (budget : ℕ) (items : List Text)
    → budget ≤ max_reply_bytes
    → budget + args_bytes (show_within budget items) ≤ max_reply_bytes
unfolding show_within
show_within-fits budget [] h = omega (arith, h)
show_within-fits budget (item ∷ rest) h =
    elim (Bool-cases (ltb max_reply_bytes (budget + osc_string_arg_bytes item))) [
      | inl full ↦ rw full (omega (arith, h))
      | inr room ↦
          let fits : budget + osc_string_arg_bytes item ≤ max_reply_bytes = ground (arith, room) in
          rw room (omega (arith, show_within-fits (budget + osc_string_arg_bytes item) rest fits))
    ]

-- What is shown is a front part of the items.
show_within-front :
    (budget : ℕ) (items : List Text)
    → (hidden : List Text) × (show_within budget items ++ hidden ≡ items)
unfolding show_within
show_within-front budget [] = ([], refl)
show_within-front budget (item ∷ rest) =
    elim (Bool-cases (ltb max_reply_bytes (budget + osc_string_arg_bytes item))) [
      | inl full ↦ (item ∷ rest, rw full refl)
      | inr room ↦
          let (hidden, whole) = show_within-front (budget + osc_string_arg_bytes item) rest in
          (hidden, rw room (ap (λ l. item ∷ l) whole))
    ]

-- A marker takes its widest form when all is shown, and fits then.
pub record IsMarker (marker : ℕ → ℕ → Text) : Type 0 where
  pub wider :
      (shown total : ℕ)
      → shown ≤ total
      → osc_string_arg_bytes (marker shown total) ≤ osc_string_arg_bytes (marker total total)
  pub fits :
      (total : ℕ)
      → total < 100000000000
      → 64 + osc_string_arg_bytes (marker total total) ≤ max_reply_bytes

marker_size :
    (front middle back : Text) (shown total : ℕ)
    → utf8_size (front ++ decimal shown ++ middle ++ decimal total ++ back)
      ≡ utf8_size front
        + length (decimal shown)
        + utf8_size middle
        + length (decimal total)
        + utf8_size back
marker_size front middle back shown total = omega (
  arith,
  utf8_size-append front (decimal shown),
  utf8_size-append (front ++ decimal shown) middle,
  utf8_size-append (front ++ decimal shown ++ middle) (decimal total),
  utf8_size-append (front ++ decimal shown ++ middle ++ decimal total) back,
  utf8_size-decimal shown,
  utf8_size-decimal total,
)

-- Texts around two numbers make a marker, if they are not too long.
framed-IsMarker :
    (front middle back : Text)
    → utf8_size front + utf8_size middle + utf8_size back ≤ 8000
    → IsMarker (λ shown total. front ++ decimal shown ++ middle ++ decimal total ++ back)
unfolding osc_string_arg_bytes
framed-IsMarker front middle back short = record {
  wider = λ shown total h. omega (
    arith,
    marker_size front middle back shown total,
    marker_size front middle back total total,
    length-decimal_mono shown total h,
  );
  fits = λ total h.
      omega (arith, short, marker_size front middle back total total, length-decimal_bound total h);
}

names_marker-IsMarker : IsMarker names_marker
names_marker-IsMarker =
    framed-IsMarker (codes "TRUNCATED: showing ") (codes " of ")
      (codes " items - use search_browser_items to find specific items") (omega arith)

search_marker-IsMarker : IsMarker search_marker
search_marker-IsMarker =
    framed-IsMarker (codes "TRUNCATED: showing ") (codes " of ")
      (codes " matches - refine the query") (omega arith)

-- A listing within the budget: all the items, or a front part and the marker.
abbrev pub ListingFits : (ℕ → ℕ → Text) → List Text → Type 0
ListingFits marker items =
    (64 + args_bytes (listing marker items) ≤ max_reply_bytes)
    × ((listing marker items ≡ items)
        ⊎ ((shown hidden : List Text) × (shown ++ hidden ≡ items)
            × (length shown < length items)
            × (listing marker items ≡ shown ++ marker (length shown) (length items) ∷ [])))

all_shown :
    (shown hidden items : List Text)
    → shown ++ hidden ≡ items
    → length items ≤ length shown
    → shown ≡ items
all_shown shown [] items whole h = sym (append-nil shown) ∙ whole
all_shown shown (x ∷ hidden) items whole h =
    absurd (omega (arith, h, length-append shown (x ∷ hidden), ap length whole))

listing-fits :
    (marker : ℕ → ℕ → Text)
    → IsMarker marker
    → (items : List Text) → length items < 100000000000
    → ListingFits marker items
unfolding listing
listing-fits marker m items few =
    let total = length items in
    let budget = 64 + osc_string_arg_bytes (marker total total) in
    let shown = show_within budget items in
    let (hidden, whole) = show_within-front budget items in
    let fits = show_within-fits budget items (m.fits total few) in
    let count : length shown + length hidden ≡ total =
      sym (length-append shown hidden) ∙ ap length whole in
    elim (Bool-cases (ltb (length shown) total)) [
      | inl cut ↦ (
        rw cut (
            omega (
              arith,
              fits,
              args_bytes-append shown (marker (length shown) total ∷ []),
              m.wider (length shown) total (omega (arith, count)),
            )),
        inr ((shown, hidden, whole, ground (arith, cut), rw cut refl)),
      )
      | inr complete ↦ (
        rw complete (omega (arith, fits)),
        inl (rw complete (all_shown shown hidden items whole (ground (arith, complete)))),
      )
    ]

-- The answers of `get_names` and `search_items` with fewer than 10^11 items: behind the category, and
-- the query, their arguments take at most `MAX_REPLY_BYTES` less 64 bytes; and they are either all the
-- items, or a front part of them, not all, with the marker that says how many of how many.
pub listings-fit :
    (items : List Text)
    → length items < 100000000000
    → ListingFits names_marker items × ListingFits search_marker items
listings-fit items few = (
  listing-fits names_marker names_marker-IsMarker items few,
  listing-fits search_marker search_marker-IsMarker items few,
)
