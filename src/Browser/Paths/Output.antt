-- ===== src/Browser/Paths/Output.antt =====
-- What `_safe_output_browser_path` gives out: a short text that is no absolute path.
use ohmic_bridge.Prelude.{
  ℕ, ◌≤◌, ◌<◌, ◌≡◌, refl, sym, ap, ◌∙◌, inl, inr, true, false, ◌&&◌, leb, ltb, Bool-cases, Option,
  none, some, List, [], ◌∷◌, ◌++◌, Text, codes, length, length-take, take, is_empty, All, arith,
  subst,
}
use ohmic_bridge.Prelude.Texts.{
  has_char, has_char-append, strip, strip_left, strip_right, is_space, leaf, leaf_plain,
  starts_with,
}
use ohmic_bridge.Browser.Category.{normalise_browser_path}
use ohmic_bridge.Browser.Paths.{
  join_parts, safe_browser_relative_path, strip_slashes_left, strip_slashes_right, or_text, shorten,
  last_name, relative_or, safe_output_browser_path,
}
use ohmic_bridge.Browser.Paths.Safe.{GoesDown, Goes, safe_browser_relative_path-Goes}

abbrev pub NoSlash : Text → Type 0
NoSlash s = has_char b'/' s ≡ false

pub leaf-NoSlash : (s : Text) → NoSlash (leaf s)
unfolding leaf has_char
leaf-NoSlash [] = refl
leaf-NoSlash (c ∷ s) = elim (Bool-cases (has_char b'/' (c ∷ s))) [
  | inl slash ↦ rw slash (leaf-NoSlash s)
  | inr none' ↦ rw none' none'
]

leaf_behind : (s t : Text) → leaf (s ++ b'/' ∷ t) ≡ leaf t
unfolding leaf has_char
leaf_behind [] t = refl
leaf_behind (c ∷ s) t =
    let slash : has_char b'/' (c ∷ (s ++ b'/' ∷ t)) ≡ true =
      ground (arith, has_char-append b'/' s (b'/' ∷ t)) in
    rw slash (leaf_behind s t)

strip_left-NoSlash : (s : Text) → NoSlash s → NoSlash (strip_left s)
unfolding strip_left has_char
strip_left-NoSlash [] h = refl
strip_left-NoSlash (c ∷ s) h = elim (Bool-cases (is_space c)) [
  | inl space ↦ rw space (strip_left-NoSlash s (ground (arith, h)))
  | inr other ↦ rw other h
]

strip_right-NoSlash : (s : Text) → NoSlash s → NoSlash (strip_right s)
unfolding strip_right has_char
strip_right-NoSlash [] h = refl
strip_right-NoSlash (c ∷ s) h = elim (Bool-cases (is_empty (strip_right s) && is_space c)) [
  | inl blank ↦ rw blank refl
  | inr other ↦ rw other (ground (arith, h, strip_right-NoSlash s (ground (arith, h))))
]

strip-NoSlash : (s : Text) → NoSlash s → NoSlash (strip s)
unfolding strip
strip-NoSlash s h = strip_right-NoSlash (strip_left s) (strip_left-NoSlash s h)

-- A text with a last name that does not begin with a slash.
IsFine : Text → Type 0
IsFine s = (is_empty (leaf s) ≡ false) × (starts_with s (codes "/") ≡ false)

NoSlash-IsFine : (c : ℕ) (s : Text) → NoSlash (c ∷ s) → IsFine (c ∷ s)
unfolding IsFine starts_with has_char
NoSlash-IsFine c s h = (rw (leaf_plain (c ∷ s) h) refl, ground (arith, h))

join_parts-leaf :
    (part : Text) (parts : List Text)
    → All GoesDown (part ∷ parts)
    → is_empty (leaf (join_parts (part ∷ parts))) ≡ false
unfolding join_parts
join_parts-leaf part [] h = rw (leaf_plain part h.0.1) h.0.0
join_parts-leaf part (next ∷ parts) h =
    ap is_empty (leaf_behind part (join_parts (next ∷ parts))) ∙ join_parts-leaf next parts h.1

join_parts-starts :
    (part : Text) (parts : List Text)
    → All GoesDown (part ∷ parts)
    → starts_with (join_parts (part ∷ parts)) (codes "/") ≡ false
unfolding join_parts starts_with has_char
join_parts-starts [] parts h = cc (h.0.0)
join_parts-starts (c ∷ s) [] h = ground (arith, h.0.1)
join_parts-starts (c ∷ s) (next ∷ parts) h = ground (arith, h.0.1)

-- What is promised of a path that is given out.
abbrev IsPresentable : Text → Type 0
IsPresentable s = (0 < length s) × (length s ≤ 1024) × (starts_with s (codes "/") ≡ false)

cut_leaf : (s : Text) → is_empty s ≡ false → NoSlash s → IsPresentable (take 1024 s)
unfolding starts_with has_char
cut_leaf [] h n = cc
cut_leaf (c ∷ s) h n = (omega arith, omega (arith, length-take 1024 (c ∷ s)), ground (arith, n))

short_leaf : (s : Text) → is_empty s ≡ false → NoSlash s → length s ≤ 1024 → IsPresentable s
unfolding starts_with has_char
short_leaf [] h n k = cc
short_leaf (c ∷ s) h n k = (omega arith, k, ground (arith, n))

shorten-IsPresentable : (s : Text) → IsFine s → IsPresentable (shorten s)
unfolding shorten IsFine leaf
shorten-IsPresentable [] fine = cc (fine.0)
shorten-IsPresentable (c ∷ s) fine = elim (Bool-cases (ltb 1024 (length (c ∷ s)))) [
  | inr short ↦ rw short ((omega arith, ground (arith, short), fine.1))
  | inl long ↦ elim (Bool-cases (leb (length (leaf (c ∷ s))) 1024)) [
    | inl fits ↦
        rw (long, fits)
          (short_leaf (leaf (c ∷ s)) fine.0 (leaf-NoSlash (c ∷ s)) (ground (arith, fits)))
    | inr over ↦ rw (long, over) (cut_leaf (leaf (c ∷ s)) fine.0 (leaf-NoSlash (c ∷ s)))
  ]
]

or_text-NoSlash : (s t : Text) → NoSlash s → NoSlash t → NoSlash (or_text s t)
or_text-NoSlash [] t h k = k
or_text-NoSlash (c ∷ s) t h k = h

named-IsFine : (s : Text) → NoSlash s → IsFine (or_text s (codes "unknown"))
named-IsFine [] h = NoSlash-IsFine _ _ (unfold has_char in refl)
named-IsFine (c ∷ s) h = NoSlash-IsFine c s h

IsFine-kept : (s t : Text) → IsFine s → IsFine (or_text s t)
unfolding IsFine leaf
IsFine-kept [] t h = cc (h.0)
IsFine-kept (c ∷ s) t h = h

chosen-IsFine :
    (o : Option Text) (last : Text)
    → Goes o
    → NoSlash last
    → IsFine (or_text (relative_or o last) (codes "unknown"))
unfolding Goes
chosen-IsFine none last goes n = named-IsFine last n
chosen-IsFine (some path) last (part, parts, whole, down) n =
    let fine : IsFine path =
      subst IsFine (sym whole)
        (unfold IsFine in (join_parts-leaf part parts down, join_parts-starts part parts down)) in
    IsFine-kept (or_text path last) (codes "unknown") (IsFine-kept path last fine)

module _ (windows_name : Text → Text) (named : (path : Text) → NoSlash (windows_name path)) where
  last_name-NoSlash : (path text : Text) → NoSlash (last_name windows_name path text)
  unfolding last_name
  last_name-NoSlash path text =
      or_text-NoSlash (windows_name path) _ (named path)
        (strip-NoSlash _ (leaf-NoSlash (strip_slashes_right (strip_slashes_left text))))

  -- If the name of a path, as `PureWindowsPath` takes it, has no slash, then a path that is given to a client
  -- has from 1 to 1024 characters and does not begin with a slash.
  pub safe_output_browser_path-IsPresentable :
      (path : Text)
      → (0 < length (safe_output_browser_path windows_name path))
        × (length (safe_output_browser_path windows_name path) ≤ 1024)
        × (starts_with (safe_output_browser_path windows_name path) (codes "/") ≡ false)
  unfolding safe_output_browser_path
  safe_output_browser_path-IsPresentable path = shorten-IsPresentable _ (
      chosen-IsFine (safe_browser_relative_path (normalise_browser_path path))
        (last_name windows_name path (normalise_browser_path path))
        (safe_browser_relative_path-Goes (normalise_browser_path path))
        (last_name-NoSlash path (normalise_browser_path path)))
