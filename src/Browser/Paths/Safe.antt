-- ===== src/Browser/Paths/Safe.antt =====
-- What the paths keep to: a relative path stays below its root, and what is given out is short.
use ohmic_bridge.Prelude.{
  ℕ, ◌-◌, ◌≡◌, refl, sym, ap, ◌∙◌, inl, inr, false, ◌||◌, ◌==◌, Bool-cases, if◌then◌else◌, Option,
  none, some, List, [], ◌∷◌, ◌++◌, append-nil, append_assoc, Text, text_eq, codes, length, take,
  is_empty, All, arith, subst,
}
use ohmic_bridge.Prelude.Texts.{
  has_char, strip, split, split-append, split_plain, onto_first, starts_with,
}
use ohmic_bridge.Browser.Category.{normalise_browser_path}
use ohmic_bridge.Browser.Paths.{
  has_drive, nonempty_parts, is_dots, any_dots, join_parts, if_plain, safe_browser_relative_path,
}

-- A part of a path that goes one folder down: not empty, no slash in it, neither `.` nor `..`.
abbrev pub GoesDown : Text → Type 0
GoesDown part = (is_empty part ≡ false) × (has_char b'/' part ≡ false) × (is_dots part ≡ false)

onto-All :
    (c : ℕ) (parts : List Text)
    → (c == b'/') ≡ false
    → All (λ part. has_char b'/' part ≡ false) parts
    → All (λ part. has_char b'/' part ≡ false) (onto_first c parts)
unfolding has_char
onto-All c [] other h = (rw other refl, tt)
onto-All c (part ∷ parts) other h = (rw other h.0, h.1)

split-All : (s : Text) → All (λ part. has_char b'/' part ≡ false) (split b'/' s)
unfolding split has_char
split-All [] = (refl, tt)
split-All (c ∷ s) = elim (Bool-cases (c == b'/')) [
  | inl slash ↦ rw slash (refl, split-All s)
  | inr other ↦ rw other (onto-All c (split b'/' s) other (split-All s))
]

nonempty-All :
    (parts : List Text)
    → All (λ part. has_char b'/' part ≡ false) parts
    → All (λ part. (is_empty part ≡ false) × (has_char b'/' part ≡ false)) (nonempty_parts parts)
nonempty-All [] h = tt
nonempty-All (part ∷ parts) h = elim (Bool-cases (is_empty part)) [
  | inl nothing ↦ rw nothing (nonempty-All parts h.1)
  | inr something ↦ rw something ((something, h.0), nonempty-All parts h.1)
]

any_dots-All :
    (parts : List Text)
    → All (λ part. (is_empty part ≡ false) × (has_char b'/' part ≡ false)) parts
    → any_dots parts ≡ false
    → All GoesDown parts
any_dots-All [] h k = tt
any_dots-All (part ∷ parts) h k =
    ((h.0.0, h.0.1, ground (arith, k)), any_dots-All parts h.1 (ground (arith, k)))

split-join_parts :
    (part : Text) (parts : List Text)
    → All GoesDown (part ∷ parts)
    → split b'/' (join_parts (part ∷ parts)) ≡ part ∷ parts
unfolding join_parts
split-join_parts part [] h = split_plain b'/' part h.0.1
split-join_parts part (next ∷ parts) h =
    split-append b'/' part (join_parts (next ∷ parts))
    ∙ ap (λ l. l ++ split b'/' (join_parts (next ∷ parts))) (split_plain b'/' part h.0.1)
    ∙ ap (λ l. part ∷ l) (split-join_parts next parts h.1)

-- A text that does not begin with a slash has a part.
first_part :
    (c : ℕ) (s : Text)
    → (c == b'/') ≡ false
    → (part : Text) × (parts : List Text) × (nonempty_parts (split b'/' (c ∷ s)) ≡ part ∷ parts)
unfolding split
first_part c s other = from (split b'/' s)
  where
    from :
        (l : List Text)
        → (part : Text) × (parts : List Text) × (nonempty_parts
              (if c == b'/' then [] ∷ l else onto_first c l)
            ≡ part ∷ parts)
    from [] = (c ∷ [], [], rw other refl)
    from (part ∷ parts) = (c ∷ part, nonempty_parts parts, rw other refl)

-- Where a path leads from a folder, part by part, as a file system reads it.
unfoldable pub enter : List Text → List Text → List Text
enter folder [] = folder
enter folder (part ∷ parts) =
    if is_empty part || text_eq part (codes ".")
    then enter folder parts
    else if text_eq part (codes "..")
    then enter (take (length folder - 1) folder) parts
    else enter (folder ++ part ∷ []) parts

enter-down : (folder parts : List Text) → All GoesDown parts → enter folder parts ≡ folder ++ parts
unfolding enter is_dots
enter-down folder [] h = sym (append-nil folder)
enter-down folder (part ∷ parts) h =
    let something = h.0.0 in
    let no_dot : text_eq part (codes ".") ≡ false = ground (arith, h.0.2) in
    let no_dots : text_eq part (codes "..") ≡ false = ground (arith, h.0.2) in
    rw (something, no_dot, no_dots)
      (enter-down (folder ++ part ∷ []) parts h.1 ∙ append_assoc folder (part ∷ []) parts)

-- A path that passed the tests is made of parts that go down.
unfoldable pub Goes : Option Text → Type 0
Goes none = Unit
Goes (some path) =
    (part : Text) × (parts : List Text) × (path ≡ join_parts (part ∷ parts))
    × All GoesDown (part ∷ parts)

if_plain-Goes :
    (part : Text) (parts l : List Text)
    → l ≡ part ∷ parts
    → All (λ p. (is_empty p ≡ false) × (has_char b'/' p ≡ false)) l
    → Goes (if_plain l)
unfolding Goes
if_plain-Goes part parts l e h = elim (Bool-cases (any_dots l)) [
  | inl dots ↦ rw dots tt
  | inr plain ↦
      rw plain ((part, parts, ap join_parts e, subst (All GoesDown) e (any_dots-All l h plain)))
]

checked-Goes :
    (text normalised : Text)
    → Goes (
        if is_empty normalised
        then none
        else if starts_with normalised (codes "/")
        then none
        else if has_drive text
        then none
        else if_plain (nonempty_parts (split b'/' normalised)))
unfolding Goes starts_with
checked-Goes text [] = tt
checked-Goes text (c ∷ s) = elim (Bool-cases (c == b'/')) [
  | inl slash ↦ rw slash tt
  | inr other ↦ elim (Bool-cases (has_drive text)) [
    | inl drive ↦ rw (other, drive) tt
    | inr no_drive ↦
        let (part, parts, e) = first_part c s other in
        rw (other, no_drive)
          (if_plain-Goes part parts (nonempty_parts (split b'/' (c ∷ s))) e
            (nonempty-All (split b'/' (c ∷ s)) (split-All (c ∷ s))))
  ]
]

pub safe_browser_relative_path-Goes : (path : Text) → Goes (safe_browser_relative_path path)
unfolding safe_browser_relative_path
safe_browser_relative_path-Goes path =
    checked-Goes (strip path) (normalise_browser_path (strip path))

-- A path that `_safe_browser_relative_path` returns has only parts that are not empty and neither `.` nor
-- `..`, and from any folder it leads to one below, by exactly these parts.
pub safe_browser_relative_path-GoesDown :
    (path : Text) {relative : Text}
    → safe_browser_relative_path path ≡ some relative
    → All GoesDown (split b'/' relative)
      × ((folder : List Text) → enter folder (split b'/' relative) ≡ folder ++ split b'/' relative)
unfolding Goes
safe_browser_relative_path-GoesDown path {relative} h =
    let (part, parts, whole, down) = subst Goes h (safe_browser_relative_path-Goes path) in
    let cut : split b'/' relative ≡ part ∷ parts =
      ap (split b'/') whole ∙ split-join_parts part parts down in
    rw cut ((down, λ folder. enter-down folder (part ∷ parts) down))
