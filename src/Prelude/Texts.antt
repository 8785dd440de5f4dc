-- ===== src/Prelude/Texts.antt =====
-- Python's methods of `str` that the code uses, on texts as lists of code points.
use mathlib.Core.List.{reverse}
use ohmic_bridge.Prelude.{
  ℕ, ◌≡◌, refl, sym, ap, ◌∙◌, inl, inr, Bool, true, false, ◌&&◌, ◌||◌, ◌==◌, leb, Bool-cases,
  if◌then◌else◌, List, [], ◌∷◌, ◌++◌, Text, is_empty, arith,
}

-- `c in text`, for one character.
unfoldable pub has_char : ℕ → Text → Bool
has_char c [] = false
has_char c (d ∷ s) = d == c || has_char c s

abbrev pub onto_first : ℕ → List Text → List Text
onto_first c [] = (c ∷ []) ∷ []
onto_first c (part ∷ parts) = (c ∷ part) ∷ parts

-- `text.split(c)`
unfoldable pub split : ℕ → Text → List Text
split c [] = [] ∷ []
split c (d ∷ s) = let parts = split c s in if d == c then [] ∷ parts else onto_first d parts

abbrev pub last_of : Text → List Text → Text
last_of t [] = t
last_of t (u ∷ ts) = last_of u ts

-- `text.rsplit("/", 1)[-1]`: what stands behind the last slash.
unfoldable pub leaf : Text → Text
leaf [] = []
leaf (d ∷ s) = let rest = leaf s in if has_char b'/' (d ∷ s) then rest else d ∷ s

onto_first-append :
    (d : ℕ) (c : ℕ) (s : Text) (parts : List Text)
    → onto_first d (split c s) ++ parts ≡ onto_first d (split c s ++ parts)
unfolding split
onto_first-append d c [] parts = refl
onto_first-append d c (e ∷ s) parts = elim (Bool-cases (e == c)) [
  | inl same ↦ rw same refl
  | inr other ↦ rw other (one_more (split c s))
]
  where
    one_more :
        (l : List Text)
        → onto_first d (onto_first e l) ++ parts ≡ onto_first d (onto_first e l ++ parts)
    one_more [] = refl
    one_more (x ∷ l) = refl

pub split-append : (c : ℕ) (s t : Text) → split c (s ++ c ∷ t) ≡ split c s ++ split c t
unfolding split
split-append c [] t = let same : (c == c) ≡ true = ground arith in rw same refl
split-append c (d ∷ s) t = elim (Bool-cases (d == c)) [
  | inl same ↦ rw same (ap (λ l. [] ∷ l) (split-append c s t))
  | inr other ↦
      rw other (ap (onto_first d) (split-append c s t) ∙ sym (onto_first-append d c s (split c t)))
]

pub split_plain : (c : ℕ) (s : Text) → has_char c s ≡ false → split c s ≡ s ∷ []
unfolding split has_char
split_plain c [] h = refl
split_plain c (d ∷ s) h = elim (Bool-cases (d == c)) [
  | inl same ↦ absurd (ground (arith, h, same))
  | inr other ↦ rw other (ap (onto_first d) (split_plain c s (ground (arith, h, other))))
]

pub has_char-append : (c : ℕ) (s t : Text) → has_char c (s ++ t) ≡ (has_char c s || has_char c t)
unfolding has_char
has_char-append c [] t = refl
has_char-append c (d ∷ s) t = ground (arith, has_char-append c s t)

pub leaf_plain : (s : Text) → has_char b'/' s ≡ false → leaf s ≡ s
unfolding leaf
leaf_plain [] h = refl
leaf_plain (d ∷ s) h = rw h refl

-- What stands behind a slash, if that has none.
pub leaf-append : (s t : Text) → has_char b'/' t ≡ false → leaf (s ++ b'/' ∷ t) ≡ t
unfolding leaf has_char
leaf-append [] t h = leaf_plain t h
leaf-append (d ∷ s) t h =
    let slash : has_char b'/' (d ∷ (s ++ b'/' ∷ t)) ≡ true =
      unfold has_char in ground (arith, has_char-append b'/' s (b'/' ∷ t)) in
    rw slash (leaf-append s t h)

-- `str.isspace` of one character.
abbrev pub is_space : ℕ → Bool
is_space c =
    (leb 9 c && leb c 13)
    || (leb 28 c && leb c 32)
    || c == 133
    || c == 160
    || c == 5760
    || (leb 8192 c && leb c 8202)
    || c == 8232
    || c == 8233
    || c == 8239
    || c == 8287
    || c == 12288

unfoldable pub strip_left : Text → Text
strip_left [] = []
strip_left (c ∷ s) = if is_space c then strip_left s else c ∷ s

unfoldable pub strip_right : Text → Text
strip_right [] = []
strip_right (c ∷ s) =
    let rest = strip_right s in if is_empty rest && is_space c then [] else c ∷ rest

-- `text.strip()`
unfoldable pub strip : Text → Text
unfolding strip_left strip_right
strip s = strip_right (strip_left s)

-- `text.replace(c, d)`, for one character.
unfoldable pub replace : ℕ → ℕ → Text → Text
replace c d [] = []
replace c d (e ∷ s) = (if e == c then d else e) ∷ replace c d s

unfoldable pub starts_with : Text → Text → Bool
starts_with s [] = true
starts_with [] (c ∷ prefix) = false
starts_with (d ∷ s) (c ∷ prefix) = d == c && starts_with s prefix

-- `text.endswith(suffix)`
unfoldable pub ends_with : Text → Text → Bool
unfolding starts_with
ends_with s suffix = starts_with (reverse s) (reverse suffix)
