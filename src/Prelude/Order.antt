-- ===== src/Prelude/Order.antt =====
-- Python's `<` on integers, texts and tuples, and the sorting of a list by it.
pub mod Sorting
use Prim.Native.Nat.{ℕ, ◌<◌}
use ohmic_bridge.Prelude.{
  ◌≡◌, refl, sym, ap, ◌∙◌, inl, inr, Bool, true, false, ◌&&◌, ◌||◌, not, ltb, Bool-cases,
  if◌then◌else◌, List, [], ◌∷◌, Text, arith,
}
use ohmic_bridge.Prelude.Int.{ℤ, pos, negsuc}

-- A strict order in which being neither less nor greater is transitive.
pub record WeakOrder {ℓ} (A : Type ℓ) : Type ℓ where
  pub lt : A → A → Bool
  pub asym : (a b : A) → lt a b ≡ true → lt b a ≡ false
  pub split : (a b c : A) → lt a c ≡ true → (lt a b || lt b c) ≡ true

-- Two that are neither less nor greater are the same.
abbrev pub IsTotal {ℓ} : {A : Type ℓ} → WeakOrder A → Type ℓ
IsTotal {A = A} o = (a b : A) → o.lt a b ≡ false → o.lt b a ≡ false → a ≡ b

-- By one order, and by another one where the first does not tell the two apart.
abbrev pub lex {ℓ} : {A : Type ℓ} → (A → A → Bool) → (A → A → Bool) → A → A → Bool
lex lt lt_next a b = lt a b || (not (lt b a) && lt_next a b)

pub lex_asym {ℓ} :
    {A : Type ℓ} (o p : WeakOrder A) (a b : A)
    → lex o.lt p.lt a b ≡ true
    → lex o.lt p.lt b a ≡ false
lex_asym o p a b h = ground (arith, o.asym a b, o.asym b a, p.asym a b)

pub lex_split {ℓ} :
    {A : Type ℓ} (o p : WeakOrder A) (a b c : A)
    → lex o.lt p.lt a c ≡ true
    → (lex o.lt p.lt a b || lex o.lt p.lt b c) ≡ true
lex_split o p a b c h =
    ground
      (arith, o.split a b c, o.split b c a, o.split c a b, o.asym a b, o.asym b c, p.split a b c)

abbrev pub then_by {ℓ} : {A : Type ℓ} → WeakOrder A → WeakOrder A → WeakOrder A
then_by o p = record { lt = lex o.lt p.lt; asym = lex_asym o p; split = lex_split o p }

-- By a key.
abbrev pub by {ℓ κ} : {A : Type ℓ} {K : Type κ} → (A → K) → WeakOrder K → WeakOrder A
by key o = record {
  lt = λ a b. o.lt (key a) (key b);
  asym = λ a b. o.asym (key a) (key b);
  split = λ a b c. o.split (key a) (key b) (key c);
}

abbrev pub int_lt : ℤ → ℤ → Bool
int_lt (pos a) (pos b) = ltb a b
int_lt (pos a) (negsuc b) = false
int_lt (negsuc a) (pos b) = true
int_lt (negsuc a) (negsuc b) = ltb b a

pub int_asym : (a b : ℤ) → int_lt a b ≡ true → int_lt b a ≡ false
int_asym a b h = ground arith

pub int_split : (a b c : ℤ) → int_lt a c ≡ true → (int_lt a b || int_lt b c) ≡ true
int_split a b c h = ground arith

abbrev pub int_order : WeakOrder ℤ
int_order = record { lt = int_lt; asym = int_asym; split = int_split }

pub int-IsTotal : IsTotal int_order
int-IsTotal a b h k = ground arith

unfoldable pub text_lt : Text → Text → Bool
text_lt [] [] = false
text_lt [] (d ∷ t) = true
text_lt (c ∷ s) [] = false
text_lt (c ∷ s) (d ∷ t) = ltb c d || (not (ltb d c) && text_lt s t)

pub text_asym : (s t : Text) → text_lt s t ≡ true → text_lt t s ≡ false
unfolding text_lt
text_asym [] [] h = refl
text_asym [] (d ∷ t) h = refl
text_asym (c ∷ s) [] h = cc
text_asym (c ∷ s) (d ∷ t) h = ground (arith, text_asym s t)

pub text_split : (s t u : Text) → text_lt s u ≡ true → (text_lt s t || text_lt t u) ≡ true
unfolding text_lt
text_split [] [] u h = h
text_split [] (d ∷ t) u h = refl
text_split (c ∷ s) t [] h = cc
text_split (c ∷ s) [] (e ∷ u) h = refl
text_split (c ∷ s) (d ∷ t) (e ∷ u) h = ground (arith, text_split s t u)

abbrev pub text_order : WeakOrder Text
text_order = record { lt = text_lt; asym = text_asym; split = text_split }

pub text-IsTotal : IsTotal text_order
unfolding text_lt
text-IsTotal [] [] h k = refl
text-IsTotal [] (d ∷ t) h k = cc
text-IsTotal (c ∷ s) [] h k = cc
text-IsTotal (c ∷ s) (d ∷ t) h k = ground (arith, text-IsTotal s t)

module _ {ℓ} {A : Type ℓ} (o : WeakOrder A) where
  unfoldable pub insert : A → List A → List A
  insert x [] = x ∷ []
  insert x (y ∷ ys) = let rest = insert x ys in if o.lt y x then y ∷ rest else x ∷ y ∷ ys

  -- `list.sort()`, whose result is the same for every way to sort if the order is total.
  unfoldable pub sort : List A → List A
  sort [] = []
  sort (x ∷ xs) = insert x (sort xs)
