-- ===== src/Decimal.antt =====
-- `str(n)` of a number that is not negative: its decimal digits, and how many they are.
use ohmic_bridge.Prelude.{
  Bool, All, All-append, ℕ, zero, suc, ◌+◌, ◌/◌, ◌%◌, ◌≤◌, ◌<◌, ◌≡◌, refl, true, false, [], ◌∷◌,
  ◌++◌, arith, ltb, Text, codes, length, length-append,
}

-- The digits of `n`, most significant first; the first number is fuel, and more than `n` is enough.
decimal_go : ℕ → ℕ → Text
decimal_go zero n = []
decimal_go (suc f) n = elim (ltb n 10) [
  | true ↦ (48 + n) ∷ []
  | false ↦ decimal_go f (n / 10) ++ (48 + n % 10) ∷ []
]

unfoldable pub decimal : ℕ → Text
unfolding decimal_go
decimal n = decimal_go (suc n) n

decimal_runs : decimal 9041 ≡ codes "9041"
unfolding decimal
decimal_runs = refl

-- A larger number does not have fewer digits, whatever fuel computed the two.
length-decimal_go_mono :
    (f g n m : ℕ) → n < f → m < g → n ≤ m → length (decimal_go f n) ≤ length (decimal_go g m)
unfolding decimal_go
length-decimal_go_mono zero g n m p q h = absurd (omega arith)
length-decimal_go_mono (suc f) zero n m p q h = absurd (omega arith)
length-decimal_go_mono (suc f) (suc g) n m p q h = ground (
  arith,
  length-append (decimal_go f (n / 10)) ((48 + n % 10) ∷ []),
  length-append (decimal_go g (m / 10)) ((48 + m % 10) ∷ []),
  length-decimal_go_mono f g (n / 10) (m / 10),
)

pub length-decimal_mono : (n m : ℕ) → n ≤ m → length (decimal n) ≤ length (decimal m)
unfolding decimal
length-decimal_mono n m h = length-decimal_go_mono (suc n) (suc m) n m (omega arith) (omega arith) h

-- The digits are ASCII.
decimal_go-Ascii : (f n : ℕ) → All (λ c. c < 128) (decimal_go f n)
unfolding decimal_go
decimal_go-Ascii zero n = tt
decimal_go-Ascii (suc f) n = digit (ltb n 10) refl (decimal_go-Ascii f (n / 10))
  where
    digit :
        (small : Bool)
        → ltb n 10 ≡ small
        → All (λ c. c < 128) (decimal_go f (n / 10))
        → All
            (λ c. c < 128)
            (elim small [
              | true ↦ (48 + n) ∷ []
              | false ↦ decimal_go f (n / 10) ++ (48 + n % 10) ∷ []
            ])
    digit true h others = (ground (arith, h), tt)
    digit false h others =
        All-append (λ c. c < 128) (decimal_go f (n / 10)) ((48 + n % 10) ∷ []) others
          ((omega arith, tt))

pub decimal-Ascii : (n : ℕ) → All (λ c. c < 128) (decimal n)
unfolding decimal
decimal-Ascii n = decimal_go-Ascii (suc n) n

-- A number below 10^11 has at most eleven digits.
pub length-decimal_bound : (n : ℕ) → n < 100000000000 → length (decimal n) ≤ 11
unfolding decimal
length-decimal_bound n h = omega (arith, length-decimal_mono n 99999999999 (omega arith), widest)
  where
    widest : length (decimal 99999999999) ≡ 11
    widest = refl
