-- ===== src/Osc/Pattern/Meaning.antt =====
-- What an address pattern matches.
use ohmic_bridge.Prelude.{
  ℕ, ◌≡◌, ◌≢◌, refl, sym, subst, ◌↔◌, inl, inr, true, ◌||◌, ◌==◌, Bool-cases, [], ◌∷◌, ◌++◌, arith,
  All, Text,
}
use ohmic_bridge.Osc.Pattern.{glob}

-- A star stands for one or more characters, none of them a slash, and the pattern need not reach the
-- end of the address.
pub data Matches : Text → Text → Type 0 where
  reached : {a : Text} → Matches [] a
  literal : {ps a : Text} (p : ℕ) → p ≢ 42 → Matches ps a → Matches (p ∷ ps) (p ∷ a)
  star :
      {ps a : Text} (c : ℕ) (run : Text)
      → All (λ d. d ≢ 47) (c ∷ run)
      → Matches ps a
      → Matches (42 ∷ ps) (c ∷ run ++ a)

longer : {ps a : Text} {c : ℕ} → c ≢ 47 → Matches (42 ∷ ps) a → Matches (42 ∷ ps) (c ∷ a)
longer h (literal p other m) = absurd (other refl)
longer {c = c} h (star d run safe m) = star c (d ∷ run) (h, safe) m

glob-Matches : (p a : Text) → glob p a ≡ true → Matches p a
unfolding glob
glob-Matches [] a h = reached
glob-Matches (p ∷ ps) [] h = cc
glob-Matches (p ∷ ps) (c ∷ a) h = elim (Bool-cases (p == 42)) [
  | inl is_star ↦
      let safe : c ≢ 47 = λ e. absurd (ground (arith, e)) in
      let q : 42 ≡ p = ground arith in
      subst (λ q. Matches (q ∷ ps) (c ∷ a)) q
        (elim (Bool-cases (glob ps a)) [
          | inl short ↦ star c [] (safe, tt) (glob-Matches ps a short)
          | inr long ↦
              longer safe
                (subst (λ q. Matches (q ∷ ps) a) (sym q) (glob-Matches (p ∷ ps) a (ground arith)))
        ])
  | inr other ↦
      let same : p ≡ c = ground arith in
      subst (λ d. Matches (p ∷ ps) (d ∷ a)) same
        (literal p (ground arith) (glob-Matches ps a (ground arith)))
]

glob_star :
    (ps run a : Text)
    → All (λ d. d ≢ 47) run
    → glob ps a ≡ true
    → (glob ps (run ++ a) || glob (42 ∷ ps) (run ++ a)) ≡ true
unfolding glob
glob_star ps [] a safe h = ground arith
glob_star ps (c ∷ run) a safe h = ground (arith, glob_star ps run a safe.1 h)

Matches-glob : {p a : Text} → Matches p a → glob p a ≡ true
unfolding glob
Matches-glob reached = refl
Matches-glob (literal p h m) = ground (arith, Matches-glob m)
Matches-glob (star {ps} {a} c run safe m) =
    ground (arith, glob_star ps run a safe.1 (Matches-glob m))

-- The test of a pattern is exactly the reading of it: each star one or more characters without a
-- slash, every other character itself, and the rest of the address free.
pub glob_iff : (p a : Text) → (glob p a ≡ true) ↔ Matches p a
glob_iff p a = (glob-Matches p a, Matches-glob)
