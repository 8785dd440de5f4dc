-- ===== src/Listeners/Left.antt =====
-- Which listeners Live still has when a handler of abletonosc/handler.py has cleared its own.
use ohmic_bridge.Prelude.{
  ℕ, ◌==◌, ==_iff, ◌≡◌, ◌⊎◌, refl, sym, ap, subst, ◌∙◌, inl, inr, true, Bool-cases, some, List, [],
  ◌∷◌, All, Outcome, returned, raised, Outcome-cases, Exn,
}
use ohmic_bridge.Listeners.{
  Equality, Store, Answers, Ended, and_then, has, get, del, forget, without_callback, unregister,
  stop_found, stop_listen, clear_one, clear_loop, clear_listeners,
}
use ohmic_bridge.Listeners.Paired.{keys, IsPaired, stop_listen_lem, del-paired}
use ohmic_bridge.Listeners.Keeps.{first-has, keys-nil}

module _ {K : Type 0} (eq : Equality K) where
  -- The dictionary has the callback under the key.
  abbrev pub Listed : K → ℕ → List (K × ℕ) → Type 0
  Listed k n [] = ⊥
  Listed k n (e ∷ m) = ((e.0 ≡ k) × (e.1 ≡ n)) ⊎ Listed k n m

  -- A callback that is kept under a key whose removal Live refuses.
  abbrev pub IsRefused : (K → Answers) → List (K × ℕ) → ℕ → Type 0
  IsRefused live m n = (k : K) × Listed k n m × ((e : Exn) × ((live k).remove ≡ raised e))

  -- A callback under another key than the first is there when the first has been deleted.
  first-del :
      (m : List (K × ℕ)) (k : K) (ks : List K)
      → keys eq m ≡ k ∷ ks
      → (n : ℕ) × (get eq m k ≡ some n)
        × Listed k n m
        × ((j : K) (i : ℕ) → Listed j i m → (i ≡ n) ⊎ Listed j i (del eq m k))
        × ((j : K) (i : ℕ) → Listed j i (del eq m k) → Listed j i m)
  unfolding get del
  first-del [] k ks e = absurd (cc e)
  first-del (e ∷ m) k ks h =
      let head : e.0 ≡ k = ap (head_or k) h in
      let hit : eq.same e.0 k ≡ true = (eq.same_iff e.0 k).1 head in
      (
        e.1,
        rw hit refl,
        inl (head, refl),
        λ j i listed. elim listed [ inl here ↦ inl (sym here.1) | inr later ↦ inr (rw hit later) ],
        λ j i. rw hit (λ listed. inr listed),
      )
    where
      head_or : K → List K → K
      head_or k [] = k
      head_or k (j ∷ ks) = j

module _ {K O : Type 0} (eq : Equality K) where
  forget-registered : (k : K) (s : Store K O) → (forget eq k s).1.registered ≡ s.registered
  unfolding forget
  forget-registered k s = elim (Bool-cases (has eq s.listener_objects k)) [
    | inl found ↦ rw found refl
    | inr missing ↦ rw missing refl
  ]

  -- What Live has behind the removal of a callback, by its answer.
  abbrev left_by : Outcome (Unit {0}) → ℕ → List (O × ℕ) → List (O × ℕ)
  left_by (returned u) n registered = without_callback eq n registered
  left_by (raised e) n registered = registered

  stop_listen-registered :
      (live : Answers) (k : K) (n : ℕ) (s : Store K O)
      → has eq s.listener_functions k ≡ true
      → live.find_remove ≡ returned tt
      → get eq s.listener_functions k ≡ some n
      → (stop_listen eq live k s).1.registered ≡ left_by live.remove n s.registered
  unfolding stop_listen stop_found
  stop_listen-registered live k n s found finds held =
      rw (found, finds, held)
        (forget-registered k (unregister eq live.remove (some n) s) ∙ removed live.remove)
    where
      removed :
          (answer : Outcome (Unit {0}))
          → (unregister eq answer (some n) s).registered ≡ left_by answer n s.registered
      removed (returned u) = refl
      removed (raised e) = refl

  module _ (live : K → Answers) (all : List (K × ℕ)) where
    -- What Live calls is a callback of the dictionary, or one whose removal it has refused.
    abbrev IsTrackedBy : List (K × ℕ) → List (O × ℕ) → Type 0
    IsTrackedBy m = All (λ r. ((j : K) × Listed eq j r.1 m) ⊎ IsRefused eq live all r.1)

    without_callback-IsTrackedBy :
        (n : ℕ) (m m' : List (K × ℕ)) (registered : List (O × ℕ))
        → ((j : K) (i : ℕ) → Listed eq j i m → (i ≡ n) ⊎ Listed eq j i m')
        → IsTrackedBy m registered
        → IsTrackedBy m' (without_callback eq n registered)
    unfolding without_callback
    without_callback-IsTrackedBy n m m' [] onward h = tt
    without_callback-IsTrackedBy n m m' (r ∷ registered) onward h = elim (Bool-cases (r.1 == n)) [
      | inl same ↦ rw same (without_callback-IsTrackedBy n m m' registered onward h.1)
      | inr other ↦ rw other (
          (
            elim (h.0) [
              | inr refused ↦ inr refused
              | inl (j, listed) ↦ elim (onward j r.1 listed) [
                | inr later ↦ inl (j, later)
                | inl here ↦ absurd (cc (sym other ∙ (==_iff r.1 n).1 here))
              ]
            ],
            without_callback-IsTrackedBy n m m' registered onward h.1,
          ))
    ]

    refused-IsTrackedBy :
        (k : K) (n : ℕ) (m m' : List (K × ℕ)) (registered : List (O × ℕ)) (e : Exn)
        → (live k).remove ≡ raised e
        → Listed eq k n all
        → ((j : K) (i : ℕ) → Listed eq j i m → (i ≡ n) ⊎ Listed eq j i m')
        → IsTrackedBy m registered
        → IsTrackedBy m' registered
    refused-IsTrackedBy k n m m' [] e refuses listed onward h = tt
    refused-IsTrackedBy k n m m' (r ∷ registered) e refuses listed onward h = (
      elim (h.0) [
        | inr refused ↦ inr refused
        | inl (j, there) ↦ elim (onward j r.1 there) [
          | inr later ↦ inl (j, later)
          | inl here ↦ inr (k, subst (λ i. Listed eq k i all) (sym here) listed, (e, refuses))
        ]
      ],
      refused-IsTrackedBy k n m m' registered e refuses listed onward h.1,
    )

    removed-IsTrackedBy :
        (k : K) (n : ℕ) (m m' : List (K × ℕ)) (registered : List (O × ℕ))
        → Listed eq k n all
        → ((j : K) (i : ℕ) → Listed eq j i m → (i ≡ n) ⊎ Listed eq j i m')
        → IsTrackedBy m registered
        → IsTrackedBy m' (left_by (live k).remove n registered)
    removed-IsTrackedBy k n m m' registered listed onward h = elim (Outcome-cases (live k).remove) [
      | inl (e, refuses) ↦
          rw refuses (refused-IsTrackedBy k n m m' registered e refuses listed onward h)
      | inr (u, removes) ↦ rw removes (without_callback-IsTrackedBy n m m' registered onward h)
    ]

    nothing-IsTrackedBy :
        (registered : List (O × ℕ))
        → IsTrackedBy [] registered
        → All (λ r. IsRefused eq live all r.1) registered
    nothing-IsTrackedBy [] h = tt
    nothing-IsTrackedBy (r ∷ registered) h = (
      elim (h.0) [ inl (j, nowhere) ↦ absurd nowhere | inr refused ↦ refused ],
      nothing-IsTrackedBy registered h.1,
    )

    -- What holds behind the second call holds behind both, if the first has returned.
    behind_both :
        (P : Store K O → Type 0) (r : Ended K O) (next : Store K O → Ended K O)
        → r.0 ≡ returned tt
        → P (next r.1).1
        → P (and_then r next).1
    behind_both P (raised e, s) next ends h = absurd (cc ends)
    behind_both P (returned u, s) next ends h = h

    clear_loop-left :
        (ks : List K) (s : Store K O)
        → ((k : K) → (live k).find_remove ≡ returned tt)
        → IsPaired eq s
        → keys eq s.listener_functions ≡ ks
        → ((j : K) (i : ℕ) → Listed eq j i s.listener_functions → Listed eq j i all)
        → IsTrackedBy s.listener_functions s.registered
        → All (λ r. IsRefused eq live all r.1) (clear_loop eq live ks s).1.registered
    unfolding clear_loop clear_one
    clear_loop-left [] s finds paired empty within tracked =
        nothing-IsTrackedBy s.registered
          (subst (λ m. IsTrackedBy m s.registered) (keys-nil eq s.listener_functions empty) tracked)
    clear_loop-left (k ∷ ks) s finds paired first within tracked =
        let (found, remaining, held) = first-has eq s.listener_functions k ks first in
        let (found', remaining', (target, found_object)) =
          first-has eq s.listener_objects k ks (sym paired ∙ first) in
        let (ends, functions, objects) = stop_listen_lem eq (live k) k s paired found (finds k) in
        let (n, number, listed, onward, back) = first-del eq s.listener_functions k ks first in
        let s' = (stop_listen eq (live k) k s).1 in
        let left = stop_listen-registered (live k) k n s found (finds k) number in
        rw found_object (
          behind_both (λ x. All (λ r. IsRefused eq live all r.1) x.registered)
            (stop_listen eq (live k) k s) (clear_loop eq live ks) ends
            (clear_loop-left ks s' finds
              (ap (keys eq) functions ∙ del-paired eq s k paired ∙ sym (ap (keys eq) objects))
              (ap (keys eq) functions ∙ remaining)
              (λ j i there. within j i (back j i (subst (λ m. Listed eq j i m) functions there)))
              (subst (λ m. IsTrackedBy m s'.registered) (sym functions)
                (subst (IsTrackedBy (del eq s.listener_functions k)) (sym left) (
                  removed-IsTrackedBy k n s.listener_functions (del eq s.listener_functions k)
                    s.registered (within k n listed) onward tracked)))))

  -- Each listener that Live calls for the handler is in its dictionary of functions.
  abbrev pub IsTracked : Store K O → Type 0
  IsTracked s = All (λ r. (j : K) × Listed eq j r.1 s.listener_functions) s.registered

  tracked_by :
      (live : K → Answers) (m all : List (K × ℕ)) (registered : List (O × ℕ))
      → All (λ r. (j : K) × Listed eq j r.1 m) registered
      → IsTrackedBy live all m registered
  tracked_by live m all [] h = tt
  tracked_by live m all (r ∷ registered) h = (inl h.0, tracked_by live m all registered h.1)

  -- Behind `_clear_listeners`, Live calls only listeners whose own removal it has refused.
  pub clear_listeners-left :
      (live : K → Answers) (s : Store K O)
      → ((k : K) → (live k).find_remove ≡ returned tt)
      → IsPaired eq s
      → IsTracked s
      → All
          (λ r. IsRefused eq live s.listener_functions r.1)
          (clear_listeners eq live s).1.registered
  unfolding clear_listeners
  clear_listeners-left live s finds paired tracked =
      clear_loop-left live s.listener_functions (keys eq s.listener_functions) s finds paired refl
        (λ j i listed. listed)
        (tracked_by live s.listener_functions s.listener_functions s.registered tracked)
