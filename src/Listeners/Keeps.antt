-- ===== src/Listeners/Keeps.antt =====
-- Every operation keeps the two dictionaries in step, and clearing empties them.
use ohmic_bridge.Prelude.{
  ◌≡◌, refl, sym, ap, ◌∙◌, inl, inr, true, Bool-cases, some, List, [], ◌∷◌, Outcome, returned,
  raised, Outcome-cases,
}
use ohmic_bridge.Listeners.{
  Equality, Store, Answers, Ended, and_then, has, get, del, stop_found, stop_listen, register,
  start_listen, clear_one, clear_loop, clear_listeners,
}
use ohmic_bridge.Listeners.Paired.{keys, IsPaired, stop_listen_lem, del-paired, put-paired}

module _ {K : Type 0} (eq : Equality K) where
  pub same_refl : (k : K) → eq.same k k ≡ true
  same_refl k = (eq.same_iff k k).1 refl

  head_or : K → List K → K
  head_or k [] = k
  head_or k (j ∷ ks) = j

  tail_of : List K → List K
  tail_of [] = []
  tail_of (j ∷ ks) = ks

  -- The first key is there, and is the one that is deleted.
  pub first-has :
      {V : Type 0} (m : List (K × V)) (k : K) (ks : List K)
      → keys eq m ≡ k ∷ ks
      → (has eq m k ≡ true) × (keys eq (del eq m k) ≡ ks) × ((v : V) × (get eq m k ≡ some v))
  unfolding has del get head_or tail_of
  first-has [] k ks e = absurd (cc e)
  first-has (e ∷ m) k ks h =
      let head : e.0 ≡ k = ap (head_or k) h in
      let hit : eq.same e.0 k ≡ true = (eq.same_iff e.0 k).1 head in
      (rw hit refl, rw hit (ap tail_of h), (e.1, rw hit refl))

  pub keys-nil : {V : Type 0} (m : List (K × V)) → keys eq m ≡ [] → m ≡ []
  keys-nil [] h = refl
  keys-nil (e ∷ m) h = absurd (cc h)

module _ {K O : Type 0} (eq : Equality K) where
  -- What holds of the second call holds of both, if the first has returned.
  after :
      (r : Ended K O) (next : Store K O → Ended K O)
      → r.0 ≡ returned tt
      → ((next r.1).0 ≡ returned tt)
        × (keys eq (next r.1).1.listener_functions ≡ [])
        × (keys eq (next r.1).1.listener_objects ≡ [])
      → ((and_then r next).0 ≡ returned tt)
        × (keys eq (and_then r next).1.listener_functions ≡ [])
        × (keys eq (and_then r next).1.listener_objects ≡ [])
  after (raised e, s) next ends h = absurd (cc ends)
  after (returned u, s) next ends h = h

  stop_listen-IsPaired :
      (live : Answers) (k : K) (s : Store K O)
      → IsPaired eq s
      → IsPaired eq (stop_listen eq live k s).1
  unfolding stop_listen stop_found
  stop_listen-IsPaired live k s h = elim (Bool-cases (has eq s.listener_functions k)) [
    | inr absent ↦ rw absent h
    | inl found ↦ elim (Outcome-cases live.find_remove) [
      | inl (e, failed) ↦ rw (found, failed) h
      | inr (u, finds) ↦
          let (ends, functions, objects) = stop_listen_lem eq live k s h found finds in
          ap (keys eq) functions ∙ del-paired eq s k h ∙ sym (ap (keys eq) objects)
    ]
  ]

  register-IsPaired :
      (add value : Outcome (Unit {0})) (target : O) (k : K) (s : Store K O)
      → IsPaired eq s
      → IsPaired eq (register eq add value target k s).1
  unfolding register
  register-IsPaired (raised e) value target k s h = h
  register-IsPaired (returned u) value target k s h = put-paired eq s k s.next target h

  and_then-IsPaired :
      (r : Ended K O) (next : Store K O → Ended K O)
      → IsPaired eq r.1
      → ((s : Store K O) → IsPaired eq s → IsPaired eq (next s).1)
      → IsPaired eq (and_then r next).1
  and_then-IsPaired (raised e, s) next h onward = h
  and_then-IsPaired (returned u, s) next h onward = onward s h

  -- An invariant of `_start_listen` and `_stop_listen`, whatever Live answers and wherever they raise:
  -- the dictionary of functions and the dictionary of objects have the same keys in the same order.
  pub listen-IsPaired :
      (live : Answers) (target : O) (k : K) (s : Store K O)
      → IsPaired eq s
      → IsPaired eq (start_listen eq live target k s).1 × IsPaired eq (stop_listen eq live k s).1
  unfolding start_listen
  listen-IsPaired live target k s h =
      let stopped = stop_listen-IsPaired live k s h in
      (
        and_then-IsPaired (stop_listen eq live k s) _ stopped
            (λ s' h'. register-IsPaired live.add live.value target k s' h'),
        stopped,
      )

  clear_loop_lem :
      (live : K → Answers) (ks : List K) (s : Store K O)
      → ((k : K) → (live k).find_remove ≡ returned tt)
      → IsPaired eq s
      → keys eq s.listener_functions ≡ ks
      → let r = clear_loop eq live ks s in
        (r.0 ≡ returned tt)
        × (keys eq r.1.listener_functions ≡ [])
        × (keys eq r.1.listener_objects ≡ [])
  unfolding clear_loop clear_one
  clear_loop_lem live [] s finds h all = (refl, all, sym h ∙ all)
  clear_loop_lem live (k ∷ ks) s finds h all =
      let (found, remaining, held) = first-has eq s.listener_functions k ks all in
      let (found', remaining', (target, found_object)) =
        first-has eq s.listener_objects k ks (sym h ∙ all) in
      let (ends, functions, objects) = stop_listen_lem eq (live k) k s h found (finds k) in
      let s' = (stop_listen eq (live k) k s).1 in
      let onward =
        clear_loop_lem live ks s' finds
          (ap (keys eq) functions ∙ del-paired eq s k h ∙ sym (ap (keys eq) objects))
          (ap (keys eq) functions ∙ remaining) in
      rw found_object (after (stop_listen eq (live k) k s) (clear_loop eq live ks) ends onward)

  -- With the dictionaries in step, and if each listener's target still has its method for removal,
  -- `_clear_listeners` returns and leaves no listener, whatever the removals themselves raise.
  pub clear_listeners-empties :
      (live : K → Answers) (s : Store K O)
      → ((k : K) → (live k).find_remove ≡ returned tt)
      → IsPaired eq s
      → let r = clear_listeners eq live s in
        (r.0 ≡ returned tt) × (r.1.listener_functions ≡ []) × (r.1.listener_objects ≡ [])
  unfolding clear_listeners
  clear_listeners-empties live s finds h =
      let (ends, functions, objects) =
        clear_loop_lem live (keys eq s.listener_functions) s finds h refl in
      (ends, keys-nil eq _ functions, keys-nil eq _ objects)
