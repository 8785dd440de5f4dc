-- ===== src/Listeners/Unpaired.antt =====
-- A listener without an object, such as the mixer's, keeps all listeners from being cleared.
use ohmic_bridge.Prelude.{
  ◌≡◌, ◌≢◌, refl, sym, ap, ◌∙◌, inl, inr, true, false, Bool-cases, if◌then◌else◌, Option, none,
  some, List, [], ◌∷◌, Outcome, returned, raised,
}
use ohmic_bridge.Listeners.{
  Equality, Store, Answers, Ended, and_then, has, get, put, del, forget, unregister, stop_found,
  stop_listen, clear_one, clear_loop, clear_listeners, register_mixer,
}
use ohmic_bridge.Listeners.Paired.{keys, has_key, put_key, keys-put, unregister-objects}
use ohmic_bridge.Listeners.Keeps.{same_refl}

module _ {K : Type 0} (eq : Equality K) where
  has-del :
      {V : Type 0} (m : List (K × V)) (j k : K) → has eq m k ≡ false → has eq (del eq m j) k ≡ false
  unfolding has del
  has-del [] j k h = refl
  has-del (e ∷ m) j k h = elim (Bool-cases (eq.same e.0 k)) [
    | inl hit ↦ absurd (cc (sym (ap (λ b. if b then true else has eq m k) hit) ∙ h))
    | inr miss ↦
        let later : has eq m k ≡ false = sym (ap (λ b. if b then true else has eq m k) miss) ∙ h in
        elim (Bool-cases (eq.same e.0 j)) [
          | inl here ↦ rw here later
          | inr other ↦ rw (other, miss) (has-del m j k later)
        ]
  ]

  get-none : {V : Type 0} (m : List (K × V)) (k : K) → has eq m k ≡ false → get eq m k ≡ none
  unfolding has get
  get-none [] k h = refl
  get-none (e ∷ m) k h = elim (Bool-cases (eq.same e.0 k)) [
    | inl hit ↦ absurd (cc (sym (ap (λ b. if b then true else has eq m k) hit) ∙ h))
    | inr miss ↦ rw miss (get-none m k (sym (ap (λ b. if b then true else has eq m k) miss) ∙ h))
  ]

  has_key-put : (ks : List K) (k : K) → has_key eq (put_key eq ks k) k ≡ true
  unfolding has_key put_key
  has_key-put [] k = rw (same_refl eq k) refl
  has_key-put (j ∷ ks) k = elim (Bool-cases (eq.same j k)) [
    | inl hit ↦ rw (hit, hit) refl
    | inr miss ↦ rw (miss, miss) (has_key-put ks k)
  ]

module _ {K O : Type 0} (eq : Equality K) (k : K) where
  abbrev Absent : Store K O → Type 0
  Absent s = has eq s.listener_objects k ≡ false

  forget-Absent : (j : K) (s : Store K O) → Absent s → Absent (forget eq j s).1
  unfolding forget
  forget-Absent j s h = elim (Bool-cases (has eq s.listener_objects j)) [
    | inl found ↦ rw found (has-del eq s.listener_objects j k h)
    | inr missing ↦ rw missing h
  ]

  stop_found-Absent :
      (finds answer : Outcome (Unit {0})) (j : K) (s : Store K O)
      → Absent s
      → Absent (stop_found eq finds answer j s).1
  unfolding stop_found
  stop_found-Absent (raised e) answer j s h = h
  stop_found-Absent (returned u) answer j s h =
      forget-Absent j (unregister eq answer (get eq s.listener_functions j) s)
        (ap (λ m. has eq m k) (unregister-objects eq answer (get eq s.listener_functions j) s) ∙ h)

  stop_listen-Absent :
      (live : Answers) (j : K) (s : Store K O) → Absent s → Absent (stop_listen eq live j s).1
  unfolding stop_listen
  stop_listen-Absent live j s h = elim (Bool-cases (has eq s.listener_functions j)) [
    | inl found ↦ rw found (stop_found-Absent live.find_remove live.remove j s h)
    | inr missing ↦ rw missing h
  ]

  clear_one-Absent :
      (live : Answers) (target : Option O) (j : K) (s : Store K O)
      → Absent s
      → Absent (clear_one eq live target j s).1
  unfolding clear_one
  clear_one-Absent live none j s h = h
  clear_one-Absent live (some target) j s h = stop_listen-Absent live j s h

  never :
      (r : Ended K O) (next : Store K O → Ended K O)
      → Absent r.1
      → ((s : Store K O) → Absent s → (next s).0 ≢ returned tt)
      → (and_then r next).0 ≢ returned tt
  never (raised e, s) next h onward p = cc p
  never (returned u, s) next h onward p = onward s h p

  clear_loop-raises :
      (live : K → Answers) (ks : List K) (s : Store K O)
      → has_key eq ks k ≡ true
      → Absent s
      → (clear_loop eq live ks s).0 ≢ returned tt
  unfolding clear_loop clear_one has_key
  clear_loop-raises live [] s among h = absurd (cc among)
  clear_loop-raises live (j ∷ js) s among h = elim (Bool-cases (eq.same j k)) [
    | inl hit ↦
        let missing : get eq s.listener_objects j ≡ none =
          ap (get eq s.listener_objects) ((eq.same_iff j k).0 hit)
          ∙ get-none eq s.listener_objects k h in
        rw missing (λ p. cc p)
    | inr miss ↦
        never (clear_one eq (live j) (get eq s.listener_objects j) j s) _
          (clear_one-Absent (live j) (get eq s.listener_objects j) j s h)
          (λ s' h'.
            clear_loop-raises live js s'
              (sym (ap (λ b. if b then true else has_key eq js k) miss) ∙ among) h')
  ]

  -- Once a mixer listener has been started under a key that has no listener, `_clear_listeners` does
  -- not return, whatever Live answers: the object of that key is missing.
  pub register_mixer-clear :
      (value : Outcome (Unit {0})) (target : O) (live : K → Answers) (s : Store K O)
      → has eq s.listener_objects k ≡ false
      → (clear_listeners eq live (register_mixer eq (returned tt) value target k s).1).0
        ≢ returned tt
  unfolding clear_listeners register_mixer
  register_mixer-clear value target live s h =
      clear_loop-raises live (keys eq (put eq s.listener_functions k s.next)) _
        (ap (λ ks. has_key eq ks k) (keys-put eq s.listener_functions k s.next)
          ∙ has_key-put eq (keys eq s.listener_functions) k)
        h
