-- ===== src/Listeners/Paired.antt =====
-- The two dictionaries of a handler have the same keys, and then all listeners can be cleared.
use ohmic_bridge.Prelude.{
  ℕ, ◌≡◌, refl, sym, ap, ◌∙◌, inl, inr, Bool, true, false, Bool-cases, if◌then◌else◌, Option, none,
  some, List, [], ◌∷◌, map, Outcome, returned, raised,
}
use ohmic_bridge.Listeners.{
  Equality, Store, Answers, has, get, put, del, forget, unregister, stop_found, stop_listen,
}

module _ {K : Type 0} (eq : Equality K) where
  abbrev pub keys : {V : Type 0} → List (K × V) → List K
  keys = map (λ e. e.0)

  -- `has`, `put` and `del` on the keys alone.
  unfoldable pub has_key : List K → K → Bool
  has_key [] k = false
  has_key (j ∷ ks) k = if eq.same j k then true else has_key ks k

  unfoldable pub put_key : List K → K → List K
  put_key [] k = k ∷ []
  put_key (j ∷ ks) k = let rest = put_key ks k in if eq.same j k then j ∷ ks else j ∷ rest

  unfoldable pub del_key : List K → K → List K
  del_key [] k = []
  del_key (j ∷ ks) k = let rest = del_key ks k in if eq.same j k then ks else j ∷ rest

  pub has-keys : {V : Type 0} (m : List (K × V)) (k : K) → has eq m k ≡ has_key (keys m) k
  unfolding has has_key
  has-keys [] k = refl
  has-keys (e ∷ m) k = elim (Bool-cases (eq.same e.0 k)) [
    | inl hit ↦ rw hit refl
    | inr miss ↦ rw miss (has-keys m k)
  ]

  pub keys-put :
      {V : Type 0} (m : List (K × V)) (k : K) (v : V) → keys (put eq m k v) ≡ put_key (keys m) k
  unfolding put put_key
  keys-put [] k v = refl
  keys-put (e ∷ m) k v = elim (Bool-cases (eq.same e.0 k)) [
    | inl hit ↦ rw hit refl
    | inr miss ↦ rw miss (ap (λ l. e.0 ∷ l) (keys-put m k v))
  ]

  pub keys-del : {V : Type 0} (m : List (K × V)) (k : K) → keys (del eq m k) ≡ del_key (keys m) k
  unfolding del del_key
  keys-del [] k = refl
  keys-del (e ∷ m) k = elim (Bool-cases (eq.same e.0 k)) [
    | inl hit ↦ rw hit refl
    | inr miss ↦ rw miss (ap (λ l. e.0 ∷ l) (keys-del m k))
  ]

  module _ {O : Type 0} where
    -- Each listener's function has its object.
    abbrev pub IsPaired : Store K O → Type 0
    IsPaired s = keys s.listener_functions ≡ keys s.listener_objects

    pub has-paired :
        (s : Store K O) (k : K)
        → IsPaired s
        → has eq s.listener_functions k ≡ has eq s.listener_objects k
    has-paired s k h =
        has-keys s.listener_functions k
        ∙ ap (λ ks. has_key ks k) h
        ∙ sym (has-keys s.listener_objects k)

    pub del-paired :
        (s : Store K O) (k : K)
        → IsPaired s
        → keys (del eq s.listener_functions k) ≡ keys (del eq s.listener_objects k)
    del-paired s k h =
        keys-del s.listener_functions k
        ∙ ap (λ ks. del_key ks k) h
        ∙ sym (keys-del s.listener_objects k)

    pub put-paired :
        (s : Store K O) (k : K) (n : ℕ) (target : O)
        → IsPaired s
        → keys (put eq s.listener_functions k n) ≡ keys (put eq s.listener_objects k target)
    put-paired s k n target h =
        keys-put s.listener_functions k n
        ∙ ap (λ ks. put_key ks k) h
        ∙ sym (keys-put s.listener_objects k target)

    unregister-functions :
        (answer : Outcome (Unit {0})) (n : Option ℕ) (s : Store K O)
        → (unregister eq answer n s).listener_functions ≡ s.listener_functions
    unregister-functions (raised e) n s = refl
    unregister-functions (returned u) none s = refl
    unregister-functions (returned u) (some n) s = refl

    pub unregister-objects :
        (answer : Outcome (Unit {0})) (n : Option ℕ) (s : Store K O)
        → (unregister eq answer n s).listener_objects ≡ s.listener_objects
    unregister-objects (raised e) n s = refl
    unregister-objects (returned u) none s = refl
    unregister-objects (returned u) (some n) s = refl

    -- A key that is there is deleted from both, and nothing is raised.
    pub forget_lem :
        (k : K) (s : Store K O)
        → IsPaired s
        → has eq s.listener_functions k ≡ true
        → let r = forget eq k s in
          (r.0 ≡ returned tt)
          × (r.1.listener_functions ≡ del eq s.listener_functions k)
          × (r.1.listener_objects ≡ del eq s.listener_objects k)
    unfolding forget
    forget_lem k s h found =
        let both : has eq s.listener_objects k ≡ true = sym (has-paired s k h) ∙ found in
        rw both ((refl, refl, refl))

    unregister-IsPaired :
        (answer : Outcome (Unit {0})) (n : Option ℕ) (s : Store K O)
        → IsPaired s
        → IsPaired (unregister eq answer n s)
    unregister-IsPaired (raised e) n s h = h
    unregister-IsPaired (returned u) none s h = h
    unregister-IsPaired (returned u) (some n) s h = h

    pub stop_listen_lem :
        (live : Answers) (k : K) (s : Store K O)
        → IsPaired s
        → has eq s.listener_functions k ≡ true
        → live.find_remove ≡ returned tt
        → let r = stop_listen eq live k s in
          (r.0 ≡ returned tt)
          × (r.1.listener_functions ≡ del eq s.listener_functions k)
          × (r.1.listener_objects ≡ del eq s.listener_objects k)
    unfolding stop_listen stop_found
    stop_listen_lem live k s h found finds =
        let n = get eq s.listener_functions k in
        let s' = unregister eq live.remove n s in
        let same = unregister-functions live.remove n s in
        let same' = unregister-objects live.remove n s in
        let (ends, functions, objects) =
          forget_lem k s' (unregister-IsPaired live.remove n s h)
            (ap (λ m. has eq m k) same ∙ found) in
        rw (found, finds)
          ((ends, functions ∙ ap (λ m. del eq m k) same, objects ∙ ap (λ m. del eq m k) same'))
