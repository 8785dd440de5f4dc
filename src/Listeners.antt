-- ===== src/Listeners.antt =====
-- The listeners of a handler: `_start_listen`, `_stop_listen` and `_clear_listeners` of
-- abletonosc/handler.py, their guarded variants, and the mixer's of abletonosc/track.py. A key is a
-- property with its parameters; what Live answers to a call is an argument of it.
pub mod Paired
pub mod Keeps
pub mod Left
pub mod Unpaired
pub mod Devices
mod Examples
use ohmic_bridge.Prelude.{
  ℕ, ◌+◌, ◌==◌, ◌≡◌, ◌↔◌, Bool, true, false, if◌then◌else◌, Option, none, some, List, [], ◌∷◌, ◌++◌,
  map, Outcome, returned, raised, Exn, key_error,
}

-- Python's `==` on keys.
pub record Equality (K : Type 0) : Type 0 where
  pub same : K → K → Bool
  pub same_iff : (a b : K) → (same a b ≡ true) ↔ (a ≡ b)

-- `registered` are the listeners that Live calls, each an object with a callback.
pub record Store (K O : Type 0) : Type 0 where
  pub listener_functions : List (K × ℕ)
  pub listener_objects : List (K × O)
  pub registered : List (O × ℕ)
  pub next : ℕ

-- What Live answers: to finding and calling the `add_…_listener` of the target, to finding its
-- `remove_…_listener`, to calling that, and to sending the current value.
pub record Answers : Type 0 where
  pub add : Outcome (Unit {0})
  pub find_remove : Outcome (Unit {0})
  pub remove : Outcome (Unit {0})
  pub value : Outcome (Unit {0})

abbrev pub Ended : Type 0 → Type 0 → Type 0
Ended K O = Outcome (Unit {0}) × Store K O

abbrev pub missing_key : Exn
missing_key = record { class = key_error; message = [] }

abbrev pub and_then : {K O : Type 0} → Ended K O → (Store K O → Ended K O) → Ended K O
and_then (raised e, s) next = (raised e, s)
and_then (returned u, s) next = next s

module _ {K : Type 0} (eq : Equality K) where
  unfoldable pub has : {V : Type 0} → List (K × V) → K → Bool
  has [] k = false
  has (e ∷ m) k = if eq.same e.0 k then true else has m k

  unfoldable pub get : {V : Type 0} → List (K × V) → K → Option V
  get [] k = none
  get (e ∷ m) k = if eq.same e.0 k then some e.1 else get m k

  -- `d[k] = v`
  unfoldable pub put : {V : Type 0} → List (K × V) → K → V → List (K × V)
  put [] k v = (k, v) ∷ []
  put (e ∷ m) k v = let rest = put m k v in if eq.same e.0 k then (e.0, v) ∷ m else e ∷ rest

  -- `del d[k]`
  unfoldable pub del : {V : Type 0} → List (K × V) → K → List (K × V)
  del [] k = []
  del (e ∷ m) k = let rest = del m k in if eq.same e.0 k then m else e ∷ rest

  module _ {O : Type 0} where
    -- The two `del` statements.
    unfoldable pub forget : K → Store K O → Ended K O
    forget k s =
        let s' = record s { listener_functions = del s.listener_functions k } in
        if has s.listener_objects k
        then (returned tt, record s' { listener_objects = del s.listener_objects k })
        else (raised missing_key, s')

    -- The listeners without a callback; each callback is added once, so its number tells it.
    unfoldable pub without_callback : ℕ → List (O × ℕ) → List (O × ℕ)
    without_callback n [] = []
    without_callback n (e ∷ l) =
        let others = without_callback n l in if e.1 == n then others else e ∷ others

    -- Live no longer calls a listener that it has removed.
    abbrev pub unregister : Outcome (Unit {0}) → Option ℕ → Store K O → Store K O
    unregister (raised e) listener s = s
    unregister (returned u) none s = s
    unregister (returned u) (some n) s = record s { registered = without_callback n s.registered }

    -- `_stop_listen` of a key that has a function.
    unfoldable pub stop_found : Outcome (Unit {0}) → Outcome (Unit {0}) → K → Store K O → Ended K O
    stop_found (raised e) remove k s = (raised e, s)
    stop_found (returned u) remove k s = forget k (unregister remove (get s.listener_functions k) s)

    unfoldable pub stop_listen : Answers → K → Store K O → Ended K O
    stop_listen live k s =
        if has s.listener_functions k
        then stop_found live.find_remove live.remove k s
        else (returned tt, s)

    -- `_start_listen`, behind the removal of an older listener.
    unfoldable pub register :
        Outcome (Unit {0}) → Outcome (Unit {0}) → O → K → Store K O → Ended K O
    register (raised e) value target k s = (raised e, s)
    register (returned u) value target k s = (
      value,
      record {
        listener_functions = put s.listener_functions k s.next;
        listener_objects = put s.listener_objects k target;
        registered = s.registered ++ (target, s.next) ∷ [];
        next = s.next + 1;
      },
    )

    unfoldable pub start_listen : Answers → O → K → Store K O → Ended K O
    start_listen live target k s =
        and_then (stop_listen live k s) (register live.add live.value target k)

    -- The guarded variants: an exception is what the reply says.
    abbrev pub guarded : Ended K O → Option Exn × Store K O
    guarded (returned u, s) = (none, s)
    guarded (raised e, s) = (some e, s)

    -- `target = self.listener_objects[listener_key]`, then `_stop_listen` of it.
    unfoldable pub clear_one : Answers → Option O → K → Store K O → Ended K O
    clear_one live none k s = (raised missing_key, s)
    clear_one live (some target) k s = stop_listen live k s

    -- The loop of `_clear_listeners` over the keys; Live answers each time anew.
    unfoldable pub clear_loop : (K → Answers) → List K → Store K O → Ended K O
    clear_loop live [] s = (returned tt, s)
    clear_loop live (k ∷ ks) s =
        and_then (clear_one (live k) (get s.listener_objects k) k s) (clear_loop live ks)

    unfoldable pub clear_listeners : (K → Answers) → Store K O → Ended K O
    clear_listeners live s = clear_loop live (map (λ e. e.0) s.listener_functions) s

    -- `_start_mixer_listen` of a key without a listener: the object is not stored.
    unfoldable pub register_mixer :
        Outcome (Unit {0}) → Outcome (Unit {0}) → O → K → Store K O → Ended K O
    register_mixer (raised e) value target k s = (raised e, s)
    register_mixer (returned u) value target k s = (
      value,
      record s {
        listener_functions = put s.listener_functions k s.next;
        registered = s.registered ++ (target, s.next) ∷ [];
        next = s.next + 1;
      },
    )
