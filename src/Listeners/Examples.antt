-- ===== src/Listeners/Examples.antt =====
-- Two listeners of a handler, and those of two devices.
use ohmic_bridge.Prelude.{
  ℕ, ◌+◌, ◌≡◌, ◌↔◌, refl, ap, ap₂, Bool, true, false, ◌&&◌, ◌==◌, ==_iff, some, List, [], ◌∷◌, ◌++◌,
  Text, text_eq, text_eq_iff, codes, returned, raised, attribute_error, index_error, Outcome, zero,
  arith,
}
use ohmic_bridge.Listeners.{Equality, Store, Answers, has, get, start_listen, stop_listen}
use ohmic_bridge.Listeners.Devices.{device_start_listen, device_start_listen-leaks}
use ohmic_bridge.Listeners.Paired.{IsPaired}
use ohmic_bridge.Listeners.Keeps.{listen-IsPaired}

abbrev numbers : Equality ℕ
numbers = record { same = λ a b. a == b; same_iff = λ a b. ==_iff a b }

-- The removal raises, as it does for a clip that has been deleted.
abbrev gone : Answers
gone = record {
  add = returned tt;
  find_remove = returned tt;
  remove = raised (record { class = attribute_error; message = [] });
  value = returned tt;
}

abbrev two : Store ℕ ℕ
two = record {
  listener_functions = (5, 0) ∷ (6, 1) ∷ [];
  listener_objects = (5, 50) ∷ (6, 60) ∷ [];
  registered = (50, 0) ∷ (60, 1) ∷ [];
  next = 2;
}

listen-IsPaired_example :
    IsPaired numbers (start_listen numbers gone 50 5 two).1
    × IsPaired numbers (stop_listen numbers gone 5 two).1
listen-IsPaired_example = listen-IsPaired numbers gone 50 5 two refl

-- A property with numbers for the arguments.
abbrev equal_keys : Text × List ℕ → Text × List ℕ → Bool
equal_keys (p, l) (q, m) = text_eq p q && text_eq l m

equal_keys_iff : (a b : Text × List ℕ) → (equal_keys a b ≡ true) ↔ (a ≡ b)
equal_keys_iff (p, l) (q, m) = (
  (λ h.
      ap₂ (λ x y. (x, y)) ((text_eq_iff p q).0 (ground (arith, h)))
        ((text_eq_iff l m).0 (ground (arith, h)))),
  λ e.
      let same : text_eq p q ≡ true = (text_eq_iff p q).1 (ap (λ k. k.0) e) in
      let same' : text_eq l m ≡ true = (text_eq_iff l m).1 (ap (λ k. k.1) e) in
      rw (same, same') refl,
)

abbrev properties : Equality (Text × List ℕ)
properties = record { same = equal_keys; same_iff = equal_keys_iff }

abbrev here : Answers
here = record {
  add = returned tt;
  find_remove = returned tt;
  remove = returned tt;
  value = returned tt;
}

abbrev nothing : Store (Text × List ℕ) ℕ
nothing = record { listener_functions = []; listener_objects = []; registered = []; next = 0 }

-- The device of an index, on a track that there is.
abbrev device_of : List ℕ → Outcome ℕ
device_of (zero ∷ device ∷ params) = returned device
device_of _ = raised (record { class = index_error; message = [] })

none_started : has properties nothing.listener_functions (codes "name", []) ≡ false
unfolding has
none_started = refl

device_start_listen-leaks_example :
    let one = device_start_listen properties here device_of (codes "name") (0 ∷ 3 ∷ []) nothing in
    let two = device_start_listen properties gone device_of (codes "name") (0 ∷ 4 ∷ []) one.1 in
    (two.1.registered ≡ [] ++ (3, 0) ∷ (4, 0 + 1) ∷ [])
    × (get properties two.1.listener_functions (codes "name", []) ≡ some (0 + 1))
    × (get properties two.1.listener_objects (codes "name", []) ≡ some 4)
device_start_listen-leaks_example =
    device_start_listen-leaks properties device_of (codes "name") here gone 0 3 0 4 3 4
      (record { class = attribute_error; message = [] }) nothing refl refl none_started refl refl
      refl refl
