-- ===== src/Listeners/Devices.antt =====
-- The listeners of devices: abletonosc/device.py starts them without the indices of the track and the
-- device in the key, unlike the other handlers.
use ohmic_bridge.Prelude.{
  ◌+◌, ◌≡◌, refl, true, false, Bool-cases, some, List, [], ◌∷◌, ◌++◌, drop, append_assoc, inl, inr,
  Outcome, returned, raised, Exn,
}
use ohmic_bridge.Listeners.{
  Equality, Store, Answers, Ended, has, get, put, del, forget, stop_found, stop_listen, register,
  start_listen,
}
use ohmic_bridge.Listeners.Keeps.{same_refl}

-- A call for the device that is found, if it is.
abbrev on_device : {K O : Type 0} → Outcome O → (O → Store K O → Ended K O) → Store K O → Ended K O
on_device (raised e) call s = (raised e, s)
on_device (returned device) call s = call device s

-- `device_callback` of `_start_listen` and a property: the device that the first two arguments name, if
-- they are numbers of a track and a device, and the arguments behind them in the key.
unfoldable pub device_start_listen :
    {P A O : Type 0}
    → Equality (P × List A)
    → Answers
    → (List A → Outcome O)
    → P
    → List A
    → Store (P × List A) O
    → Ended (P × List A) O
device_start_listen eq live device_of prop params s =
    on_device (device_of params) (λ device. start_listen eq live device (prop, drop 2 params)) s

module _ {K : Type 0} (eq : Equality K) where
  has-put : {V : Type 0} (m : List (K × V)) (k : K) (v : V) → has eq (put eq m k v) k ≡ true
  unfolding has put
  has-put [] k v = rw (same_refl eq k) refl
  has-put (e ∷ m) k v = elim (Bool-cases (eq.same e.0 k)) [
    | inl hit ↦ rw (hit, hit) refl
    | inr miss ↦ rw (miss, miss) (has-put m k v)
  ]

  get-put : {V : Type 0} (m : List (K × V)) (k : K) (v : V) → get eq (put eq m k v) k ≡ some v
  unfolding get put
  get-put [] k v = rw (same_refl eq k) refl
  get-put (e ∷ m) k v = elim (Bool-cases (eq.same e.0 k)) [
    | inl hit ↦ rw (hit, hit) refl
    | inr miss ↦ rw (miss, miss) (get-put m k v)
  ]

module _ {P A O : Type 0} (eq : Equality (P × List A)) (device_of : List A → Outcome O)
    (prop : P) where
  -- If no listener of a property has been started, two requests name a device each, and Live does not find
  -- a listener of the one device at the other, then starting it for both leaves both with Live, and keeps
  -- the callback of the second only.
  pub device_start_listen-leaks :
      (first second : Answers) (track device other_track other_device : A) (one two : O) (e : Exn)
      (s : Store (P × List A) O)
      → device_of (track ∷ device ∷ []) ≡ returned one
      → device_of (other_track ∷ other_device ∷ []) ≡ returned two
      → has eq s.listener_functions (prop, []) ≡ false
      → first.add ≡ returned tt
      → second.find_remove ≡ returned tt
      → second.remove ≡ raised e
      → second.add ≡ returned tt
      → let started = device_start_listen eq first device_of prop (track ∷ device ∷ []) s in
        let both =
          device_start_listen eq second device_of prop
            (other_track ∷ other_device ∷ [])
            started.1 in
        (both.1.registered ≡ s.registered ++ (one, s.next) ∷ (two, s.next + 1) ∷ [])
        × (get eq both.1.listener_functions (prop, []) ≡ some (s.next + 1))
        × (get eq both.1.listener_objects (prop, []) ≡ some two)
  unfolding device_start_listen start_listen stop_listen stop_found forget register
  device_start_listen-leaks first second track device other_track other_device one two e s at at'
        absent add finds remove add' =
      let k : P × List A = (prop, []) in
      rw
        (
          at,
          at',
          absent,
          add,
          has-put eq s.listener_functions k s.next,
          finds,
          remove,
          has-put eq s.listener_objects k one,
          add',
        )
        (
          append_assoc s.registered ((one, s.next) ∷ []) ((two, s.next + 1) ∷ []),
          get-put eq (del eq (put eq s.listener_functions k s.next) k) k (s.next + 1),
          get-put eq (del eq (put eq s.listener_objects k one) k) k two,
        )
