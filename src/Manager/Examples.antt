-- ===== src/Manager/Examples.antt =====
-- A bridge with two handlers, reloaded with and without a mixer listener.
use ohmic_bridge.Prelude.{
  inl, inr, ℕ, ◌≡◌, ◌≢◌, refl, ◌==◌, if◌then◌else◌, ==_iff, false, List, map, [], ◌∷◌, ◌++◌, Text,
  codes, Outcome, returned, raised, attribute_error,
}
use ohmic_bridge.Listeners.{
  Equality, has, get, del, forget, without_callback, stop_found, stop_listen, clear_one, clear_loop,
  clear_listeners, register_mixer,
}
use ohmic_bridge.Manager.{clear_api, clear_all, Handler, Bridge, reload_imports}
use ohmic_bridge.Manager.Reload.{IsClearable, AreCleared, reload_imports-fresh, reload_imports-deaf}

abbrev numbers : Equality ℕ
numbers = record { same = λ a b. a == b; same_iff = λ a b. ==_iff a b }

-- The removal raises for the second listener, as it does for a clip that has been deleted.
abbrev clips : Handler ℕ ℕ
clips = record {
  store = record {
    listener_functions = (5, 0) ∷ (6, 1) ∷ [];
    listener_objects = (5, 50) ∷ (6, 60) ∷ [];
    registered = (50, 0) ∷ (60, 1) ∷ [];
    next = 2;
  };
  live = λ k. record {
    add = returned tt;
    find_remove = returned tt;
    remove =
        if k == 5 then returned tt else raised (record { class = attribute_error; message = [] });
    value = returned tt;
  };
}

clips-IsClearable : IsClearable numbers clips
clips-IsClearable = (refl, ((5, inl (refl, refl)), ((6, inr (inl (refl, refl))), tt)), λ k. refl)

abbrev addresses : List (Text × ℕ)
addresses = (codes "/live/test", 0) ∷ []

abbrev bridge : Bridge ℕ ℕ ℕ
bridge = record { callbacks = addresses; handlers = clips ∷ clips ∷ [] }

abbrev init_api : Bridge ℕ ℕ ℕ → Outcome (Unit {0}) × Bridge ℕ ℕ ℕ
init_api b = (returned tt, record b { callbacks = addresses })

reload_imports-fresh_example :
    (c : Bridge ℕ ℕ ℕ) × (reload_imports numbers init_api bridge ≡ init_api c)
    × (c.callbacks ≡ [])
    × AreCleared numbers (clips ∷ clips ∷ []) c.handlers
reload_imports-fresh_example =
    reload_imports-fresh numbers init_api bridge (clips-IsClearable, (clips-IsClearable, tt))

absent : has numbers clips.store.listener_objects 7 ≡ false
unfolding has
absent = refl

reload_imports-deaf_example :
    let started = record clips {
      store = (register_mixer numbers (returned tt) (returned tt) 70 7 clips.store).1;
    } in
    let r =
      reload_imports numbers init_api
        (record { callbacks = addresses; handlers = (clips ∷ []) ++ started ∷ [] }) in
    (r.0 ≢ returned tt) × (r.1.callbacks ≡ [])
reload_imports-deaf_example =
    reload_imports-deaf numbers init_api addresses (clips ∷ []) clips [] (returned tt) 70 7 absent

-- Live keeps the second listener of each handler.
one_left :
    map (λ h. h.store.registered) (reload_imports numbers init_api bridge).1.handlers
    ≡ ((60, 1) ∷ []) ∷ ((60, 1) ∷ []) ∷ []
unfolding reload_imports clear_api clear_all clear_listeners clear_loop clear_one stop_listen
    stop_found forget without_callback has get del
one_left = refl
