-- ===== src/Manager/Reload.antt =====
-- How a reload of manager.py ends, by the listeners that there are.
use ohmic_bridge.Prelude.{
  ◌≡◌, ◌≢◌, refl, false, List, [], ◌∷◌, ◌++◌, All, Text, Outcome, returned, raised,
}
use ohmic_bridge.Listeners.{Equality, Store, has, clear_listeners, register_mixer}
use ohmic_bridge.Listeners.Paired.{IsPaired}
use ohmic_bridge.Listeners.Keeps.{clear_listeners-empties}
use ohmic_bridge.Listeners.Left.{IsRefused, IsTracked, clear_listeners-left}
use ohmic_bridge.Listeners.Unpaired.{register_mixer-clear}
use ohmic_bridge.Manager.{
  Handler, Bridge, then_clear, clear_all, clear_api, then_init, reload_imports,
}

module _ {K O : Type 0} (eq : Equality K) where
  -- A handler whose dictionaries are in step, whose listeners with Live are in them, and whose targets
  -- have their methods for removal.
  abbrev pub IsClearable : Handler K O → Type 0
  IsClearable h =
      IsPaired eq h.store × IsTracked eq h.store × ((k : K) → (h.live k).find_remove ≡ returned tt)

  -- What a handler has become: no listener is in its dictionaries, and those that Live still calls for it
  -- are callbacks of its dictionary whose own removal Live has refused.
  abbrev pub IsCleared : Handler K O → Handler K O → Type 0
  IsCleared h h' =
      (h'.store.listener_functions ≡ [])
      × (h'.store.listener_objects ≡ [])
      × All (λ r. IsRefused eq h.live h.store.listener_functions r.1) h'.store.registered

  abbrev pub AreCleared : List (Handler K O) → List (Handler K O) → Type 0
  AreCleared [] [] = Unit
  AreCleared [] (h' ∷ later) = ⊥
  AreCleared (h ∷ handlers) [] = ⊥
  AreCleared (h ∷ handlers) (h' ∷ later) = IsCleared h h' × AreCleared handlers later

  clear_all-AreCleared :
      (handlers : List (Handler K O))
      → All IsClearable handlers
      → ((clear_all eq handlers).0 ≡ returned tt) × AreCleared handlers (clear_all eq handlers).1
  unfolding clear_all
  clear_all-AreCleared [] h = (refl, tt)
  clear_all-AreCleared (x ∷ handlers) h =
      cleared (clear_listeners eq x.live x.store) (clear_all eq handlers)
        (clear_listeners-empties eq x.live x.store h.0.2 h.0.0)
        (clear_listeners-left eq x.live x.store h.0.2 h.0.0 h.0.1)
        (clear_all-AreCleared handlers h.1)
    where
      cleared :
          (r : Outcome (Unit {0}) × Store K O) (behind : Outcome (Unit {0}) × List (Handler K O))
          → (r.0 ≡ returned tt) × (r.1.listener_functions ≡ []) × (r.1.listener_objects ≡ [])
          → All (λ e. IsRefused eq x.live x.store.listener_functions e.1) r.1.registered
          → (behind.0 ≡ returned tt) × AreCleared handlers behind.1
          → ((then_clear eq x r handlers behind).0 ≡ returned tt)
            × AreCleared (x ∷ handlers) (then_clear eq x r handlers behind).1
      cleared (raised e, s) behind p left q = absurd (cc (p.0))
      cleared (returned u, s) behind p left q = (q.0, ((p.1, p.2, left), q.1))

  then_clear-raises :
      (x : Handler K O) (r : Outcome (Unit {0}) × Store K O) (handlers : List (Handler K O))
      (behind : Outcome (Unit {0}) × List (Handler K O))
      → behind.0 ≢ returned tt
      → (then_clear eq x r handlers behind).0 ≢ returned tt
  then_clear-raises x (raised e, s) handlers behind h p = cc p
  then_clear-raises x (returned u, s) handlers behind h p = h p

  -- A handler whose listeners cannot be cleared.
  abbrev IsStuck : Handler K O → Type 0
  IsStuck h = (clear_listeners eq h.live h.store).0 ≢ returned tt

  clear_all-raises :
      (before : List (Handler K O)) (h : Handler K O) (later : List (Handler K O))
      → IsStuck h
      → (clear_all eq (before ++ h ∷ later)).0 ≢ returned tt
  unfolding clear_all
  clear_all-raises [] h later stuck =
      first (clear_listeners eq h.live h.store) (clear_all eq later) stuck
    where
      first :
          (r : Outcome (Unit {0}) × Store K O) (behind : Outcome (Unit {0}) × List (Handler K O))
          → r.0 ≢ returned tt
          → (then_clear eq h r later behind).0 ≢ returned tt
      first (raised e, s) behind stuck p = cc p
      first (returned u, s) behind stuck p = stuck refl
  clear_all-raises (x ∷ before) h later stuck =
      then_clear-raises x (clear_listeners eq x.live x.store) (before ++ h ∷ later)
        (clear_all eq (before ++ h ∷ later)) (clear_all-raises before h later stuck)

  module _ {F : Type 0} where
    -- If every handler has its dictionaries in step, every listener that Live calls for it in them, and its
    -- targets their methods for removal, then a reload goes on with `init_api`, without a callback in the
    -- server, with empty dictionaries, and with no listener left in Live but those of a handler whose own
    -- removal Live has refused.
    pub reload_imports-fresh :
        (init_api : Bridge F K O → Outcome (Unit {0}) × Bridge F K O) (b : Bridge F K O)
        → All IsClearable b.handlers
        → (c : Bridge F K O) × (reload_imports eq init_api b ≡ init_api c)
          × (c.callbacks ≡ [])
          × AreCleared b.handlers c.handlers
    unfolding reload_imports clear_api
    reload_imports-fresh init_api b clearable =
        let (ends, cleared) = clear_all-AreCleared b.handlers clearable in
        go (clear_all eq b.handlers) ends cleared
      where
        go :
            (r : Outcome (Unit {0}) × List (Handler K O))
            → r.0 ≡ returned tt
            → AreCleared b.handlers r.1
            → (c : Bridge F K O) × (then_init eq
                  (r.0, record { callbacks = []; handlers = r.1 })
                  init_api
                ≡ init_api c)
              × (c.callbacks ≡ [])
              × AreCleared b.handlers c.handlers
        go (raised e, handlers) ends cleared = absurd (cc ends)
        go (returned u, handlers) ends cleared =
            (record { callbacks = []; handlers = handlers }, refl, refl, cleared)

    -- Once a handler has started a mixer listener under a key that has no object, a reload does not
    -- return and leaves the server without any callback, whatever Live answers and `init_api` does.
    pub reload_imports-deaf :
        (init_api : Bridge F K O → Outcome (Unit {0}) × Bridge F K O) (callbacks : List (Text × F))
        (before : List (Handler K O)) (h : Handler K O) (later : List (Handler K O))
        (value : Outcome (Unit {0})) (target : O) (k : K)
        → has eq h.store.listener_objects k ≡ false
        → let started = record h {
          store = (register_mixer eq (returned tt) value target k h.store).1;
        } in
          let r =
            reload_imports eq init_api
              (record { callbacks = callbacks; handlers = before ++ started ∷ later }) in
          (r.0 ≢ returned tt) × (r.1.callbacks ≡ [])
    unfolding reload_imports clear_api
    reload_imports-deaf init_api callbacks before h later value target k absent =
        let started : Handler K O = record h {
          store = (register_mixer eq (returned tt) value target k h.store).1;
        } in
        stop (clear_all eq (before ++ started ∷ later)) (
          clear_all-raises before started later
            (register_mixer-clear eq k value target h.live h.store absent))
      where
        stop :
            (r : Outcome (Unit {0}) × List (Handler K O))
            → r.0 ≢ returned tt
            → let b = then_init eq (r.0, record { callbacks = []; handlers = r.1 }) init_api in
              (b.0 ≢ returned tt) × (b.1.callbacks ≡ [])
        stop (raised e, handlers) stuck = ((λ p. cc p), refl)
        stop (returned u, handlers) stuck = absurd (stuck refl)
