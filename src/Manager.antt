-- ===== src/Manager.antt =====
-- The reload of manager.py: `Manager.clear_api` and `reload_imports`, with the listeners of the handlers
-- and the callbacks of the server. The imports themselves change no state that is modelled, and an error
-- of theirs is swallowed; `init_api`, which fills the tables anew, is a parameter.
pub mod Reload
mod Examples
use ohmic_bridge.Prelude.{ℕ, List, [], ◌∷◌, Text, Outcome, returned, raised}
use ohmic_bridge.Listeners.{Equality, Store, Answers, clear_listeners}

-- A handler, and what Live answers when its listeners are removed.
pub record Handler (K O : Type 0) : Type 0 where
  pub store : Store K O
  pub live : K → Answers

-- The callbacks of the server, and the handlers.
pub record Bridge (F K O : Type 0) : Type 0 where
  pub callbacks : List (Text × F)
  pub handlers : List (Handler K O)

module _ {K O : Type 0} (eq : Equality K) where
  -- The handlers behind the first of them, which is cleared, unless that raised.
  abbrev pub then_clear :
      Handler K O
      → Outcome (Unit {0}) × Store K O
      → List (Handler K O)
      → Outcome (Unit {0}) × List (Handler K O)
      → Outcome (Unit {0}) × List (Handler K O)
  then_clear h (raised e, s) handlers behind = (raised e, record h { store = s } ∷ handlers)
  then_clear h (returned u, s) handlers (answer, behind) = (answer, record h { store = s } ∷ behind)

  -- `handler.clear_api()` of each handler.
  unfoldable pub clear_all : List (Handler K O) → Outcome (Unit {0}) × List (Handler K O)
  clear_all [] = (returned tt, [])
  clear_all (h ∷ handlers) =
      then_clear h (clear_listeners eq h.live h.store) handlers (clear_all handlers)

  module _ {F : Type 0} where
    unfoldable pub clear_api : Bridge F K O → Outcome (Unit {0}) × Bridge F K O
    clear_api b =
        let (answer, handlers) = clear_all b.handlers in
        (answer, record { callbacks = []; handlers = handlers })

    abbrev pub then_init :
        Outcome (Unit {0}) × Bridge F K O
        → (Bridge F K O → Outcome (Unit {0}) × Bridge F K O)
        → Outcome (Unit {0}) × Bridge F K O
    then_init (raised e, b) init_api = (raised e, b)
    then_init (returned u, b) init_api = init_api b

    unfoldable pub reload_imports :
        (Bridge F K O → Outcome (Unit {0}) × Bridge F K O)
        → Bridge F K O
        → Outcome (Unit {0}) × Bridge F K O
    reload_imports init_api b = then_init (clear_api b) init_api
