-- ===== src/Handlers.antt =====
-- The callbacks of abletonosc/handler.py that report an exception in place of raising it: `_get_property`,
-- `_set_property_guarded`, `guarded_lom` and `guarded_lom_json`. A callback takes the arguments of a message and
-- the state `W` of the program. `type(e).__name__` is a parameter, since a class of Python has a name
-- that `ExnClass` forgets; what a logger is told is left out.
pub mod Guarded
mod Examples
use ohmic_bridge.Prelude.{
  Option, none, some, List, [], ◌∷◌, ◌++◌, Text, codes, Outcome, returned, raised, Exn,
  runtime_error, attribute_error,
}
use ohmic_bridge.Json.{default, json_str, json_object}

-- `None` or a tuple of arguments, and the state behind the call.
abbrev pub Called : Type 0 → Type 0 → Type 0
Called A W = Outcome (Option (List A)) × W

abbrev pub Callback : Type 0 → Type 0 → Type 0
Callback A W = List A → W → Called A W

-- What `_get_property` makes of `getattr`: an attribute that does not apply, or is not there, has the
-- value `None`, which is `nothing`.
unfoldable pub get_property : {A : Type 0} → A → Outcome A → List A → Outcome (Option (List A))
get_property nothing (returned value) params = returned (some (value ∷ params))
get_property nothing (raised e) params = elim (e.class) [
  | runtime_error ↦ returned (some (nothing ∷ params))
  | attribute_error ↦ returned (some (nothing ∷ params))
  | _ ↦ raised e
]

-- `except Exception`, with the reply that a handler makes of the exception.
unfoldable pub or_reply : {A W : Type 0} → (Exn → List A) → Called A W → Called A W
or_reply report (returned rv, w) = (returned rv, w)
or_reply report (raised e, w) = (returned (some (report e)), w)

-- `setattr`, answered by `None`.
abbrev pub answered : {A W : Type 0} → Outcome (Unit {0}) × W → Called A W
answered (returned done, w) = (returned none, w)
answered (raised e, w) = (raised e, w)

-- `type(e).__name__ + ": " + str(e)`
unfoldable pub told : (Exn → Text) → Exn → Text
told name_of e = name_of e ++ codes ": " ++ e.message

-- The text of the reply of `guarded_lom_json`.
unfoldable pub error_json : (Exn → Text) → Text → Exn → Text
error_json name_of handler_name e =
    json_object default
      ((codes "error", json_str (told name_of e)) ∷ (codes "handler", json_str handler_name) ∷ [])

module _ {A : Type 0} (name_of : Exn → Text) (text : Text → A) where
  unfoldable pub error_reply : Exn → List A
  error_reply e = text (codes "error: " ++ told name_of e) ∷ []

  module _ {W : Type 0} where
    unfoldable pub guarded_lom : Callback A W → Callback A W
    guarded_lom fn params w = or_reply error_reply (fn params w)

    unfoldable pub guarded_lom_json : Text → Callback A W → Callback A W
    guarded_lom_json handler_name fn params w =
        or_reply (λ e. text (error_json name_of handler_name e) ∷ []) (fn params w)

    -- `_set_property_guarded`, by what `setattr` does with the first argument; `no_argument` is the
    -- IndexError of `params[0]`.
    unfoldable pub set_property_guarded : Exn → (A → W → Outcome (Unit {0}) × W) → Callback A W
    set_property_guarded no_argument set [] w = or_reply error_reply (raised no_argument, w)
    set_property_guarded no_argument set (value ∷ params) w =
        or_reply error_reply (answered (set value w))
