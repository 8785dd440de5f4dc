-- ===== src/Handlers/Guarded.antt =====
-- Guarded callbacks of abletonosc/handler.py in the server of abletonosc/osc_server.py.
use ohmic_bridge.Prelude.{
  ◌≡◌, refl, true, none, some, List, [], ◌∷◌, Text, All, Outcome, returned, raised, Exn,
}
use ohmic_bridge.Osc.Pattern.{has_star, is_plain}
use ohmic_bridge.Osc.Server.{
  Addr, World, Reply, no_reply, tuple, bad_arg, Library, get_callback, process_message,
}
use ohmic_bridge.Osc.Server.Wildcard.{matching, Mild, silent, replies, process_message-returns}
use ohmic_bridge.Handlers.{Called, Callback, error_reply, or_reply, guarded_lom}

-- The return value of a callback as the server takes it.
abbrev pub as_reply : {A W : Type 0} → Called A W → Outcome (Reply A) × W
as_reply (returned none, w) = (returned no_reply, w)
as_reply (returned (some rv), w) = (returned (tuple rv), w)
as_reply (raised e, w) = (raised e, w)

module _ {A K S : Type 0} (lib : Library A K S) (name_of : Exn → Text) (text : Text → A) where
  -- The library can send a reply.
  abbrev pub Sends : Text → List A → Type 0
  Sends address rv = (e : Exn) → lib.encode address rv ≡ bad_arg e → ⊥

  -- A callback is the guarded form of `fn`, whose tuples OSC can carry.
  abbrev pub IsGuarded : List A → Text × K → Type 0
  IsGuarded params (address, k) =
      (fn : Callback A (World K S)) × ((v : World K S)
        → lib.call k params v ≡ as_reply (guarded_lom name_of text fn params v))
      × ((v : World K S) (rv : List A) → (fn params v).0 ≡ returned (some rv) → Sends address rv)

  or_reply-Mild :
      (address : Text) (called : Called A (World K S))
      → ((e : Exn) → Sends address (error_reply name_of text e))
      → ((rv : List A) → called.0 ≡ returned (some rv) → Sends address rv)
      → Mild lib address (as_reply (or_reply (error_reply name_of text) called)).0
  unfolding or_reply
  or_reply-Mild address (returned none, w) errors values = silent
  or_reply-Mild address (returned (some rv), w) errors values = replies rv (values rv refl)
  or_reply-Mild address (raised e, w) errors values =
      replies (error_reply name_of text e) (errors e)

  IsGuarded-Mild :
      (params : List A) (entries : List (Text × K))
      → ((address : Text) (e : Exn) → Sends address (error_reply name_of text e))
      → All (IsGuarded params) entries
      → All (λ e. (v : World K S) → Mild lib e.0 (lib.call e.1 params v).0) entries
  unfolding guarded_lom
  IsGuarded-Mild params [] errors h = tt
  IsGuarded-Mild params ((address, k) ∷ rest) errors ((fn, calls, values), h) = (
    λ v. rw (calls v) (or_reply-Mild address (fn params v) (errors address) (values v)),
    IsGuarded-Mild params rest errors h,
  )

  -- If OSC can carry an error as text, then a message to a pattern with a star, and no other special
  -- character, that no callback has for its address, returns if each callback that it matches is one of
  -- `guarded_lom`, around a function that may raise anything but whose tuples OSC can carry.
  pub guarded_lom-answers :
      (pattern : Text) (params : List A) (from : Addr) (w : World K S)
      → get_callback w.callbacks pattern ≡ none
      → has_star pattern ≡ true
      → is_plain pattern ≡ true
      → ((address : Text) (e : Exn) → Sends address (error_reply name_of text e))
      → All (IsGuarded params) (matching lib pattern w.callbacks)
      → (process_message lib pattern params from w).0 ≡ returned tt
  guarded_lom-answers pattern params from w absent star plain errors guarded =
      process_message-returns lib pattern params from w absent star plain
        (IsGuarded-Mild params (matching lib pattern w.callbacks) errors guarded)
