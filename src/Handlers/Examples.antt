-- ===== src/Handlers/Examples.antt =====
-- Two guarded callbacks, one of which raises, and a property that does not apply.
use ohmic_bridge.Prelude.{
  ℕ, zero, suc, ◌≡◌, refl, true, false, none, some, [], ◌∷◌, All, Text, text_eq, codes, returned,
  raised, Exn, type_error, runtime_error,
}
use ohmic_bridge.Osc.Pattern.{glob, has_star, is_plain}
use ohmic_bridge.Osc.Server.{Addr, World, dgram, Library, get_callback, process_message}
use ohmic_bridge.Osc.Server.Wildcard.{matching}
use ohmic_bridge.Handlers.{Callback, get_property, or_reply, told, error_reply, guarded_lom}
use ohmic_bridge.Handlers.Guarded.{as_reply, IsGuarded, guarded_lom-answers}

-- An argument is a text, and every class is told as one.
abbrev class_name : Exn → Text
class_name e = codes "TypeError"

abbrev wrong_type : Exn
wrong_type = record { class = type_error; message = codes "no" }

abbrev handle : {W : Type 0} → ℕ → Callback Text W
handle zero params w = (raised wrong_type, w)
handle (suc k) params w = (returned (some params), w)

abbrev lib : Library Text ℕ (Unit {0})
lib = record {
  encode = λ address params. dgram [];
  decode = λ received. none;
  accepts = λ sent out. true;
  re_match = λ pattern address. returned false;
  call = λ k params w. as_reply (guarded_lom class_name (λ t. t) (handle k) params w);
}

abbrev client : Addr
client = record { host = codes "10.0.0.2"; port = 50000 }

abbrev world : World ℕ (Unit {0})
world = record {
  remote_addr = client;
  response_port = 11003;
  callbacks = (codes "/live/a", 0) ∷ (codes "/live/b", 7) ∷ [];
  sent = [];
  log = [];
  state = tt;
}

error_told :
    (guarded_lom class_name (λ t. t) (handle {W = Unit {0}} 0) [] tt).0
    ≡ returned (some (codes "error: TypeError: no" ∷ []))
unfolding guarded_lom or_reply error_reply told
error_told = refl

not_applicable :
    get_property
      (codes "None")
      (raised (record { class = runtime_error; message = [] }))
      (codes "3" ∷ [])
    ≡ returned (some (codes "None" ∷ codes "3" ∷ []))
unfolding get_property
not_applicable = refl

absent : get_callback world.callbacks (codes "/live/*") ≡ none
unfolding get_callback text_eq
absent = refl

starred : has_star (codes "/live/*") ≡ true
unfolding has_star
starred = refl

plain : is_plain (codes "/live/*") ≡ true
unfolding is_plain
plain = refl

both-IsGuarded :
    All (IsGuarded lib class_name (λ t. t) []) (matching lib (codes "/live/*") world.callbacks)
unfolding glob
both-IsGuarded =
    ((handle 0, (λ v. refl), λ v rv h e k. cc k), ((handle 7, (λ v. refl), λ v rv h e k. cc k), tt))

guarded_lom-answers_example :
    (process_message lib (codes "/live/*") [] client world).0 ≡ returned tt
guarded_lom-answers_example =
    guarded_lom-answers lib class_name (λ t. t) (codes "/live/*") [] client world absent starred
      plain (λ address e f h. cc h) both-IsGuarded
