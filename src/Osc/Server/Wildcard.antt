-- ===== src/Osc/Server/Wildcard.antt =====
-- A message to a pattern: which callbacks it reaches, and which of their exceptions stop it.
use ohmic_bridge.Prelude.{
  ◌≡◌, refl, ap, ◌∙◌, inl, inr, true, Bool-cases, none, List, [], ◌∷◌, All, Text, Outcome, returned,
  raised, Exn, if◌then◌else◌,
}
use ohmic_bridge.Osc.Pattern.{glob, is_plain, has_star}
use ohmic_bridge.Osc.Server.{
  Addr, World, Reply, no_reply, tuple, not_a_tuple, Encoded, bad_arg, build_error, dgram, Library,
  Ended, Run, deliver, send, reply, answer_or_skip, is_skipped, pattern_match, wildcard_loop,
  and_then, get_callback, process_message, dispatch,
}

module _ {A K S : Type 0} (lib : Library A K S) where
  -- The entries whose address the pattern matches, in the order of registration.
  abbrev pub matching : Text → List (Text × K) → List (Text × K)
  matching pattern [] = []
  matching pattern (e ∷ rest) =
      let others = matching pattern rest in if glob pattern e.0 then e ∷ others else others

  -- Each of them is called and answered, until one raises what is not skipped.
  abbrev visit_all : List A → Text → List (Text × K) → Run K S
  visit_all params host [] w = (returned tt, w)
  visit_all params host ((address, k) ∷ rest) w =
      and_then (answer_or_skip lib address host (lib.call k params w)) (visit_all params host rest)

  and_then-ext :
      (r : Ended K S) (f g : Run K S) → ((w : World K S) → f w ≡ g w) → and_then r f ≡ and_then r g
  and_then-ext (raised e, w) f g h = refl
  and_then-ext (returned u, w) f g h = h w

  wildcard_loop-matching :
      (pattern : Text) (params : List A) (host : Text) (entries : List (Text × K)) (w : World K S)
      → is_plain pattern ≡ true
      → wildcard_loop lib pattern params host entries w
        ≡ visit_all params host (matching pattern entries) w
  unfolding wildcard_loop pattern_match
  wildcard_loop-matching pattern params host [] w plain = refl
  wildcard_loop-matching pattern params host ((address, k) ∷ rest) w plain =
      elim (Bool-cases (glob pattern address)) [
        | inl hit ↦
            rw (plain, hit)
              (and_then-ext (answer_or_skip lib address host (lib.call k params w)) _ _
                (λ w'. wildcard_loop-matching pattern params host rest w' plain))
        | inr miss ↦ rw (plain, miss) (wildcard_loop-matching pattern params host rest w plain)
      ]

  -- A message to an address that is not registered and has a star, of letters, digits, `_`, `/` and
  -- `*`, visits the callbacks whose address the pattern matches in the order of their registration, up
  -- to the first whose exception is not skipped.
  process_message-pattern :
      (pattern : Text) (params : List A) (from : Addr) (w : World K S)
      → get_callback w.callbacks pattern ≡ none
      → has_star pattern ≡ true
      → is_plain pattern ≡ true
      → process_message lib pattern params from w
        ≡ visit_all params from.host (matching pattern w.callbacks) w
  unfolding process_message dispatch
  process_message-pattern pattern params from w absent star plain =
      rw (absent, star) (wildcard_loop-matching pattern params from.host w.callbacks w plain)

  -- A callback that gives the loop no reason to stop: it raises a `ValueError` or an
  -- `AttributeError`, or returns nothing, or a tuple whose items OSC can carry.
  pub data Mild (address : Text) : Outcome (Reply A) → Type 0 where
    skips : (e : Exn) → is_skipped lib e.class ≡ true → Mild address (raised e)
    silent : Mild address (returned no_reply)
    replies :
        (rv : List A)
        → ((e : Exn) → lib.encode address rv ≡ bad_arg e → ⊥)
        → Mild address (returned (tuple rv))

  deliver-returns :
      (address : Text) (to : Addr) (d : Encoded) (w : World K S)
      → ((e : Exn) → d ≡ bad_arg e → ⊥)
      → (deliver lib address to d w).0 ≡ returned tt
  unfolding deliver
  deliver-returns address to (bad_arg e) w h = absurd (h e refl)
  deliver-returns address to build_error w h = refl
  deliver-returns address to (dgram d) w h =
      elim (Bool-cases (lib.accepts w.sent (record { payload = d; to = to }))) [
        | inl taken ↦ rw taken refl
        | inr not_taken ↦ rw not_taken refl
      ]

  Mild-returns :
      (address host : Text) (r : Outcome (Reply A) × World K S)
      → Mild address r.0
      → (answer_or_skip lib address host r).0 ≡ returned tt
  unfolding answer_or_skip reply send
  Mild-returns address host (raised _, w) (skips e h) = rw h refl
  Mild-returns address host (returned no_reply, w) silent = refl
  Mild-returns address host (returned not_a_tuple, w) m = elim m [ ]
  Mild-returns address host (returned (tuple _), w) (replies rv h) =
      deliver-returns address (record { host = host; port = w.response_port })
        (lib.encode address rv) w h

  visit_all-returns :
      (params : List A) (host : Text) (entries : List (Text × K)) (w : World K S)
      → All (λ e. (v : World K S) → Mild e.0 (lib.call e.1 params v).0) entries
      → (visit_all params host entries w).0 ≡ returned tt
  visit_all-returns params host [] w h = refl
  visit_all-returns params host ((address, k) ∷ rest) w h =
      onward (answer_or_skip lib address host (lib.call k params w))
        (Mild-returns address host (lib.call k params w) (h.0 w))
        (λ v. visit_all-returns params host rest v h.1)
    where
      onward :
          (r : Ended K S)
          → r.0 ≡ returned tt
          → ((v : World K S) → (visit_all params host rest v).0 ≡ returned tt)
          → (and_then r (visit_all params host rest)).0 ≡ returned tt
      onward (raised e, v) p q = absurd (cc p)
      onward (returned u, v) p q = q v

  -- A message to such a pattern returns, whatever the socket does with the replies, if each callback
  -- that it matches returns nothing, or a tuple that OSC can carry, or raises a `ValueError` or an
  -- `AttributeError`: those two never keep the other callbacks from being called.
  pub process_message-returns :
      (pattern : Text) (params : List A) (from : Addr) (w : World K S)
      → get_callback w.callbacks pattern ≡ none
      → has_star pattern ≡ true
      → is_plain pattern ≡ true
      → All
          (λ e. (v : World K S) → Mild e.0 (lib.call e.1 params v).0)
          (matching pattern w.callbacks)
      → (process_message lib pattern params from w).0 ≡ returned tt
  process_message-returns pattern params from w absent star plain mild =
      ap (λ x. x.0) (process_message-pattern pattern params from w absent star plain)
      ∙ visit_all-returns params from.host (matching pattern w.callbacks) w mild
