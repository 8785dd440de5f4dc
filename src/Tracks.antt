-- ===== src/Tracks.antt =====
-- abletonosc/track.py: the callbacks on a track, for one track or for all of them, and the handler that moves a
-- device. A track and a device are what Live gives; its calls are parameters that may raise.
pub mod Visits
pub mod Move
mod Examples
use ohmic_bridge.Prelude.{
  ℕ, zero, suc, Bool, true, false, ltb, leb, if◌then◌else◌, Option, none, some, List, [], ◌∷◌, ◌++◌,
  map, Text, codes, length, get_elem?, Outcome, returned, raised, ◌>>=◌, Exn, index_error,
  value_error,
}
use ohmic_bridge.Prelude.Int.{ℤ, pos, negsuc}
use ohmic_bridge.Decimal.{decimal}
use ohmic_bridge.Json.{json_int}
use ohmic_bridge.Handlers.{Called, Callback}

abbrev pub no_argument : Exn
no_argument = record { class = index_error; message = codes "list index out of range" }

-- The arguments of a message: the test `== "*"`, `int`, and the arguments of a reply.
pub record Args (A : Type 0) : Type 0 where
  pub is_all : A → Bool
  pub to_int : A → Outcome ℤ
  pub int : ℤ → A
  pub text : Text → A

-- The item at an index that passed the test of the code.
unfoldable pub item_at : {X : Type 0} → List X → ℤ → Option X
item_at xs (negsuc n) = none
item_at xs (pos i) = get_elem? xs i

-- `"... %s is out of range"`
unfoldable pub range_error : Text → ℤ → Text
range_error what i = what ++ codes " " ++ json_int i ++ codes " is out of range"

-- `range(n)`, from a number on.
unfoldable pub range : ℕ → ℕ → List ℤ
range first zero = []
range first (suc n) = pos first ∷ range (suc first) n

module _ {A W T : Type 0} (args : Args A) (tracks : W → List T) where
  -- The reply of a call for a track, or the next track if it answered `None`.
  abbrev pub or_next_track : ℤ → Called A W → (W → Called A W) → Called A W
  or_next_track i (raised e, w) next = (raised e, w)
  or_next_track i (returned none, w) next = next w
  or_next_track i (returned (some rv), w) next = (returned (some (args.int i ∷ rv)), w)

  -- The visit of a track, `none` if there is none at the index.
  abbrev pub visit : (ℤ → T → W → Called A W) → ℤ → Option T → W → (W → Called A W) → Called A W
  visit func i none w next = (
    returned (
        some
          (args.int i ∷ args.text (codes "error: " ++ range_error (codes "track_index") i) ∷ [])),
    w,
  )
  visit func i (some track) w next = or_next_track i (func i track w) next

  -- The loop over `track_indices`; `func` has its arguments but for the track and its index.
  unfoldable pub visit_tracks : (ℤ → T → W → Called A W) → List ℤ → W → Called A W
  visit_tracks func [] w = (returned none, w)
  visit_tracks func (i ∷ indices) w =
      visit func i (item_at (tracks w) i) w (visit_tracks func indices)

  -- `track_indices`
  unfoldable pub indices_of : A → W → Outcome (List ℤ)
  indices_of p w =
      if args.is_all p
      then returned (range 0 (length (tracks w)))
      else (args.to_int p >>= λ i. returned (i ∷ []))

  -- What the callback passes on behind the track.
  unfoldable pub passed : Bool → ℤ → List A → List A
  passed true i params = args.int i ∷ params
  passed false i params = params

  unfoldable pub visit_read : (ℤ → T → W → Called A W) → Outcome (List ℤ) → W → Called A W
  visit_read func (raised e) w = (raised e, w)
  visit_read func (returned indices) w = visit_tracks func indices w

  -- `track_callback`, of a function and `include_track_id`.
  unfoldable pub track_callback : (T → List A → W → Called A W) → Bool → Callback A W
  track_callback func include_track_id [] w = (raised no_argument, w)
  track_callback func include_track_id (p ∷ params) w =
      visit_read (λ i track. func track (passed include_track_id i params)) (indices_of p w) w
