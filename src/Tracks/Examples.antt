-- ===== src/Tracks/Examples.antt =====
-- Two tracks, of which the first has a device, and their callbacks.
use ohmic_bridge.Prelude.{
  ◌≡◌, refl, Bool, true, false, none, some, List, [], ◌∷◌, Text, text_eq, codes, returned, raised,
  Exn, type_error,
}
use ohmic_bridge.Prelude.Int.{ℤ, pos, negsuc}
use ohmic_bridge.Handlers.{Called, or_reply, guarded_lom}
use ohmic_bridge.Tracks.{Args, track_callback, passed, item_at}
use ohmic_bridge.Tracks.Visits.{in_turn, track_callback-in_turn}
use ohmic_bridge.Tracks.Move.{
  SongApi, Moved, names_of, position_at, valid_position, moved, move_found, move_checked, read_move,
  track_move_device, track_move_device-IsSafe,
}

data Arg : Type 0 where
  word : Text → Arg
  number : ℤ → Arg

abbrev args : Args Arg
args = record {
  is_all = λ a. elim a [ word t ↦ text_eq t (codes "*") | number i ↦ false ];
  to_int = λ a. elim a [
    | word t ↦ raised (record { class = type_error; message = [] })
    | number i ↦ returned i
  ];
  int = number;
  text = word;
}

-- The devices of the first track and those of the second.
abbrev Song : Type 0
Song = List Text × List Text

abbrev devices_of : Bool → Song → List Text
devices_of true w = w.0
devices_of false w = w.1

abbrev live : SongApi Arg Song Bool Text
live = record {
  tracks = λ w. true ∷ false ∷ [];
  devices = devices_of;
  has_move_device = λ w. true;
  has_find_device_position = λ w. true;
  find_device_position = λ device target position w. returned none;
  move_device = λ device target position w. (returned (some (pos position)), ([], device ∷ w.1));
  name = λ device w. returned (word device);
}

abbrev start : Song
start = (codes "Reverb" ∷ [], codes "Operator" ∷ [])

abbrev to_second : List Arg
to_second = number (pos 0) ∷ number (pos 1) ∷ number (pos 0) ∷ []

abbrev class_name : Exn → Text
class_name e = codes "Error"

reverb_moved : track_move_device args live class_name true to_second start ≡ (
  returned (
      some (
        number (pos 0)
        ∷ number (pos 1)
        ∷ number (pos 0)
        ∷ number (negsuc 0)
        ∷ number (pos 0)
        ∷ word (codes "ok")
        ∷ word (codes "Reverb")
        ∷ word (codes "Operator")
        ∷ [])),
  ([], codes "Reverb" ∷ codes "Operator" ∷ []),
)
unfolding track_move_device guarded_lom or_reply move_checked read_move item_at position_at
    move_found valid_position moved names_of
reverb_moved = refl

track_move_device-IsSafe_example :
    ((rv : List Arg) × ((track_move_device args live class_name true to_second start).0
        ≡ returned (some rv)))
    × Moved args live true start (track_move_device args live class_name true to_second start).1
track_move_device-IsSafe_example =
    track_move_device-IsSafe args live class_name true to_second start

-- The name of the first device of a track.
abbrev first_device : Bool → List Arg → Song → Called Arg Song
first_device track params w = (returned (some (word (codes "found") ∷ params)), w)

track_callback-in_turn_example :
    (track_callback args live.tracks first_device false (word (codes "*") ∷ []) start
      ≡ in_turn args live.tracks
          (λ i track. first_device track (passed args live.tracks false i []))
          0
          (live.tracks start)
          start)
    × ((first : Bool) (rest : List Bool) (rv : List Arg)
        → live.tracks start ≡ first ∷ rest
        → (first_device first (passed args live.tracks false (pos 0) []) start).0
          ≡ returned (some rv)
        → track_callback args live.tracks first_device false (word (codes "*") ∷ []) start ≡ (
          returned (some (number (pos 0) ∷ rv)),
          (first_device first (passed args live.tracks false (pos 0) []) start).1,
        ))
unfolding text_eq
track_callback-in_turn_example =
    track_callback-in_turn args live.tracks first_device false (word (codes "*")) [] start
      (λ track l v. refl) refl
