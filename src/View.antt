-- ===== src/View.antt =====
-- abletonosc/view.py: the selection in Live's view, and the probe of `zoom_view`. Scenes, tracks and
-- devices are numbers for Live's objects; whether Live accepts a selection is an argument.
pub mod Selected
pub mod Zoom
mod Examples
use ohmic_bridge.Prelude.{
  ℕ, zero, suc, ◌+◌, ◌-◌, min, max, ◌==◌, ltb, if◌then◌else◌, Option, none, some, List, [], ◌∷◌,
  length, get_elem?, Outcome, returned, raised, ◌>>=◌, Exn, value_error, index_error,
}
use ohmic_bridge.Prelude.Int.{ℤ, pos, negsuc, nat_part}

pub record View : Type 0 where
  pub scenes : List ℕ
  pub tracks : List ℕ
  -- The devices of a track, and the one that its view has selected.
  pub devices : ℕ → List ℕ
  pub selected_device : ℕ → ℕ
  pub selected_scene : ℕ
  pub selected_track : ℕ

abbrev pub no_such_element : Exn
no_such_element = record { class = value_error; message = [] }

abbrev pub out_of_range : Exn
out_of_range = record { class = index_error; message = [] }

-- `list.index`
unfoldable pub index : List ℕ → ℕ → Outcome ℕ
index [] x = raised no_such_element
index (y ∷ ys) x =
    let rest = index ys x in if x == y then returned 0 else rest >>= λ i. returned (suc i)

-- The place that Python's index stands for: a negative one counts from the end.
abbrev pub place : ℤ → ℕ → Option ℕ
place (pos i) n = if ltb i n then some i else none
place (negsuc k) n = if ltb k n then some (n - suc k) else none

abbrev pub or_out_of_range {ℓ} : {A : Type ℓ} → Option A → Outcome A
or_out_of_range none = raised out_of_range
or_out_of_range (some a) = returned a

-- `list[i]`
unfoldable pub at : List ℕ → ℤ → Outcome ℕ
at xs i = elim (place i (length xs)) [
  | none ↦ raised out_of_range
  | some k ↦ or_out_of_range (get_elem? xs k)
]

abbrev pub get_selected_scene : View → Outcome ℕ
get_selected_scene v = index v.scenes v.selected_scene

abbrev pub get_selected_track : View → Outcome ℕ
get_selected_track v = index v.tracks v.selected_track

unfoldable pub get_selected_clip : View → Outcome (ℕ × ℕ)
get_selected_clip v =
    get_selected_track v >>= λ track. get_selected_scene v >>= λ scene. returned (track, scene)

unfoldable pub get_selected_device : View → Outcome (ℕ × ℕ)
get_selected_device v = get_selected_track v >>= λ track.
    index (v.devices v.selected_track) (v.selected_device v.selected_track) >>= λ device.
    returned (track, device)

-- The argument at a place of a request.
abbrev pub param {ℓ} : {A : Type ℓ} → List A → ℕ → Outcome A
param params i = or_out_of_range (get_elem? params i)

-- An assignment to the selection, if Live accepts it.
unfoldable pub assign : Outcome (Unit {0}) → View → View → Outcome (Unit {0}) × View
assign (returned u) v' v = (returned u, v')
assign (raised e) v' v = (raised e, v)

unfoldable pub set_selected_scene : Outcome (Unit {0}) → List ℤ → View → Outcome (Unit {0}) × View
set_selected_scene answer params v = elim (param params 0 >>= at v.scenes) [
  | raised e ↦ (raised e, v)
  | returned scene ↦ assign answer (record v { selected_scene = scene }) v
]

unfoldable pub set_selected_track : Outcome (Unit {0}) → List ℤ → View → Outcome (Unit {0}) × View
set_selected_track answer params v = elim (param params 0 >>= at v.tracks) [
  | raised e ↦ (raised e, v)
  | returned track ↦ assign answer (record v { selected_track = track }) v
]

-- The track is selected before the second argument is read.
abbrev pub then_scene :
    Outcome (Unit {0}) → List ℤ → Outcome (Unit {0}) × View → Outcome (Unit {0}) × View
then_scene answer params (raised e, v) = (raised e, v)
then_scene answer params (returned u, v) = elim (param params 1) [
  | raised e ↦ (raised e, v)
  | returned scene ↦ set_selected_scene answer (scene ∷ []) v
]

unfoldable pub set_selected_clip :
    Outcome (Unit {0}) → Outcome (Unit {0}) → List ℤ → View → Outcome (Unit {0}) × View
set_selected_clip track_answer scene_answer params v = elim (param params 0) [
  | raised e ↦ (raised e, v)
  | returned track ↦ then_scene scene_answer params (set_selected_track track_answer (track ∷ []) v)
]

-- What the probe answers: `first_error` is the exception that ended it.
pub record ZoomReport : Type 0 where
  pub attempts : ℕ
  pub completed : ℕ
  pub errors : ℕ
  pub first_error : Option Exn

-- The number of attempts: 1 if it is not given, and from 1 to 100.
unfoldable pub read_attempts : Option (Outcome ℤ) → Outcome ℕ
read_attempts none = returned 1
read_attempts (some (raised e)) = raised e
read_attempts (some (returned i)) = returned (max 1 (min (nat_part i) 100))

-- The loop, with the attempts left and completed; `zoom` is what each call gives.
unfoldable pub zoom_loop : (ℕ → Outcome (Unit {0})) → ℕ → ℕ → ℕ → ZoomReport
zoom_loop zoom attempts zero completed = record {
  attempts = attempts;
  completed = completed;
  errors = 0;
  first_error = none;
}
zoom_loop zoom attempts (suc left) completed = elim (zoom completed) [
  | returned u ↦ zoom_loop zoom attempts left (completed + 1)
  | raised e ↦ record {
    attempts = attempts;
    completed = completed;
    errors = 1;
    first_error = some e;
  }
]

abbrev pub probe_view : Outcome (Unit {0}) → (ℕ → Outcome (Unit {0})) → ℕ → ZoomReport
probe_view (raised e) zoom attempts = record {
  attempts = attempts;
  completed = 0;
  errors = 1;
  first_error = some e;
}
probe_view (returned u) zoom attempts = zoom_loop zoom attempts attempts 0

abbrev pub read_direction : Option (Outcome ℤ) → Outcome ℤ
read_direction none = returned (pos 3)
read_direction (some direction) = direction

-- `direction` and the attempts are read by `int`; the name of the view and the modifier are passed on.
unfoldable pub probe_zoom_view :
    Outcome (Unit {0})
    → (ℤ → ℕ → Outcome (Unit {0}))
    → Option (Outcome ℤ)
    → Option (Outcome ℤ)
    → Outcome ZoomReport
probe_zoom_view application zoom direction attempts = read_direction direction >>= λ direction.
    read_attempts attempts >>= λ attempts.
    returned (probe_view application (zoom direction) attempts)
