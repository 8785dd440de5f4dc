-- ===== src/ClipEdit.antt =====
-- The handlers of abletonosc/clip.py that change the notes of a clip: what they make of the flat
-- arguments of a request. What Live does with the notes, and the conversions of an argument by `int`,
-- `float` and `bool`, are parameters.
pub mod Notes
pub mod Loop
mod Examples
use ohmic_bridge.Prelude.{
  ℕ, zero, suc, Bool, true, false, ◌&&◌, ◌%◌, leb, ◌==◌, if◌then◌else◌, Option, none, some, List,
  [], ◌∷◌, codes, length, take, drop, Outcome, returned, raised, ◌>>=◌, Exn, index_error,
  value_error,
}

-- `Live.Clip.MidiNoteSpecification`, by its arguments.
pub record NoteSpec (V : Type 0) : Type 0 where
  pub pitch : V
  pub start_time : V
  pub duration : V
  pub velocity : V
  pub mute : V
  pub probability : V

abbrev pub no_such_index : Exn
no_such_index = record { class = index_error; message = codes "tuple index out of range" }

-- `step`: the fields of a note in a request of some length.
unfoldable pub note_step : ℕ → ℕ
note_step n = if leb 6 n && (n % 6 == 0) then 6 else 5

-- `float`, and what the handler makes of the fields of a note: `specify` is `MidiNoteSpecification`,
-- with the conversions that stand before its arguments. `one` is 1.0.
pub record Reading (V N : Type 0) : Type 0 where
  pub one : V
  pub to_float : V → Outcome V
  pub specify : NoteSpec V → Outcome N

-- The conversions of `arrangement_clip_add_notes`, in the order of its code.
unfoldable pub convert_fields :
    {V : Type 0}
    → (V → Outcome V)
    → (V → Outcome V)
    → (V → Outcome V)
    → NoteSpec V
    → Outcome (NoteSpec V)
convert_fields to_int to_float to_bool note = to_int note.pitch >>= λ pitch.
    to_float note.start_time >>= λ start_time. to_float note.duration >>= λ duration.
    to_float note.velocity >>= λ velocity. to_bool note.mute >>= λ mute. returned (record {
      pitch = pitch;
      start_time = start_time;
      duration = duration;
      velocity = velocity;
      mute = mute;
      probability = note.probability;
    })

module _ {V N : Type 0} (r : Reading V N) where
  -- The probability of a note, from what a chunk has behind its first five fields.
  unfoldable pub read_probability : ℕ → List V → Outcome V
  read_probability step [] = if step == 6 then raised no_such_index else returned r.one
  read_probability step (v ∷ rest) = if step == 6 then r.to_float v else returned r.one

  -- The note of a chunk of `step` arguments.
  unfoldable pub read_chunk : ℕ → List V → Outcome N
  read_chunk step (a ∷ b ∷ c ∷ d ∷ e ∷ rest) = read_probability step rest >>= λ probability.
      r.specify (record {
        pitch = a;
        start_time = b;
        duration = c;
        velocity = d;
        mute = e;
        probability = probability;
      })
  read_chunk step [] = raised no_such_index
  read_chunk step (a ∷ []) = raised no_such_index
  read_chunk step (a ∷ b ∷ []) = raised no_such_index
  read_chunk step (a ∷ b ∷ c ∷ []) = raised no_such_index
  read_chunk step (a ∷ b ∷ c ∷ d ∷ []) = raised no_such_index

  -- The loop over the offsets. The length of the arguments is fuel enough, since `step` is not 0.
  unfoldable pub read_specs : ℕ → ℕ → List V → Outcome (List N)
  read_specs zero step params = returned []
  read_specs (suc fuel) step [] = returned []
  read_specs (suc fuel) step (p ∷ params) = read_chunk step (take step (p ∷ params)) >>= λ spec.
      read_specs fuel step (drop step (p ∷ params)) >>= λ others. returned (spec ∷ others)

  -- `specs`
  unfoldable pub specs_of : List V → Outcome (List N)
  specs_of params = read_specs (length params) (note_step (length params)) params

  module _ {C : Type 0} (add_new_notes : List N → C → Outcome (Unit {0}) × C) where
    -- Some notes reach the clip, if there are any.
    unfoldable pub add_specs : Outcome (List N) → C → Outcome ℕ × C
    add_specs (raised e) clip = (raised e, clip)
    add_specs (returned []) clip = (returned 0, clip)
    add_specs (returned (spec ∷ specs)) clip =
        let (added, clip') = add_new_notes (spec ∷ specs) clip in
        (added >>= λ done. returned (length (spec ∷ specs)), clip')

    -- `arrangement_clip_add_notes`; the handler of a session clip does the same and answers nothing.
    unfoldable pub add_notes : List V → C → Outcome ℕ × C
    add_notes params clip = add_specs (specs_of params) clip

abbrev pub bad_window : Exn
bad_window = record { class = value_error; message = codes "Invalid number of arguments" }

-- The window of `clip_remove_notes` and `arrangement_clip_remove_notes`; `none` stands for pitch 0 with
-- span 127 and the time from -8192 for 16384 beats.
unfoldable pub remove_window : {V : Type 0} → List V → Outcome (Option (V × V × V × V))
remove_window [] = returned none
remove_window (a ∷ b ∷ c ∷ d ∷ []) = returned (some (a, b, c, d))
remove_window (a ∷ []) = raised bad_window
remove_window (a ∷ b ∷ []) = raised bad_window
remove_window (a ∷ b ∷ c ∷ []) = raised bad_window
remove_window (a ∷ b ∷ c ∷ d ∷ e ∷ rest) = raised bad_window
