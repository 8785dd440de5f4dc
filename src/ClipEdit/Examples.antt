-- ===== src/ClipEdit/Examples.antt =====
-- Two notes, six notes of five fields, and a clip whose loop grows and shrinks.
use ohmic_bridge.Prelude.{
  ℕ, zero, suc, ◌%◌, ◌*◌, ◌<◌, ◌≡◌, ◌≢◌, refl, Bool, true, false, Bool-cases, if◌then◌else◌, inl,
  inr, List, [], ◌∷◌, ◌++◌, map, length, Outcome, returned, raised, Exn, value_error,
}
use ohmic_bridge.Prelude.Int.{ℤ, pos, negsuc}
use ohmic_bridge.Prelude.Order.{int_order, int_lt}
use ohmic_bridge.ClipEdit.{
  NoteSpec, Reading, specs_of, read_specs, read_chunk, read_probability, note_step, add_specs,
  add_notes, convert_fields, remove_window, bad_window,
}
use ohmic_bridge.ClipEdit.Notes.{
  six_request, five_request, specify_all, specify_floated, with_one, add_notes-roundtrip,
}
use ohmic_bridge.ClipEdit.Loop.{
  LoopOps, LoopLaws, Finishes, read_loop, set_loop, set_read, set_region, set_loop-right,
}

abbrev plain : Reading ℕ (NoteSpec ℕ)
plain = record { one = 1; to_float = returned; specify = convert_fields returned returned returned }

abbrev note : ℕ → NoteSpec ℕ
note p = record {
  pitch = p;
  start_time = 0;
  duration = 4;
  velocity = 90;
  mute = 0;
  probability = 1;
}

abbrev two_notes : List (NoteSpec ℕ)
two_notes = note 60 ∷ note 64 ∷ []

abbrev six_notes : List (NoteSpec ℕ)
six_notes = note 60 ∷ note 61 ∷ note 62 ∷ note 63 ∷ note 64 ∷ note 65 ∷ []

-- The clip keeps the notes that it got.
abbrev keep : List (NoteSpec ℕ) → List (NoteSpec ℕ) → Outcome (Unit {0}) × List (NoteSpec ℕ)
keep specs clip = (returned tt, clip ++ specs)

add_notes-roundtrip_example :
    (add_notes plain keep (six_request plain two_notes) []
      ≡ add_specs plain keep (specify_floated plain two_notes) [])
    × (length two_notes % 6 ≢ 0
        → add_notes plain keep (five_request plain two_notes) []
          ≡ add_specs plain keep (specify_all plain (map (with_one plain) two_notes)) [])
    × ((k count : ℕ)
        → 0 < k
        → length two_notes ≡ 6 * k
        → (add_notes plain keep (five_request plain two_notes) []).0 ≡ returned count
        → count ≡ 5 * k)
add_notes-roundtrip_example = add_notes-roundtrip plain keep two_notes []

-- Six notes without probabilities are read as five.
six_misread : (add_notes plain keep (five_request plain six_notes) []).0 ≡ returned 5
unfolding add_notes add_specs specs_of read_specs read_chunk read_probability note_step
    convert_fields
six_misread = refl

three_arguments : remove_window {V = ℕ} (1 ∷ 2 ∷ 3 ∷ []) ≡ raised bad_window
unfolding remove_window
three_arguments = refl

record Loop : Type 0 where
  start : ℤ
  stop : ℤ
  looping : Bool

abbrev live : LoopOps ℤ Loop
live = record {
  loop_start = λ c. c.start;
  loop_end = λ c. c.stop;
  looping = λ c. c.looping;
  set_loop_start = λ v c.
      if int_lt v c.stop
      then returned (record c { start = v })
      else raised (record { class = value_error; message = [] });
  set_loop_end = λ v c.
      if int_lt c.start v
      then returned (record c { stop = v })
      else raised (record { class = value_error; message = [] });
  set_looping = λ b c. returned (record c { looping = b });
}

live-LoopLaws : LoopLaws live int_order
live-LoopLaws = record {
  set_loop_start-Writes = λ v c. elim (Bool-cases (int_lt v c.stop)) [
    | inl h ↦ rw h (record c { start = v }, refl, (refl, refl, refl))
    | inr h ↦ rw h (record { class = value_error; message = [] }, refl)
  ];
  set_loop_end-Writes = λ v c. elim (Bool-cases (int_lt c.start v)) [
    | inl h ↦ rw h (record c { stop = v }, refl, (refl, refl, refl))
    | inr h ↦ rw h (record { class = value_error; message = [] }, refl)
  ];
}

abbrev bar : Loop
bar = record { start = pos 4; stop = pos 8; looping = false }

abbrev flag : ℤ → Outcome Bool
flag (pos (suc n)) = returned true
flag (negsuc n) = returned true
flag (pos zero) = returned false

abbrev request : List ℤ
request = pos 1 ∷ pos 0 ∷ pos 2 ∷ []

earlier :
    set_loop live int_lt flag returned request bar
    ≡ (returned tt, record { start = pos 0; stop = pos 2; looping = true })
unfolding set_loop set_read set_region read_loop
earlier = refl

set_loop-right_example :
    ((looping : Bool) (start stop : ℤ)
      → read_loop live int_lt flag returned request ≡ returned (looping, start, stop)
      → Finishes live int_order live-LoopLaws
          (int_lt start stop)
          start
          stop
          looping
          bar
          (set_loop live int_lt flag returned request bar))
    × ((e : Exn)
        → read_loop live int_lt flag returned request ≡ raised e
        → set_loop live int_lt flag returned request bar ≡ (raised e, bar))
set_loop-right_example = set_loop-right live int_order live-LoopLaws flag returned request bar refl
