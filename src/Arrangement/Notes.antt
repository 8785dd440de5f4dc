-- ===== src/Arrangement/Notes.antt =====
-- `_clip_notes_signature` and `_note_field` of abletonosc/arrangement_view.py: a text that stands for the
-- notes of a clip. The form of a float with six decimals, and the first 16 hexadecimal digits of the
-- SHA-1 of `repr(rows)`, are parameters.
pub mod Bag
mod Examples
use ohmic_bridge.Prelude.{
  ◌≡◌, refl, ℕ, Bool, true, false, ◌==◌, if◌then◌else◌, Option, none, some, List, [], ◌∷◌, ◌++◌,
  Text, codes, length, is_empty, Outcome, returned, raised, ◌>>=◌, type_error, value_error,
  attribute_error,
}
use ohmic_bridge.Prelude.Int.{ℤ, pos}
use ohmic_bridge.Prelude.Order.{WeakOrder, then_by, by, int_order, text_order, sort}
use ohmic_bridge.Decimal.{decimal}
use ohmic_bridge.Arrangement.Rows.{Float}
use ohmic_bridge.Arrangement.Reading.{Value, convert_or, no_notes, LiveClip, clip_notes_signature}

-- An attribute's value, and which bool it is, if it is one.
pub record FieldValue : Type 0 where
  pub is_bool : Option Bool
  pub value : Value

pub record NoteObject : Type 0 where
  pub pitch : Outcome Value
  pub start_time : Outcome FieldValue
  pub duration : Outcome FieldValue
  pub velocity : Outcome Value
  pub mute : Outcome Value
  pub probability : Outcome FieldValue

pub record NoteRow : Type 0 where
  pub pitch : ℤ
  pub start_time : Text
  pub duration : Text
  pub velocity : ℤ
  pub mute : ℤ
  pub probability : Text

-- The order of tuples: by the first field, then by the next, and so on.
abbrev pub by_mute : WeakOrder NoteRow
by_mute = then_by (by (λ r. r.mute) int_order) (by (λ r. r.probability) text_order)

abbrev pub by_velocity : WeakOrder NoteRow
by_velocity = then_by (by (λ r. r.velocity) int_order) by_mute

abbrev pub by_duration : WeakOrder NoteRow
by_duration = then_by (by (λ r. r.duration) text_order) by_velocity

abbrev pub by_start : WeakOrder NoteRow
by_start = then_by (by (λ r. r.start_time) text_order) by_duration

abbrev pub row_order : WeakOrder NoteRow
row_order = then_by (by (λ r. r.pitch) int_order) by_start

-- `text.rstrip(c)`, for one character.
unfoldable pub strip_end : ℕ → Text → Text
strip_end c [] = []
strip_end c (d ∷ s) =
    let rest = strip_end c s in if is_empty rest then (if d == c then [] else d ∷ []) else d ∷ rest

module _ (six_decimals : Float → Text) where
  -- The field of a float.
  abbrev pub float_field : Float → Text
  float_field number = strip_end b'.' (strip_end b'0' (six_decimals number))

  abbrev pub number_field : Value → Outcome Float → Outcome Text
  number_field v (returned number) = returned (float_field number)
  number_field v (raised e) = elim (e.class) [
    | type_error ↦ v.as_str
    | value_error ↦ v.as_str
    | _ ↦ raised e
  ]

  unfoldable pub note_field : FieldValue → Outcome Text
  note_field f = elim (f.is_bool) [
    | some b ↦ returned (if b then codes "1" else codes "0")
    | none ↦ number_field f.value f.value.as_float
  ]

  -- A field with its default, for which the text is known.
  abbrev pub field_or : Text → Outcome FieldValue → Outcome Text
  field_or default (returned f) = note_field f
  field_or default (raised e) = elim (e.class) [ attribute_error ↦ returned default | _ ↦ raised e ]

  unfoldable pub read_row : NoteObject → Outcome NoteRow
  read_row note = convert_or (λ v. v.as_int) (pos 0) note.pitch >>= λ pitch.
      field_or (float_field (codes "0.0")) note.start_time >>= λ start_time.
      field_or (float_field (codes "0.0")) note.duration >>= λ duration.
      convert_or (λ v. v.as_int) (pos 0) note.velocity >>= λ velocity.
      convert_or (λ v. v.as_bool) false note.mute >>= λ mute.
      field_or (float_field (codes "1.0")) note.probability >>= λ probability. returned (record {
        pitch = pitch;
        start_time = start_time;
        duration = duration;
        velocity = velocity;
        mute = if mute then pos 1 else pos 0;
        probability = probability;
      })

  unfoldable pub read_rows : List NoteObject → Outcome (List NoteRow)
  read_rows [] = returned []
  read_rows (note ∷ notes) =
      read_row note >>= λ row. read_rows notes >>= λ rows. returned (row ∷ rows)

module _ (digest : List NoteRow → Text) where
  unfoldable pub rows_signature : List NoteRow → Text
  rows_signature [] = codes "0:0"
  rows_signature (row ∷ rows) =
      decimal (length (row ∷ rows)) ++ b':' ∷ digest (sort row_order (row ∷ rows))

  -- What `get_notes_extended` gives or raises; `None` is no notes.
  unfoldable pub signature_of_notes : (Float → Text) → Outcome (List NoteObject) → Outcome Text
  signature_of_notes six_decimals (raised e) = raised no_notes
  signature_of_notes six_decimals (returned notes) =
      read_rows six_decimals notes >>= λ rows. returned (rows_signature rows)

  -- What the reading of a clip takes for its notes.
  abbrev pub notes_of_clip : (Float → Text) → Outcome (List NoteObject) → Outcome (Outcome Text)
  notes_of_clip six_decimals (raised e) = raised e
  notes_of_clip six_decimals (returned notes) =
      returned (signature_of_notes six_decimals (returned notes))

  pub clip_notes_signature-signature_of_notes :
      (six_decimals : Float → Text) (notes : Outcome (List NoteObject)) (clip : LiveClip)
      → clip.notes ≡ notes_of_clip six_decimals notes
      → clip_notes_signature clip ≡ signature_of_notes six_decimals notes
  unfolding clip_notes_signature signature_of_notes
  clip_notes_signature-signature_of_notes six_decimals (raised e) clip h =
      rw (h, clip_notes_signature) refl
  clip_notes_signature-signature_of_notes six_decimals (returned notes) clip h =
      rw (h, clip_notes_signature) refl
