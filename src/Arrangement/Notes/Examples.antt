-- ===== src/Arrangement/Notes/Examples.antt =====
-- Two notes, in either order.
use mathlib.Core.List.{Perm}
use ohmic_bridge.Prelude.{
  ℕ, ◌≡◌, ◌↔◌, refl, true, false, none, List, [], ◌∷◌, Text, codes, returned, raised, Exn,
  type_error, attribute_error, String, arith,
}
use ohmic_bridge.Prelude.Int.{pos}
use ohmic_bridge.Prelude.Order.{sort, insert, text_lt}
use ohmic_bridge.Decimal.{decimal}
use ohmic_bridge.Arrangement.Reading.{Value}
use ohmic_bridge.Arrangement.Notes.{
  FieldValue, NoteObject, NoteRow, row_order, strip_end, note_field, read_row, read_rows,
  rows_signature, signature_of_notes,
}
use ohmic_bridge.Arrangement.Notes.Bag.{signature_of_notes_iff}

abbrev not_a_number : Exn
not_a_number = record { class = type_error; message = [] }

abbrev no_attribute : Exn
no_attribute = record { class = attribute_error; message = [] }

abbrev number : ℕ → String → Value
number n s = record {
  is_none = false;
  as_int = returned (pos n);
  as_float = returned (codes s);
  as_str = returned (codes s);
  as_bool = returned true;
}

abbrev field : ℕ → String → FieldValue
field n s = record { is_bool = none; value = number n s }

abbrev note : ℕ → NoteObject
note pitch = record {
  pitch = returned (number pitch "");
  start_time = returned (field 1 "1.500000");
  duration = returned (field 2 "2.000000");
  velocity = returned (number 100 "");
  mute = raised no_attribute;
  probability = raised no_attribute;
}

abbrev same_text : Text → Text
same_text t = t

abbrev row : ℕ → NoteRow
row pitch = record {
  pitch = pos pitch;
  start_time = codes "1.5";
  duration = codes "2";
  velocity = pos 100;
  mute = pos 0;
  probability = codes "1";
}

read_two : read_rows same_text (note 64 ∷ note 60 ∷ []) ≡ returned (row 64 ∷ row 60 ∷ [])
unfolding read_rows read_row note_field strip_end
read_two = refl

read_reversed : read_rows same_text (note 60 ∷ note 64 ∷ []) ≡ returned (row 60 ∷ row 64 ∷ [])
unfolding read_rows read_row note_field strip_end
read_reversed = refl

lowest_first : sort row_order (row 64 ∷ row 60 ∷ []) ≡ row 60 ∷ row 64 ∷ []
unfolding sort insert text_lt
lowest_first = refl

abbrev digest : List NoteRow → Text
digest rows = codes "0123456789abcdef"

two_notes :
    signature_of_notes digest same_text (returned (note 64 ∷ note 60 ∷ []))
    ≡ returned (codes "2:0123456789abcdef")
unfolding signature_of_notes read_rows read_row note_field strip_end rows_signature decimal
two_notes = refl

one_list : sort row_order (row 64 ∷ row 60 ∷ []) ≡ sort row_order (row 60 ∷ row 64 ∷ [])
unfolding sort insert text_lt
one_list = refl

signature_of_notes_iff_example :
    (signature_of_notes digest same_text (returned (note 64 ∷ note 60 ∷ []))
      ≡ signature_of_notes digest same_text (returned (note 60 ∷ note 64 ∷ [])))
    ↔ Perm (row 64 ∷ row 60 ∷ []) (row 60 ∷ row 64 ∷ [])
signature_of_notes_iff_example =
    signature_of_notes_iff digest (λ rows. omega arith) same_text (note 64 ∷ note 60 ∷ [])
      (note 60 ∷ note 64 ∷ []) (row 64 ∷ row 60 ∷ []) (row 60 ∷ row 64 ∷ []) read_two read_reversed
      (λ same. one_list)
