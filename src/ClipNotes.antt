-- ===== src/ClipNotes.antt =====
-- `_paged_notes_reply` of abletonosc/clip.py: the notes of a clip, one page to a reply. An argument is
-- what `int` makes of it; what `get_notes_extended` gives for a window is a parameter, and a field of
-- a note is what reading its attribute gives.
pub mod Pages
mod Examples
use ohmic_bridge.Prelude.{
  ℕ, zero, suc, ◌+◌, ◌-◌, ◌*◌, ◌/◌, max, Bool, true, false, ◌||◌, leb, if◌then◌else◌, Option, none,
  some, List, [], ◌∷◌, ◌++◌, codes, length, take, drop, Outcome, returned, raised, ◌>>=◌, Exn,
  value_error, attribute_error,
}
use ohmic_bridge.Prelude.Int.{ℤ, pos, negsuc}

-- `MAX_NOTES_PER_PAGE`
abbrev pub max_notes_per_page : ℕ
max_notes_per_page = 300

-- An OSC argument of type `V`, and `int(argument)`.
pub record Param (V : Type 0) : Type 0 where
  pub value : V
  pub as_int : Outcome ℤ

pub record LiveNote (V : Type 0) : Type 0 where
  pub pitch : Outcome V
  pub start_time : Outcome V
  pub duration : Outcome V
  pub velocity : Outcome V
  pub mute : Outcome V
  pub probability : Outcome V

pub record NoteFields (V : Type 0) : Type 0 where
  pub pitch : V
  pub start_time : V
  pub duration : V
  pub velocity : V
  pub mute : V
  pub probability : V

-- The arguments of `get_notes_extended`: pitch 0, a span, and the time from -8192 for 16384 beats, or
-- those of the request.
pub data Window (V : Type 0) : Type 0 where
  whole_clip : (pitch_span : ℕ) → Window V
  window : (pitch_start pitch_span time_start time_span : V) → Window V

-- A reply: the arguments of the request, the two counts, and the notes of the page.
pub record NotesReply (V : Type 0) : Type 0 where
  pub echo : List V
  pub page_count : ℕ
  pub total_notes : ℕ
  pub notes : List (NoteFields V)

abbrev pub wrong_arguments : Exn
wrong_arguments = record { class = value_error; message = codes "Invalid number of arguments" }

abbrev pub page_outside : Exn
page_outside = record { class = value_error; message = codes "page_index is outside the pages" }

-- `page_count`, from `total_notes`.
unfoldable pub count_pages : ℕ → ℕ
count_pages total = max 1 ((total + max_notes_per_page - 1) / max_notes_per_page)

-- The slice of a page.
unfoldable pub page_of : {N : Type 0} → List N → ℕ → List N
page_of notes i = take max_notes_per_page (drop (i * max_notes_per_page) notes)

-- `page_index`, if it is that of a page.
unfoldable pub in_range : ℤ → ℕ → Option ℕ
in_range (negsuc n) page_count = none
in_range (pos i) page_count = if leb page_count i then none else some i

module _ {V : Type 0} where
  -- The window and the argument that is the page index, if the request has one.
  unfoldable pub read_request : ℕ → List (Param V) → Outcome (Window V × Option (Param V))
  read_request span [] = returned (whole_clip span, none)
  read_request span (p ∷ []) = returned (whole_clip span, some p)
  read_request span (a ∷ b ∷ []) = raised wrong_arguments
  read_request span (a ∷ b ∷ c ∷ []) = raised wrong_arguments
  read_request span (a ∷ b ∷ c ∷ d ∷ []) = returned (window a.value b.value c.value d.value, none)
  read_request span (a ∷ b ∷ c ∷ d ∷ p ∷ []) =
      returned (window a.value b.value c.value d.value, some p)
  read_request span (a ∷ b ∷ c ∷ d ∷ p ∷ q ∷ rest) = raised wrong_arguments

  unfoldable pub read_page_index : Option (Param V) → Outcome ℤ
  read_page_index none = returned (pos 0)
  read_page_index (some p) = p.as_int

  abbrev pub probability_or : V → Outcome V → Outcome V
  probability_or default (returned v) = returned v
  probability_or default (raised e) = elim (e.class) [
    | attribute_error ↦ returned default
    | _ ↦ raised e
  ]

  -- The fields of a note; `default` is the probability 1.0.
  unfoldable pub read_note : V → LiveNote V → Outcome (NoteFields V)
  read_note default note = probability_or default note.probability >>= λ probability.
      note.pitch >>= λ pitch. note.start_time >>= λ start_time. note.duration >>= λ duration.
      note.velocity >>= λ velocity. note.mute >>= λ mute. returned (record {
        pitch = pitch;
        start_time = start_time;
        duration = duration;
        velocity = velocity;
        mute = mute;
        probability = probability;
      })

  unfoldable pub read_notes : V → List (LiveNote V) → Outcome (List (NoteFields V))
  read_notes default [] = returned []
  read_notes default (note ∷ rest) = read_note default note >>= λ fields.
      read_notes default rest >>= λ others. returned (fields ∷ others)

  abbrev pub param_values : List (Param V) → List V
  param_values [] = []
  param_values (p ∷ params) = p.value ∷ param_values params

  -- The reply with the page at an index, if there is one.
  unfoldable pub page_reply :
      V → List (Param V) → List (LiveNote V) → Option ℕ → Outcome (NotesReply V)
  page_reply default params notes none = raised page_outside
  page_reply default params notes (some i) = read_notes default (page_of notes i) >>= λ fields.
      returned (record {
        echo = param_values params;
        page_count = count_pages (length notes);
        total_notes = length notes;
        notes = fields;
      })

  unfoldable pub paged_notes_reply :
      (Window V → Outcome (List (LiveNote V))) → V → ℕ → List (Param V) → Outcome (NotesReply V)
  paged_notes_reply get_notes_extended default span params = read_request span params >>= λ request.
      read_page_index request.1 >>= λ page_index. get_notes_extended request.0 >>= λ notes.
      page_reply default params notes (in_range page_index (count_pages (length notes)))
