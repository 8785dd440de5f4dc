-- ===== src/Arrangement/Reading.antt =====
-- `_snapshot_body` of abletonosc/arrangement_view.py: the reading of the song through Live's API. A
-- Live object is what its attributes give, each of which may raise; a value is what Python's
-- conversions make of it. The addition of floats and the digest of a clip's notes are parameters.
pub mod Song
pub mod Columns
pub mod Formed
pub mod Shape
pub mod Group
mod Examples
use ohmic_bridge.Prelude.{
  ℕ, ◌+◌, Bool, true, false, ◌==◌, if◌then◌else◌, Option, none, some, List, [], ◌∷◌, ◌++◌, map,
  Text, codes, Outcome, returned, raised, ◌>>=◌, Exn, ExnClass, attribute_error, type_error,
  value_error, identity_error, note_signature_error,
}
use ohmic_bridge.Prelude.Int.{ℤ, pos, negsuc}
use ohmic_bridge.Color.{color_hex}
use ohmic_bridge.Json.{json_int}
use ohmic_bridge.Arrangement.Rows.{Float, ClipRow, Clips, dict_set}
use ohmic_bridge.Arrangement.Body.{Locator, Layout, Body}

-- What `is None`, `int`, `float`, `str` and `bool` make of a Python object.
pub record Value : Type 0 where
  pub is_none : Bool
  pub as_int : Outcome ℤ
  pub as_float : Outcome Float
  pub as_str : Outcome Text
  pub as_bool : Outcome Bool

-- `getattr(target, name)`
abbrev pub Attr : Type 0
Attr = Outcome Value

-- `getattr(target, name, default)` of a list, an object or a pointer.
abbrev pub get_or {ℓ} : {A : Type ℓ} → A → Outcome A → Outcome A
get_or default (returned a) = returned a
get_or default (raised e) = elim (e.class) [ attribute_error ↦ returned default | _ ↦ raised e ]

-- A conversion of `getattr(target, name, default)`, where the default is converted already.
abbrev pub convert_or {ℓ} : {A : Type ℓ} → (Value → Outcome A) → A → Attr → Outcome A
convert_or conversion default (returned v) = conversion v
convert_or conversion default (raised e) = elim (e.class) [
  | attribute_error ↦ returned default
  | _ ↦ raised e
]

unfoldable pub value_color_hex : Value → Text
value_color_hex v = elim (v.as_int) [ returned c ↦ color_hex c | raised e ↦ color_hex (pos 0) ]

unfoldable pub optional_color_hex : Attr → Option Text
optional_color_hex (raised e) = none
optional_color_hex (returned v) = if v.is_none then none else some (value_color_hex v)

-- `try: return convert(value)`, with `except (TypeError, ValueError): return None`.
abbrev pub or_none {ℓ} : {A : Type ℓ} → Outcome A → Outcome (Option A)
or_none (returned a) = returned (some a)
or_none (raised e) = elim (e.class) [
  | type_error ↦ returned none
  | value_error ↦ returned none
  | _ ↦ raised e
]

unfoldable pub optional_int : Attr → Outcome (Option ℤ)
optional_int (raised e) = returned none
optional_int (returned v) = if v.is_none then returned none else or_none v.as_int

unfoldable pub optional_float : Attr → Outcome (Option Float)
optional_float (raised e) = returned none
optional_float (returned v) = if v.is_none then returned none else or_none v.as_float

pub record LiveClip : Type 0 where
  pub start_time : Attr
  pub length : Attr
  pub end_time : Attr
  pub live_ptr : Attr
  pub name : Attr
  pub looping : Attr
  pub loop_start : Attr
  pub loop_end : Attr
  pub start_marker : Attr
  pub color : Attr
  pub color_index : Attr
  -- What `get_notes_extended` raises, or what `_clip_notes_signature` makes of the notes it gives.
  pub notes : Outcome (Outcome Text)

abbrev pub no_identity : Exn
no_identity = record {
  class = identity_error;
  message = codes "Arrangement clip identity is unavailable in this Live session.";
}

abbrev pub no_notes : Exn
no_notes = record {
  class = note_signature_error;
  message = codes "Arrangement clip notes are unavailable in this Live session.";
}

-- The beginning of `_clip_notes_signature`.
unfoldable pub clip_notes_signature : LiveClip → Outcome Text
clip_notes_signature clip = elim (clip.notes) [
  | raised e ↦ raised no_notes
  | returned signature ↦ signature
]

-- `str(int(value))`
abbrev pub integer_text : ℤ → Text
integer_text c = json_int c

-- `_clip_id`, of what `_live_ptr` gives.
unfoldable pub identity_text : Attr → Outcome Text
identity_text (raised e) = raised no_identity
identity_text (returned v) =
    if v.is_none then raised no_identity else (v.as_int >>= λ n. returned (integer_text n))

unfoldable pub clip_id : LiveClip → Outcome Text
clip_id clip = identity_text clip.live_ptr

unfoldable pub signature_if : Bool → LiveClip → Outcome (Option Text)
signature_if false clip = returned none
signature_if true clip = clip_notes_signature clip >>= λ s. returned (some s)

module _ (float_add : Float → Float → Float) where
  unfoldable pub clip_row : LiveClip → ℕ → Bool → Outcome ClipRow
  clip_row clip clip_index is_midi_track =
      convert_or (λ v. v.as_float) (codes "0.0") clip.start_time >>= λ start.
      convert_or (λ v. v.as_float) (codes "0.0") clip.length >>= λ length.
      optional_float clip.end_time >>= λ end. clip_id clip >>= λ id.
      convert_or (λ v. v.as_str) [] clip.name >>= λ name.
      convert_or (λ v. v.as_bool) false clip.looping >>= λ looping.
      optional_float clip.loop_start >>= λ loop_start. optional_float clip.loop_end >>= λ loop_end.
      optional_float clip.start_marker >>= λ start_marker.
      optional_int clip.color_index >>= λ color_index.
      signature_if is_midi_track clip >>= λ notes_signature. returned (record {
        index = clip_index;
        clip_id = id;
        name = name;
        start = start;
        length = length;
        end = elim end [ none ↦ float_add start length | some e ↦ e ];
        looping = looping;
        loop_start = loop_start;
        loop_end = loop_end;
        start_marker = start_marker;
        color = optional_color_hex clip.color;
        color_index = color_index;
        notes_signature = notes_signature;
      })

  -- The comprehension over `enumerate(arrangement_clips)`.
  unfoldable pub clip_rows : List LiveClip → ℕ → Bool → Outcome (List ClipRow)
  clip_rows [] i is_midi_track = returned []
  clip_rows (clip ∷ rest) i is_midi_track = clip_row clip i is_midi_track >>= λ row.
      clip_rows rest (i + 1) is_midi_track >>= λ rows. returned (row ∷ rows)

-- A track as `_track_index_for_parent` meets it: its identity, and its `_live_ptr` (or none).
pub record TrackRef : Type 0 where
  pub identity : ℕ
  pub live_ptr : Outcome (Option ℤ)

-- A group track: besides, what `track == parent` gives or raises.
pub record Parent : Type 0 where
  pub identity : ℕ
  pub live_ptr : Outcome (Option ℤ)
  pub equals : TrackRef → Outcome Bool

unfoldable pub index_by_identity : List TrackRef → ℕ → ℕ → Option ℕ
index_by_identity [] i identity = none
index_by_identity (t ∷ rest) i identity =
    let later = index_by_identity rest (i + 1) identity in
    if t.identity == identity then some i else later

-- `track == parent`, where an exception moves on to the next track.
abbrev pub holds : Outcome Bool → Bool
holds (returned b) = b
holds (raised e) = false

unfoldable pub index_by_equality : List TrackRef → ℕ → Parent → Option ℕ
index_by_equality [] i parent = none
index_by_equality (t ∷ rest) i parent =
    let later = index_by_equality rest (i + 1) parent in
    if holds (parent.equals t) then some i else later

-- `track_ptr == parent_ptr`, of which the second is not `None`.
abbrev pub same_ptr : Option ℤ → ℤ → Bool
same_ptr (some (pos a)) (pos b) = a == b
same_ptr (some (negsuc a)) (negsuc b) = a == b
same_ptr _ _ = false

unfoldable pub index_by_ptr : List TrackRef → ℕ → ℤ → Outcome (Option ℕ)
index_by_ptr [] i ptr = returned none
index_by_ptr (t ∷ rest) i ptr = get_or none t.live_ptr >>= λ p.
    if same_ptr p ptr then returned (some i) else index_by_ptr rest (i + 1) ptr

unfoldable pub index_by_live_ptr : Parent → List TrackRef → Outcome (Option ℕ)
index_by_live_ptr parent tracks = get_or none parent.live_ptr >>= λ p. elim p [
  | none ↦ returned none
  | some ptr ↦ index_by_ptr tracks 0 ptr
]

-- A `return` in a loop, or what comes after the loop.
abbrev pub found_or : Option ℕ → Outcome (Option ℕ) → Outcome (Option ℕ)
found_or (some i) next = returned (some i)
found_or none next = next

unfoldable pub track_index_for_parent : Option Parent → List TrackRef → Outcome (Option ℕ)
track_index_for_parent none tracks = returned none
track_index_for_parent (some parent) tracks =
    found_or (index_by_identity tracks 0 parent.identity)
      (found_or (index_by_equality tracks 0 parent) (index_by_live_ptr parent tracks))
