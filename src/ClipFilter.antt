-- ===== src/ClipFilter.antt =====
-- The filter of clips by the notes in their names, of abletonosc/clip.py: `note_name_to_midi`, the cache
-- of `_build_clip_name_cache`, and the handlers of /live/clips/filter and /live/clips/unfilter. The
-- clips of a song are a list of tracks; a slot holds a clip or none.
pub mod Muted
mod Examples
use ohmic_bridge.Prelude.{
  ℕ, zero, suc, ◌+◌, ◌-◌, min, Bool, true, false, not, ◌&&◌, ◌||◌, leb, ◌==◌, if◌then◌else◌, Option,
  none, some, List, [], ◌∷◌, ◌++◌, map, Text, text_eq, codes, length, take, drop, get_elem?,
  Outcome, returned, raised, ◌>>=◌, Exn, index_error, attribute_error,
}
use ohmic_bridge.Prelude.Int.{ℤ, pos, negsuc}
use ohmic_bridge.Prelude.Texts.{split}

-- `note_names`
abbrev pub note_names : List (List Text)
note_names =
    (codes "C" ∷ [])
    ∷ (codes "C#" ∷ codes "Db" ∷ [])
    ∷ (codes "D" ∷ [])
    ∷ (codes "D#" ∷ codes "Eb" ∷ [])
    ∷ (codes "E" ∷ [])
    ∷ (codes "F" ∷ [])
    ∷ (codes "F#" ∷ codes "Gb" ∷ [])
    ∷ (codes "G" ∷ [])
    ∷ (codes "G#" ∷ codes "Ab" ∷ [])
    ∷ (codes "A" ∷ [])
    ∷ (codes "A#" ∷ codes "Bb" ∷ [])
    ∷ (codes "B" ∷ [])
    ∷ []

-- `name in names`
unfoldable pub is_among : Text → List Text → Bool
is_among name [] = false
is_among name (n ∷ names) = text_eq name n || is_among name names

-- The loop of `note_name_to_midi`, from an index on.
unfoldable pub find_note : Text → ℕ → List (List Text) → Option ℕ
find_note name i [] = none
find_note name i (names ∷ rest) =
    if is_among name names then some i else find_note name (suc i) rest

unfoldable pub note_name_to_midi : Text → Option ℕ
note_name_to_midi name = find_note name 0 note_names

-- The classes `[_-]`, `[A-G]`, `[A-G#b1-9-]` and `[1-9]` of characters.
abbrev pub is_mark : ℕ → Bool
is_mark c = (c == b'_') || (c == b'-')

abbrev pub is_note_letter : ℕ → Bool
is_note_letter c = leb b'A' c && leb c b'G'

abbrev pub is_digit : ℕ → Bool
is_digit c = leb b'1' c && leb c b'9'

abbrev pub is_note_char : ℕ → Bool
is_note_char c = is_note_letter c || (c == b'#') || (c == b'b') || is_digit c || (c == b'-')

-- What `[A-G#b1-9-]*$` takes from a text: all of it, but for a line feed at its end.
unfoldable pub note_chars : Text → Option Text
note_chars [] = some []
note_chars (c ∷ s) =
    let rest = note_chars s in
    if is_note_char c then put c rest else if c == 10 then at_end s else none
  where
    put : ℕ → Option Text → Option Text
    put c none = none
    put c (some t) = some (c ∷ t)

    at_end : Text → Option Text
    at_end [] = some []
    at_end (d ∷ t) = none

-- The second group of a match that begins here.
unfoldable pub match_here : Text → Option Text
match_here [] = none
match_here (x ∷ []) = none
match_here (x ∷ y ∷ s) = if is_mark x && is_note_letter y then onto y (note_chars s) else none
  where
    onto : ℕ → Option Text → Option Text
    onto c none = none
    onto c (some t) = some (c ∷ t)

-- `re.search`, and the second group of the match.
unfoldable pub search_notes : Text → Option Text
search_notes [] = none
search_notes (c ∷ s) = or_next (match_here (c ∷ s)) (search_notes s)
  where
    or_next : Option Text → Option Text → Option Text
    or_next none later = later
    or_next (some t) later = some t

-- `re.sub("[1-9]", "", ...)`
unfoldable pub without_digits : Text → Text
without_digits [] = []
without_digits (c ∷ s) = if is_digit c then without_digits s else c ∷ without_digits s

-- The notes in the name of a clip.
unfoldable pub name_notes : Text → List (Option ℕ)
name_notes name = notes_of (search_notes name)
  where
    notes_of : Option Text → List (Option ℕ)
    notes_of none = []
    notes_of (some t) = map note_name_to_midi (split b'-' (without_digits t))

pub record NamedClip : Type 0 where
  pub name : Text
  pub muted : Bool

abbrev pub Grid : Type 0
Grid = List (List (Option NamedClip))

abbrev pub NoteCache : Type 0
NoteCache = List (List (List (Option ℕ)))

unfoldable pub slot_notes : Option NamedClip → List (Option ℕ)
slot_notes none = []
slot_notes (some clip) = name_notes clip.name

-- What `_build_clip_name_cache` appends to the cache.
unfoldable pub build_clip_name_cache : Grid → NoteCache
build_clip_name_cache tracks = map (map slot_notes) tracks

-- `note in note_indices`
unfoldable pub has_note : List (Option ℕ) → Option ℕ → Bool
has_note [] wanted = false
has_note (n ∷ notes) wanted = same_note n wanted || has_note notes wanted
  where
    same_note : Option ℕ → Option ℕ → Bool
    same_note none none = true
    same_note none (some b) = false
    same_note (some a) none = false
    same_note (some a) (some b) = a == b

unfoldable pub all_notes : List (Option ℕ) → List (Option ℕ) → Bool
all_notes indices [] = true
all_notes indices (n ∷ notes) = has_note indices n && all_notes indices notes

abbrev pub no_such_index : Exn
no_such_index = record { class = index_error; message = codes "list index out of range" }

abbrev pub no_clip : Exn
no_clip = record {
  class = attribute_error;
  message = codes "'NoneType' object has no attribute 'muted'";
}

-- A slot by its entry of the cache, `none` if there is no such entry.
unfoldable pub filter_slot :
    List (Option ℕ) → Option (List (Option ℕ)) → Option NamedClip → Outcome (Option NamedClip)
filter_slot indices none slot = raised no_such_index
filter_slot indices (some []) slot = returned slot
filter_slot indices (some (n ∷ notes)) none = raised no_clip
filter_slot indices (some (n ∷ notes)) (some clip) =
    returned (some (record clip { muted = not (all_notes indices (n ∷ notes)) }))

-- An entry of a row of the cache.
abbrev pub entry : Option (List (List (Option ℕ))) → ℕ → Option (List (Option ℕ))
entry none j = none
entry (some row) j = get_elem? row j

-- The first item of a list behind a call, and the rest if the call returned.
abbrev pub continue :
    {X : Type 0}
    → Outcome X
    → X
    → List X
    → List X × Outcome (Unit {0})
    → List X × Outcome (Unit {0})
continue (returned x') x xs (xs', answer) = (x' ∷ xs', answer)
continue (raised e) x xs behind = (x ∷ xs, raised e)

-- The slots of a track from an index on.
unfoldable pub filter_slots :
    List (Option ℕ)
    → Option (List (List (Option ℕ)))
    → ℕ
    → List (Option NamedClip)
    → List (Option NamedClip) × Outcome (Unit {0})
filter_slots indices row j [] = ([], returned tt)
filter_slots indices row j (slot ∷ slots) =
    continue (filter_slot indices (entry row j) slot) slot slots
      (filter_slots indices row (suc j) slots)

-- The slots of a track behind their loop, and the later tracks if it did not raise.
abbrev pub continue_tracks :
    List (Option NamedClip) × Outcome (Unit {0})
    → Grid
    → Grid × Outcome (Unit {0})
    → Grid × Outcome (Unit {0})
continue_tracks (slots, returned done) tracks (tracks', answer) = (slots ∷ tracks', answer)
continue_tracks (slots, raised e) tracks behind = (slots ∷ tracks, raised e)

unfoldable pub filter_tracks : List (Option ℕ) → NoteCache → ℕ → Grid → Grid × Outcome (Unit {0})
filter_tracks indices cache i [] = ([], returned tt)
filter_tracks indices cache i (slots ∷ tracks) =
    continue_tracks (filter_slots indices (get_elem? cache i) 0 slots) tracks
      (filter_tracks indices cache (suc i) tracks)

-- The song and `_clip_notes_cache`.
pub record FilterState : Type 0 where
  pub cache : NoteCache
  pub tracks : Grid

unfoldable pub cache_or_build : NoteCache → Grid → NoteCache
cache_or_build [] tracks = build_clip_name_cache tracks
cache_or_build (row ∷ rows) tracks = row ∷ rows

unfoldable pub clips_filter : List Text → FilterState → Outcome (Unit {0}) × FilterState
clips_filter names s =
    let cache = cache_or_build s.cache s.tracks in
    let (tracks, answer) = filter_tracks (map note_name_to_midi names) cache 0 s.tracks in
    (answer, record { cache = cache; tracks = tracks })

unfoldable pub unmute : Option NamedClip → Option NamedClip
unmute none = none
unmute (some clip) = some (record clip { muted = false })

-- An end of a slice of `n` items, as Python takes it.
unfoldable pub slice_end : ℕ → ℤ → ℕ
slice_end n (pos i) = min i n
slice_end n (negsuc i) = n - suc i

-- The tracks of `tracks[start:stop]` unmuted, and the others.
unfoldable pub unmute_between : ℕ → ℕ → Grid → Grid
unmute_between start stop tracks =
    take start tracks
    ++ map (map unmute) (take (stop - start) (drop start tracks))
    ++ drop (start + (stop - start)) tracks

-- `params[i] if len(params) > i else ...`
abbrev pub param_or : ℤ → Option ℤ → ℤ
param_or other none = other
param_or other (some i) = i

unfoldable pub clips_unfilter : List ℤ → FilterState → FilterState
clips_unfilter params s =
    let n = length s.tracks in
    let start = slice_end n (param_or (pos 0) (get_elem? params 0)) in
    let stop = slice_end n (param_or (pos n) (get_elem? params 1)) in
    record s { tracks = unmute_between start stop s.tracks }
