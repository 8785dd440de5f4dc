-- ===== src/SessionInfo.antt =====
-- `session_info` of abletonosc/song.py: the attributes of all tracks, one list for each attribute, and those of
-- the scenes and the song. For each attribute stands what reading it gives, with the conversion by
-- `bool` or `int` that the code has there; a text of a value is what `json.dumps` writes for it.
pub mod Rows
pub mod Columns
mod Examples
use ohmic_bridge.Prelude.{
  ℕ, Bool, true, false, Option, none, some, List, [], ◌∷◌, ◌++◌, map, Text, codes, length, Outcome,
  returned, raised, ◌>>=◌,
}
use ohmic_bridge.Prelude.Int.{ℤ, pos, negsuc}
use ohmic_bridge.Color.{color_hex}
use ohmic_bridge.Json.{default, json_str, json_int, json_bool, json_option, json_array, json_object}
use ohmic_bridge.Arrangement.Reading.{TrackRef, Parent, track_index_for_parent}

pub record InfoTrack : Type 0 where
  pub ref : TrackRef
  pub name : Outcome Text
  pub color : Outcome ℤ
  pub has_midi_input : Outcome Bool
  pub is_foldable : Outcome Bool
  pub group_track : Outcome (Option Parent)
  pub mute : Outcome Bool
  pub playing_slot_index : Outcome ℤ

-- The lists that the loop over the tracks fills.
pub record TrackColumns : Type 0 where
  pub track_names : List Text
  pub track_colors : List Text
  pub midi_tracks : List Bool
  pub is_group_tracks : List Bool
  pub group_parent_indices : List (Option ℕ)
  pub track_mutes : List Bool
  pub playing_slots : List ℤ

abbrev pub no_columns : TrackColumns
no_columns = record {
  track_names = [];
  track_colors = [];
  midi_tracks = [];
  is_group_tracks = [];
  group_parent_indices = [];
  track_mutes = [];
  playing_slots = [];
}

-- One more item for each list.
pub record InfoRow : Type 0 where
  pub name : Text
  pub color : Text
  pub is_midi : Bool
  pub is_group : Bool
  pub parent_index : Option ℕ
  pub mute : Bool
  pub playing_slot : ℤ

abbrev pub push : InfoRow → TrackColumns → TrackColumns
push row c = record {
  track_names = c.track_names ++ row.name ∷ [];
  track_colors = c.track_colors ++ row.color ∷ [];
  midi_tracks = c.midi_tracks ++ row.is_midi ∷ [];
  is_group_tracks = c.is_group_tracks ++ row.is_group ∷ [];
  group_parent_indices = c.group_parent_indices ++ row.parent_index ∷ [];
  track_mutes = c.track_mutes ++ row.mute ∷ [];
  playing_slots = c.playing_slots ++ row.playing_slot ∷ [];
}

-- What the `except` around a track appends.
abbrev pub error_row : InfoRow
error_row = record {
  name = codes "(error)";
  color = codes "#808080";
  is_midi = false;
  is_group = false;
  parent_index = none;
  mute = false;
  playing_slot = negsuc 0;
}

abbrev pub group_flag : Outcome Bool → Bool
group_flag (returned b) = b
group_flag (raised e) = false

abbrev pub or_no_parent : Outcome (Option Parent) → Option Parent
or_no_parent (returned p) = p
or_no_parent (raised e) = none

-- A read and what is done with its value, or the lists as they are with the sign that it raised.
abbrev pub step :
    {V : Type 0}
    → Outcome V
    → (V → TrackColumns → TrackColumns)
    → (TrackColumns → Bool × TrackColumns)
    → TrackColumns
    → Bool × TrackColumns
step (raised e) add next c = (false, c)
step (returned v) add next c = next (add v c)

-- The `try` around a track: does it end, and the lists that it leaves.
unfoldable pub read_info_track : List TrackRef → InfoTrack → TrackColumns → Bool × TrackColumns
read_info_track refs t =
    step t.name (λ v c. record c { track_names = c.track_names ++ v ∷ [] })
      (step t.color (λ v c. record c { track_colors = c.track_colors ++ color_hex v ∷ [] })
        (step t.has_midi_input (λ v c. record c { midi_tracks = c.midi_tracks ++ v ∷ [] })
          (λ c.
            step (track_index_for_parent (or_no_parent t.group_track) refs)
              (λ v c. record c { group_parent_indices = c.group_parent_indices ++ v ∷ [] })
              (step t.mute (λ v c. record c { track_mutes = c.track_mutes ++ v ∷ [] })
                (step t.playing_slot_index
                  (λ v c. record c { playing_slots = c.playing_slots ++ v ∷ [] }) (λ c. (true, c))))
              (record c { is_group_tracks = c.is_group_tracks ++ group_flag t.is_foldable ∷ [] }))))

-- The `except` around a track.
abbrev pub or_error_row : Bool × TrackColumns → TrackColumns
or_error_row (true, c) = c
or_error_row (false, c) = push error_row c

unfoldable pub info_loop : List TrackRef → List InfoTrack → TrackColumns → TrackColumns
info_loop refs [] c = c
info_loop refs (t ∷ tracks) c = info_loop refs tracks (or_error_row (read_info_track refs t c))

unfoldable pub track_columns : List InfoTrack → TrackColumns
track_columns tracks = info_loop (map (λ t. t.ref) tracks) tracks no_columns

abbrev pub or_unnamed : Outcome Text → Text
or_unnamed (returned name) = name
or_unnamed (raised e) = []

pub record InfoSong : Type 0 where
  pub tracks : List InfoTrack
  pub scene_names : List (Outcome Text)
  pub root_note : Outcome Text
  pub scale_name : Outcome Text
  pub tempo : Outcome Text
  pub is_playing : Outcome Bool

-- The text of `data`.
unfoldable pub info_json : TrackColumns → List Text → Text → Text → Text → Bool → Text
info_json c scene_names root_note scale_name tempo is_playing = json_object default (
    (codes "track_names", json_array default (map json_str c.track_names))
    ∷ (codes "track_colors", json_array default (map json_str c.track_colors))
    ∷ (codes "midi_tracks", json_array default (map json_bool c.midi_tracks))
    ∷ (codes "is_group_tracks", json_array default (map json_bool c.is_group_tracks))
    ∷ (
      codes "group_parent_indices",
      json_array default (map (json_option (λ i. json_int (pos i))) c.group_parent_indices),
    )
    ∷ (codes "track_mutes", json_array default (map json_bool c.track_mutes))
    ∷ (codes "playing_slots", json_array default (map json_int c.playing_slots))
    ∷ (codes "num_scenes", json_int (pos (length scene_names)))
    ∷ (codes "scene_names", json_array default (map json_str scene_names))
    ∷ (codes "root_note", root_note)
    ∷ (codes "scale_name", scale_name)
    ∷ (codes "tempo", tempo)
    ∷ (codes "is_playing", json_bool is_playing)
    ∷ [])

-- The handler without its guard.
unfoldable pub session_info : InfoSong → Outcome Text
session_info song = song.root_note >>= λ root_note. song.scale_name >>= λ scale_name.
    song.tempo >>= λ tempo. song.is_playing >>= λ is_playing. returned (
      info_json (track_columns song.tracks) (map or_unnamed song.scene_names) root_note scale_name
        tempo is_playing)
