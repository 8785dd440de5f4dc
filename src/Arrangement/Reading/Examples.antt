-- ===== src/Arrangement/Reading/Examples.antt =====
-- A song of one track, without clips, as it is read.
use ohmic_bridge.Prelude.{
  ◌≡◌, refl, true, false, none, some, [], ◌∷◌, codes, returned, raised, attribute_error,
}
use ohmic_bridge.Prelude.Int.{pos}
use ohmic_bridge.Color.{color_hex}
use ohmic_bridge.Decimal.{decimal}
use ohmic_bridge.Json.{json_int}
use ohmic_bridge.Arrangement.Rows.{Float, ClipRow, dict_set}
use ohmic_bridge.Arrangement.Body.{Body}
use ohmic_bridge.Arrangement.Cache.Sync.{IsBody}
use ohmic_bridge.Arrangement.Reading.{
  Value, Attr, LiveClip, TrackRef, Parent, clip_row, clip_rows, clip_id, identity_text,
  optional_float, optional_int, optional_color_hex, signature_if, track_index_for_parent,
}
use ohmic_bridge.Arrangement.Reading.Song.{
  LiveTrack, LiveSong, track_row, track_rows, track_color, safe_bool_attr, append_row, append_rows,
  body_of, read_locators, read_song_time, snapshot_body,
}
use ohmic_bridge.Arrangement.Reading.Formed.{snapshot_body-IsBody}
use ohmic_bridge.Arrangement.Reading.Shape.{IsShaped, snapshot_body-IsShaped}

abbrev missing : Attr
missing = raised (record { class = attribute_error; message = [] })

abbrev ref : TrackRef
ref = record { identity = 4; live_ptr = returned (some (pos 99)) }

abbrev track : LiveTrack
track = record {
  ref = ref;
  name = missing;
  has_midi_input = missing;
  color = missing;
  is_foldable = missing;
  group_track = returned none;
  arrangement_clips = returned [];
}

abbrev song : LiveSong
song = record {
  tracks = returned (track ∷ []);
  cue_points = returned [];
  current_song_time = missing;
}

abbrev float_add : Float → Float → Float
float_add a b = a

abbrev body : Body
body = record {
  layout = record {
    track_names = [] ∷ [];
    track_indices = 0 ∷ [];
    midi_tracks = false ∷ [];
    track_colors = codes "#000000" ∷ [];
    is_group_tracks = false ∷ [];
    group_parent_indices = none ∷ [];
  };
  clips = (0, []) ∷ [];
  locators = [];
  current_song_time = none;
}

has_body : snapshot_body float_add song ≡ returned body
unfolding snapshot_body track_rows track_row track_color track_index_for_parent clip_rows
    safe_bool_attr append_row append_rows body_of dict_set read_locators read_song_time color_hex
has_body = refl

snapshot_body-IsBody_example : IsBody body
snapshot_body-IsBody_example = snapshot_body-IsBody float_add song has_body

abbrev pointer : Value
pointer = record {
  is_none = false;
  as_int = returned (pos 7);
  as_float = returned (codes "7.0");
  as_str = returned (codes "7");
  as_bool = returned true;
}

-- A clip of which Live says no more than its pointer, on an audio track.
abbrev bare_clip : LiveClip
bare_clip = record {
  start_time = missing;
  length = missing;
  end_time = missing;
  live_ptr = returned pointer;
  name = missing;
  looping = missing;
  loop_start = missing;
  loop_end = missing;
  start_marker = missing;
  color = missing;
  color_index = missing;
  notes = raised (record { class = attribute_error; message = [] });
}

abbrev filled : LiveTrack
filled = record track { arrangement_clips = returned (bare_clip ∷ []) }

abbrev bare_row : ClipRow
bare_row = record {
  index = 0;
  clip_id = codes "7";
  name = [];
  start = codes "0.0";
  length = codes "0.0";
  end = codes "0.0";
  looping = false;
  loop_start = none;
  loop_end = none;
  start_marker = none;
  color = none;
  color_index = none;
  notes_signature = none;
}

abbrev filled_body : Body
filled_body = record body { clips = (0, bare_row ∷ []) ∷ [] }

has_filled :
    snapshot_body float_add (record song { tracks = returned (filled ∷ []) }) ≡ returned filled_body
unfolding snapshot_body track_rows track_row track_color track_index_for_parent clip_rows clip_row
    clip_id identity_text json_int decimal optional_float optional_int optional_color_hex
    signature_if safe_bool_attr append_row append_rows body_of dict_set read_locators read_song_time
    color_hex
has_filled = refl

snapshot_body-IsShaped_example : IsShaped (filled ∷ []) filled_body
snapshot_body-IsShaped_example =
    snapshot_body-IsShaped float_add (record song { tracks = returned (filled ∷ []) }) (filled ∷ [])
      refl has_filled

abbrev parent : Parent
parent = record { identity = 4; live_ptr = returned none; equals = λ t. returned false }
