-- ===== src/Arrangement/Reading/Song.antt =====
-- `_snapshot_body` itself, over the tracks and the cue points.
use ohmic_bridge.Prelude.{
  ℕ, ◌+◌, Bool, false, Option, none, some, List, [], ◌∷◌, ◌++◌, map, Text, codes, Outcome, returned,
  raised, ◌>>=◌,
}
use ohmic_bridge.Prelude.Int.{pos}
use ohmic_bridge.Color.{color_hex}
use ohmic_bridge.Arrangement.Rows.{Float, ClipRow, Clips, dict_set}
use ohmic_bridge.Arrangement.Body.{Layout, Locator, Body}
use ohmic_bridge.Arrangement.Reading.{
  Attr, get_or, convert_or, value_color_hex, LiveClip, clip_rows, TrackRef, Parent,
  track_index_for_parent,
}

pub record LiveTrack : Type 0 where
  pub ref : TrackRef
  pub name : Attr
  pub has_midi_input : Attr
  pub color : Attr
  pub is_foldable : Attr
  pub group_track : Outcome (Option Parent)
  pub arrangement_clips : Outcome (List LiveClip)

pub record LiveCue : Type 0 where
  pub name : Attr
  pub time : Attr

pub record LiveSong : Type 0 where
  pub tracks : Outcome (List LiveTrack)
  pub cue_points : Outcome (List LiveCue)
  pub current_song_time : Attr

-- What one round of the loop over the tracks appends.
pub record TrackRow : Type 0 where
  pub name : Text
  pub is_midi_track : Bool
  pub color : Text
  pub is_group_track : Bool
  pub group_parent_index : Option ℕ
  pub clips : List ClipRow

unfoldable pub safe_bool_attr : Attr → Bool
safe_bool_attr (raised e) = false
safe_bool_attr (returned v) = elim (v.as_bool) [ raised e ↦ false | returned b ↦ b ]

-- `_safe_attr` of the group track.
abbrev pub safe_attr : Outcome (Option Parent) → Option Parent
safe_attr (raised e) = none
safe_attr (returned p) = p

-- `try: list(...)`, with `except Exception: []`.
abbrev pub clips_or_none : Outcome (List LiveClip) → List LiveClip
clips_or_none (raised e) = []
clips_or_none (returned clips) = clips

unfoldable pub track_color : Attr → Outcome Text
track_color color = convert_or (λ v. returned (value_color_hex v)) (color_hex (pos 0)) color

module _ (float_add : Float → Float → Float) where
  unfoldable pub track_row : List TrackRef → LiveTrack → Outcome TrackRow
  track_row refs track = convert_or (λ v. v.as_str) [] track.name >>= λ name.
      convert_or (λ v. v.as_bool) false track.has_midi_input >>= λ is_midi_track.
      track_color track.color >>= λ color.
      track_index_for_parent (safe_attr track.group_track) refs >>= λ parent.
      clip_rows float_add (clips_or_none track.arrangement_clips) 0 is_midi_track >>= λ clips.
      returned (record {
        name = name;
        is_midi_track = is_midi_track;
        color = color;
        is_group_track = safe_bool_attr track.is_foldable;
        group_parent_index = parent;
        clips = clips;
      })

  unfoldable pub track_rows : List TrackRef → List LiveTrack → Outcome (List TrackRow)
  track_rows refs [] = returned []
  track_rows refs (track ∷ rest) =
      track_row refs track >>= λ row. track_rows refs rest >>= λ rows. returned (row ∷ rows)

unfoldable pub read_locators : List LiveCue → Outcome (List Locator)
read_locators [] = returned []
read_locators (cue ∷ rest) = convert_or (λ v. v.as_str) [] cue.name >>= λ name.
    convert_or (λ v. v.as_float) (codes "0.0") cue.time >>= λ time.
    read_locators rest >>= λ locators. returned (record { name = name; time = time } ∷ locators)

-- `float(getattr(song, "current_song_time"))`, or `None` if that raises.
unfoldable pub read_song_time : Attr → Option Float
read_song_time (raised e) = none
read_song_time (returned v) = elim (v.as_float) [ raised e ↦ none | returned t ↦ some t ]

-- The six lists and the dictionary before the loop over the tracks.
abbrev pub no_rows : Layout
no_rows = record {
  track_names = [];
  track_indices = [];
  midi_tracks = [];
  track_colors = [];
  is_group_tracks = [];
  group_parent_indices = [];
}

-- What one round appends to the lists.
unfoldable pub append_row : Layout → ℕ → TrackRow → Layout
append_row lists i row = record {
  track_names = lists.track_names ++ row.name ∷ [];
  track_indices = lists.track_indices ++ i ∷ [];
  midi_tracks = lists.midi_tracks ++ row.is_midi_track ∷ [];
  track_colors = lists.track_colors ++ row.color ∷ [];
  is_group_tracks = lists.is_group_tracks ++ row.is_group_track ∷ [];
  group_parent_indices = lists.group_parent_indices ++ row.group_parent_index ∷ [];
}

-- The rounds from track `i` on, with `clips[str(track_index)] = ...`.
unfoldable pub append_rows : Layout → Clips → ℕ → List TrackRow → Layout × Clips
append_rows lists clips i [] = (lists, clips)
append_rows lists clips i (row ∷ rows) =
    append_rows (append_row lists i row) (dict_set clips i row.clips) (i + 1) rows

unfoldable pub body_of : List TrackRow → List Locator → Option Float → Body
body_of rows locators time =
    let (lists, clips) = append_rows no_rows [] 0 rows in
    record { layout = lists; clips = clips; locators = locators; current_song_time = time }

unfoldable pub snapshot_body : (Float → Float → Float) → LiveSong → Outcome Body
snapshot_body float_add song = get_or [] song.tracks >>= λ tracks.
    track_rows float_add (map (λ (t : LiveTrack). t.ref) tracks) tracks >>= λ rows.
    get_or [] song.cue_points >>= λ cues. read_locators cues >>= λ locators.
    returned (body_of rows locators (read_song_time song.current_song_time))
