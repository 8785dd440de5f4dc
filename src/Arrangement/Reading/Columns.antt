-- ===== src/Arrangement/Reading/Columns.antt =====
-- The lists that `_snapshot_body` appends to, row by row, as the columns of the rows.
use ohmic_bridge.Prelude.{
  ℕ, ◌+◌, ◌≡◌, ap, ◌∙◌, Option, List, [], ◌∷◌, ◌++◌, map, append_assoc, append-nil,
}
use ohmic_bridge.Arrangement.Rows.{Float, Clips, dict_set}
use ohmic_bridge.Arrangement.Body.{Layout, Body, Locator}
use ohmic_bridge.Arrangement.Reading.Song.{TrackRow, no_rows, append_row, append_rows, body_of}

-- The clips by the index of their track, from index `i` on.
unfoldable pub clips_of_tracks : Clips → ℕ → List TrackRow → Clips
clips_of_tracks m i [] = m
clips_of_tracks m i (row ∷ rows) = clips_of_tracks (dict_set m i row.clips) (i + 1) rows

unfoldable pub indices : ℕ → List TrackRow → List ℕ
indices i [] = []
indices i (row ∷ rows) = i ∷ indices (i + 1) rows

-- The columns of the rows.
abbrev pub columns : ℕ → List TrackRow → Layout
columns i rows = record {
  track_names = map (λ r. r.name) rows;
  track_indices = indices i rows;
  midi_tracks = map (λ r. r.is_midi_track) rows;
  track_colors = map (λ r. r.color) rows;
  is_group_tracks = map (λ r. r.is_group_track) rows;
  group_parent_indices = map (λ r. r.group_parent_index) rows;
}

abbrev joined : Layout → Layout → Layout
joined a b = record {
  track_names = a.track_names ++ b.track_names;
  track_indices = a.track_indices ++ b.track_indices;
  midi_tracks = a.midi_tracks ++ b.midi_tracks;
  track_colors = a.track_colors ++ b.track_colors;
  is_group_tracks = a.is_group_tracks ++ b.is_group_tracks;
  group_parent_indices = a.group_parent_indices ++ b.group_parent_indices;
}

-- Appending row by row gives the columns.
append_rows-columns :
    (lists : Layout) (clips : Clips) (i : ℕ) (rows : List TrackRow)
    → append_rows lists clips i rows ≡ (joined lists (columns i rows), clips_of_tracks clips i rows)
unfolding append_rows append_row clips_of_tracks indices
append_rows-columns lists clips i [] = simp (append-nil)
append_rows-columns lists clips i (row ∷ rows) =
    append_rows-columns (append_row lists i row) (dict_set clips i row.clips) (i + 1) rows
    ∙ simp (append_assoc)

abbrev pub columns_of : List TrackRow → List Locator → Option Float → Body
columns_of rows locators time = record {
  layout = columns 0 rows;
  clips = clips_of_tracks [] 0 rows;
  locators = locators;
  current_song_time = time;
}

pub body_of-columns_of :
    (rows : List TrackRow) (locators : List Locator) (time : Option Float)
    → body_of rows locators time ≡ columns_of rows locators time
unfolding body_of
body_of-columns_of rows locators time =
    ap
      (λ (l : Layout × Clips). record {
        layout = l.0;
        clips = l.1;
        locators = locators;
        current_song_time = time;
      })
      (append_rows-columns no_rows [] 0 rows)
