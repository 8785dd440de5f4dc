-- ===== src/SessionInfo/Examples.antt =====
-- A track that is read, and one whose colour raises behind its name.
use ohmic_bridge.Prelude.{
  ◌+◌, ◌≡◌, refl, true, false, none, [], ◌∷◌, codes, length, All, returned, raised, Exn,
  runtime_error,
}
use ohmic_bridge.Prelude.Int.{pos, negsuc}
use ohmic_bridge.Color.{color_hex}
use ohmic_bridge.Arrangement.Reading.{track_index_for_parent}
use ohmic_bridge.SessionInfo.{
  InfoTrack, InfoSong, read_info_track, info_loop, track_columns, session_info,
}
use ohmic_bridge.SessionInfo.Columns.{
  columns_of, rows_of, fails_late, count_late, track_columns-rows,
}

abbrev lost : Exn
lost = record { class = runtime_error; message = [] }

abbrev drums : InfoTrack
drums = record {
  ref = record { identity = 1; live_ptr = returned none };
  name = returned (codes "Drums");
  color = returned (pos 255);
  has_midi_input = returned true;
  is_foldable = raised lost;
  group_track = returned none;
  mute = returned false;
  playing_slot_index = returned (pos 2);
}

abbrev broken : InfoTrack
broken = record drums { name = returned (codes "Bass"); color = raised lost }

-- The name of the second track stands where that of the third should.
shifted : track_columns (broken ∷ drums ∷ []) ≡ record {
  track_names = codes "Bass" ∷ codes "(error)" ∷ codes "Drums" ∷ [];
  track_colors = codes "#808080" ∷ codes "#0000ff" ∷ [];
  midi_tracks = false ∷ true ∷ [];
  is_group_tracks = false ∷ false ∷ [];
  group_parent_indices = none ∷ none ∷ [];
  track_mutes = false ∷ false ∷ [];
  playing_slots = negsuc 0 ∷ pos 2 ∷ [];
}
unfolding track_columns info_loop read_info_track track_index_for_parent color_hex
shifted = refl

abbrev unset : InfoSong
unset = record {
  tracks = [];
  scene_names = raised lost ∷ [];
  root_note = raised lost;
  scale_name = returned (codes "\"Major\"");
  tempo = returned (codes "120.0");
  is_playing = returned true;
}

no_root_note : session_info unset ≡ raised lost
unfolding session_info
no_root_note = refl

track_columns-rows_example :
    (length (track_columns (broken ∷ drums ∷ [])).playing_slots ≡ 2)
    × (length (track_columns (broken ∷ drums ∷ [])).track_names
        ≡ 2 + count_late (broken.ref ∷ drums.ref ∷ []) (broken ∷ drums ∷ []))
    × (All (λ t. fails_late (broken.ref ∷ drums.ref ∷ []) t ≡ false) (broken ∷ drums ∷ [])
        → track_columns (broken ∷ drums ∷ [])
          ≡ columns_of (rows_of (broken.ref ∷ drums.ref ∷ []) (broken ∷ drums ∷ [])))
track_columns-rows_example = track_columns-rows (broken ∷ drums ∷ [])
