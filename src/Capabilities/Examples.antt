-- ===== src/Capabilities/Examples.antt =====
-- A probe of a Live in which everything is there, and of a song with one clip.
use ohmic_bridge.Prelude.{
  ◌≡◌, refl, Bool, true, false, none, some, List, [], ◌∷◌, Text, codes, text_eq, Outcome, returned,
  raised, attribute_error,
}
use ohmic_bridge.Prelude.Int.{pos}
use ohmic_bridge.Arrangement.Reading.{Value, Attr, LiveClip}
use ohmic_bridge.Arrangement.Reading.Song.{LiveTrack, LiveSong}
use ohmic_bridge.Capabilities.{
  Check, capability_groups, all_checks, probe_groups, probe_capabilities, bucket_of, has_identity,
  clips_identified, tracks_identified, identified_if, probe_arrangement_deltas,
}
use ohmic_bridge.Capabilities.Probe.{Truthful, probe_capabilities-Truthful}

abbrev missing : Attr
missing = raised (record { class = attribute_error; message = [] })

abbrev pointer : Value
pointer = record {
  is_none = false;
  as_int = returned (pos 140);
  as_float = returned (codes "140.0");
  as_str = returned (codes "140");
  as_bool = returned true;
}

abbrev clip : LiveClip
clip = record {
  start_time = missing;
  length = missing;
  end_time = missing;
  live_ptr = returned pointer;
  name = missing;
  looping = missing;
  loop_start = missing;
  loop_end = missing;
  start_marker = missing;
  color = missing;
  color_index = missing;
  notes = returned (returned (codes "0:0"));
}

abbrev track : LiveTrack
track = record {
  ref = record { identity = 1; live_ptr = returned none };
  name = missing;
  has_midi_input = missing;
  color = missing;
  is_foldable = missing;
  group_track = returned none;
  arrangement_clips = returned (clip ∷ []);
}

abbrev song : LiveSong
song = record {
  tracks = returned (track ∷ []);
  cue_points = returned [];
  current_song_time = missing;
}

answers_true : probe_arrangement_deltas (λ c. returned true) (returned tt) none song ≡ returned true
unfolding probe_arrangement_deltas identified_if tracks_identified clips_identified has_identity
    bucket_of probe_capabilities probe_groups all_checks capability_groups text_eq
answers_true = refl

probe_capabilities-Truthful_example :
    (buckets : List (Text × Bool)) × (probe_capabilities (λ c. returned true) (returned tt) none
      ≡ (returned buckets, some buckets))
    × Truthful (λ c. returned true) capability_groups buckets
    × ((later : Check → Outcome Bool) (logging : Outcome (Unit {0}))
        → probe_capabilities later logging (some buckets) ≡ (returned buckets, some buckets))
probe_capabilities-Truthful_example = probe_capabilities-Truthful (λ c. returned true)
