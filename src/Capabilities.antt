-- ===== src/Capabilities.antt =====
-- abletonosc/capabilities.py: which parts of Live's API are there.
pub mod Probe
mod Examples
use ohmic_bridge.Prelude.{
  ℕ, Bool, true, false, ◌&&◌, if◌then◌else◌, Option, none, some, List, [], ◌∷◌, Text, String, codes,
  text_eq, Outcome, returned, raised, ◌>>=◌, Exn, ExnClass, attribute_error,
}
use ohmic_bridge.Arrangement.Reading.{Value, LiveClip, get_or}
use ohmic_bridge.Arrangement.Reading.Song.{LiveTrack, LiveSong, clips_or_none}

-- `hasattr(Live.<owner>, <attribute>)`
pub record Check : Type 0 where
  pub owner : Text
  pub attribute : Text

abbrev pub check : String → String → Check
check owner attribute = record { owner = codes owner; attribute = codes attribute }

-- `CAPABILITY_GROUPS`
unfoldable pub capability_groups : List (Text × List Check)
capability_groups =
    (
      codes "clip_notes_rw",
      check "Clip.Clip" "get_notes_extended"
          ∷ check "Clip.Clip" "add_new_notes"
          ∷ check "Clip.Clip" "remove_notes_extended"
          ∷ check "Clip" "MidiNoteSpecification"
          ∷ [],
    )
    ∷ (
      codes "clip_automation_envelopes",
      check "Clip.Clip" "automation_envelope" ∷ check "Clip.Clip" "clear_envelope" ∷ [],
    )
    ∷ (
      codes "arrangement_clips",
      check "Track.Track" "arrangement_clips"
          ∷ check "Track.Track" "create_midi_clip"
          ∷ check "Track.Track" "delete_clip"
          ∷ [],
    )
    ∷ (codes "arrangement_deltas", check "Track.Track" "arrangement_clips" ∷ [])
    ∷ (codes "arrangement_snapshot_chunks", check "Track.Track" "arrangement_clips" ∷ [])
    ∷ (codes "clip_slot_duplicate", check "ClipSlot.ClipSlot" "duplicate_clip_to" ∷ [])
    ∷ (
      codes "song_scale_properties",
      check "Song.Song" "root_note" ∷ check "Song.Song" "scale_name" ∷ [],
    )
    ∷ (codes "scene_tempo", check "Scene.Scene" "tempo" ∷ check "Scene.Scene" "tempo_enabled" ∷ [])
    ∷ (
      codes "scene_time_signature",
      check "Scene.Scene" "time_signature_numerator"
          ∷ check "Scene.Scene" "time_signature_denominator"
          ∷ [],
    )
    ∷ (
      codes "device_parameter_value_strings",
      check "DeviceParameter.DeviceParameter" "str_for_value" ∷ [],
    )
    ∷ (codes "song_cue_points", check "Song.Song" "cue_points" ∷ [])
    ∷ (codes "song_beat_listener", check "Song.Song" "add_current_song_time_listener" ∷ [])
    ∷ (codes "song_device_move", check "Song.Song" "move_device" ∷ [])
    ∷ (codes "browser", check "Application.get_application()" "browser" ∷ [])
    ∷ []

-- `all(check() for check in checks)`, of what each `hasattr` gives or raises.
unfoldable pub all_checks : (Check → Outcome Bool) → List Check → Outcome Bool
all_checks live [] = returned true
all_checks live (c ∷ rest) =
    live c >>= λ there. if there then all_checks live rest else returned false

-- A bucket that raises is false, once `logger.exception` has returned.
abbrev pub or_false : Outcome (Unit {0}) → Outcome Bool → Outcome Bool
or_false logging (returned b) = returned b
or_false logging (raised e) = logging >>= λ u. returned false

unfoldable pub probe_groups :
    (Check → Outcome Bool)
    → Outcome (Unit {0})
    → List (Text × List Check)
    → Outcome (List (Text × Bool))
probe_groups live logging [] = returned []
probe_groups live logging ((bucket, checks) ∷ rest) =
    or_false logging (all_checks live checks) >>= λ there.
    probe_groups live logging rest >>= λ others. returned ((bucket, there) ∷ others)

-- `_probe_result`
abbrev pub ProbeResult : Type 0
ProbeResult = Option (List (Text × Bool))

abbrev pub keep_result : Outcome (List (Text × Bool)) → Outcome (List (Text × Bool)) × ProbeResult
keep_result (raised e) = (raised e, none)
keep_result (returned buckets) = (returned buckets, some buckets)

unfoldable pub probe_capabilities :
    (Check → Outcome Bool)
    → Outcome (Unit {0})
    → ProbeResult
    → Outcome (List (Text × Bool)) × ProbeResult
probe_capabilities live logging (some buckets) = (returned buckets, some buckets)
probe_capabilities live logging none = keep_result (probe_groups live logging capability_groups)

-- `buckets.get(name, False)`
unfoldable pub bucket_of : List (Text × Bool) → Text → Bool
bucket_of [] name = false
bucket_of ((bucket, there) ∷ rest) name = if text_eq bucket name then there else bucket_of rest name

-- `getattr` with a default hides an `AttributeError`.
abbrev pub is_missing : ExnClass → Bool
is_missing attribute_error = true
is_missing _ = false

-- The identity of one clip: none, or what `int` makes of it.
unfoldable pub has_identity : Outcome Value → Outcome Bool
has_identity (returned v) = if v.is_none then returned false else (v.as_int >>= λ n. returned true)
has_identity (raised e) = if is_missing e.class then returned false else raised e

unfoldable pub clips_identified : List LiveClip → Outcome Bool
clips_identified [] = returned true
clips_identified (clip ∷ rest) =
    has_identity clip.live_ptr >>= λ there. if there then clips_identified rest else returned false

unfoldable pub tracks_identified : List LiveTrack → Outcome Bool
tracks_identified [] = returned true
tracks_identified (track ∷ rest) =
    clips_identified (clips_or_none track.arrangement_clips) >>= λ there.
    if there then tracks_identified rest else returned false

-- `probe_arrangement_deltas`, behind the bucket.
unfoldable pub identified_if : LiveSong → Bool → Outcome Bool
identified_if song false = returned false
identified_if song true = get_or [] song.tracks >>= λ tracks. tracks_identified tracks

unfoldable pub probe_arrangement_deltas :
    (Check → Outcome Bool) → Outcome (Unit {0}) → ProbeResult → LiveSong → Outcome Bool
probe_arrangement_deltas live logging cached song = or_false logging (
    (probe_capabilities live logging cached).0 >>= λ buckets.
    identified_if song (bucket_of buckets (codes "arrangement_deltas")))
