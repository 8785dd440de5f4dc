-- ===== src/ClipFilter/Examples.antt =====
-- Two clips with notes in their names, one without, and a track that is new since the cache was built.
use ohmic_bridge.Prelude.{
  ◌≡◌, refl, true, false, Option, none, some, [], ◌∷◌, ◌++◌, map, codes, text_eq, Text, inl,
  returned, raised,
}
use ohmic_bridge.Prelude.Texts.{split}
use ohmic_bridge.ClipFilter.{
  NamedClip, Grid, FilterState, is_among, find_note, note_name_to_midi, note_chars, match_here,
  search_notes, without_digits, name_notes, slot_notes, build_clip_name_cache, has_note, all_notes,
  no_such_index, filter_slot, filter_slots, filter_tracks, cache_or_build, clips_filter,
  clips_unfilter, unmute,
}
use ohmic_bridge.ClipFilter.Muted.{
  IsFresh, filtered, asked, clips_filter-right, clips_filter-stale, clips_unfilter-right,
}

riff_notes : name_notes (codes "Riff_C3-F#2-Q") ≡ []
unfolding name_notes search_notes match_here note_chars
riff_notes = refl

bass_notes : name_notes (codes "my-bass_C3-F#2-H") ≡ []
unfolding name_notes search_notes match_here note_chars
bass_notes = refl

lead_notes : name_notes (codes "Lead-1_C3-F#2-Eb") ≡ some 0 ∷ some 6 ∷ some 3 ∷ []
unfolding name_notes search_notes match_here note_chars without_digits split note_name_to_midi
    find_note is_among text_eq
lead_notes = refl

abbrev clip : Text → Option NamedClip
clip name = some (record { name = name; muted = false })

abbrev song : Grid
song =
    (clip (codes "Lead_C-E") ∷ none ∷ []) ∷ (clip (codes "Drums") ∷ clip (codes "Bass-C") ∷ []) ∷ []

abbrev unbuilt : FilterState
unbuilt = record { cache = []; tracks = song }

lead_muted :
    (clips_filter (codes "C" ∷ []) unbuilt).1.tracks
    ≡ (some (record { name = codes "Lead_C-E"; muted = true }) ∷ none ∷ [])
      ∷ (clip (codes "Drums") ∷ clip (codes "Bass-C") ∷ [])
      ∷ []
unfolding clips_filter filter_tracks filter_slots filter_slot cache_or_build build_clip_name_cache
    slot_notes name_notes search_notes match_here note_chars without_digits split note_name_to_midi
    find_note is_among text_eq all_notes has_note
lead_muted = refl

clips_filter-right_example :
    clips_filter (codes "C" ∷ []) unbuilt ≡ (
      returned tt,
      record {
        cache = build_clip_name_cache song;
        tracks = map (map (filtered (asked (codes "C" ∷ [])))) song;
      },
    )
    × IsFresh (clips_filter (codes "C" ∷ []) unbuilt).1
clips_filter-right_example = clips_filter-right (codes "C" ∷ []) unbuilt (inl refl)

clips_filter-stale_example :
    clips_filter (codes "C" ∷ []) (record {
      cache = build_clip_name_cache ((none ∷ []) ∷ song);
      tracks = ((none ∷ []) ∷ song) ++ (none ∷ []) ∷ [];
    })
    ≡ (
      raised no_such_index,
      record {
        cache = build_clip_name_cache ((none ∷ []) ∷ song);
        tracks =
            map (map (filtered (asked (codes "C" ∷ [])))) ((none ∷ []) ∷ song) ++ (none ∷ []) ∷ [];
      },
    )
clips_filter-stale_example = clips_filter-stale (codes "C" ∷ []) (none ∷ []) song none [] []

clips_unfilter-right_example :
    ((clips_unfilter [] unbuilt).tracks ≡ map (map unmute) song)
    × IsFresh (clips_unfilter [] unbuilt)
clips_unfilter-right_example = clips_unfilter-right unbuilt (inl refl)
