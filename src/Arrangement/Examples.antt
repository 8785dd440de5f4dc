-- ===== src/Arrangement/Examples.antt =====
-- The snapshot and the cache at work on a small song.
use ohmic_bridge.Prelude.{
  ℕ, ℕ_discrete, subst, ◌≡◌, refl, true, false, none, some, List, [], ◌∷◌, ◌++◌, arith, Text, codes,
  Outcome, returned,
}
use ohmic_bridge.Prelude.Int.{pos}
use ohmic_bridge.Decimal.{decimal}
use ohmic_bridge.Json.{json_object, json_str, json_int, json_array}
use ohmic_bridge.Constants.{max_reply_bytes}
use ohmic_bridge.Arrangement.Rows.{
  ClipRow, Clips, row_json, clips_json, dict_set, dict_get, dict_extend, has_key,
}
use ohmic_bridge.Arrangement.Rows.Dict.{IsDict, merge_chunk, merge_chunks}
use ohmic_bridge.Arrangement.Chunks.{
  SnapshotChunk, Budget, chunk_json, encoded_json_size, chunk_fits, split_step, split_loop,
  split_track_clip_pages, maps_step, maps_loop, snapshot_chunk_clip_maps,
}
use ohmic_bridge.Arrangement.Body.{Body, snapshot_id}
use ohmic_bridge.Arrangement.Build
use ohmic_bridge.Arrangement.Build.{
  Manifest, Built, hint_loop, number_chunks, any_too_large, finish, close,
  build_arrangement_snapshot_chunks,
}
use ohmic_bridge.Arrangement.Cache.{
  Cache, init, manifest, keep_snapshot, snapshot_manifest, changed, replace_track_clips, delta,
  compare_snapshot, answer_changes, changed_json, changes_between, clip_changes, locator_changes,
  rows-discrete, locators-discrete, Layout-discrete,
}
use ohmic_bridge.Arrangement.Cache.Sync.{IsBody, InSync, Agrees, receive, delta-InSync}
use ohmic_bridge.Arrangement.Cache.Fetch.{fetch, assemble, fetch-all, manifest-InSync}
use ohmic_bridge.Arrangement.Cache.Serve.{IsRight, snapshot_chunk-IsRight}
use ohmic_bridge.Arrangement.Cache.Clients.{Steps, done, then_step, other_delta, poll-Agrees}
use ohmic_bridge.Arrangement.Build.Sound.{IsSound, WithinBudget, build-IsSound}
use ohmic_bridge.Arrangement.Build.Terminate.{build-total}
use ohmic_bridge.Arrangement.Chunks.Cover.{merge-clip_maps}
use ohmic_bridge.Arrangement.Chunks.Fit.{AllFit, clip_maps-fit}
use ohmic_bridge.Arrangement.Chunks.Count.{Tighter}

abbrev clip : ℕ → ClipRow
clip i = record {
  index = i;
  clip_id = codes "id";
  name = codes "Bass";
  start = codes "0.0";
  length = codes "4.0";
  end = codes "4.0";
  looping = true;
  loop_start = some (codes "0.0");
  loop_end = none;
  start_marker = none;
  color = some (codes "#ff0000");
  color_index = some (pos 3);
  notes_signature = none;
}

abbrev clips : Clips
clips = (0, clip 0 ∷ clip 1 ∷ clip 2 ∷ []) ∷ (1, []) ∷ []

-- Two rows of a track do not fit into 600 bytes.
abbrev small : Budget
small = record {
  snapshot_id = codes "s";
  revision = 1;
  chunk_count_hint = 3;
  max_payload_bytes = 600;
}

abbrev pages : List Clips
pages = ((0, clip 0 ∷ clip 1 ∷ []) ∷ []) ∷ ((0, clip 2 ∷ []) ∷ []) ∷ ((1, []) ∷ []) ∷ []

abbrev song : List ClipRow → Body
song rows = record {
  layout = record {
    track_names = codes "Bass" ∷ [];
    track_indices = 0 ∷ [];
    midi_tracks = true ∷ [];
    track_colors = codes "#000000" ∷ [];
    is_group_tracks = false ∷ [];
    group_parent_indices = none ∷ [];
  };
  clips = (0, rows) ∷ [];
  locators = [];
  current_song_time = some (codes "0.0");
}

abbrev sha1_hex : Text → Text
sha1_hex s = codes "0123456789abcdef0123"

-- The song at three moments.
abbrev one : Body
one = song (clip 0 ∷ [])

abbrev two : Body
two = song (clip 0 ∷ clip 1 ∷ [])

abbrev three : Body
three = song []

song-IsBody : (rows : List ClipRow) → IsBody (song rows)
unfolding has_key
song-IsBody rows = record { distinct = (refl, tt); indexed = refl }

abbrev id : ℕ → Text
id n = codes "arrangement-" ++ decimal n ++ codes "-0123456789abcdef"

abbrev chunks : List SnapshotChunk
chunks =
    record {
      snapshot_id = codes "arrangement-1-0123456789abcdef";
      revision = 1;
      chunk_index = 0;
      chunk_count = 1;
      clips = (0, clip 0 ∷ []) ∷ [];
    }
    ∷ []

abbrev first_manifest : Manifest
first_manifest = record {
  layout = one.layout;
  locators = [];
  current_song_time = some (codes "0.0");
  revision = 1;
  snapshot_id = codes "arrangement-1-0123456789abcdef";
  chunk_count = 1;
}

abbrev c1 : Cache
c1 = record {
  revision = 1;
  snapshot = some one;
  snapshot_chunks = some (codes "arrangement-1-0123456789abcdef", chunks);
}

abbrev c2 : Cache
c2 = record c1 { revision = 2; snapshot = some two }

took_one :
    snapshot_manifest sha1_hex init (returned one) ≡ some (returned (manifest first_manifest), c1)
unfolding snapshot_manifest keep_snapshot merge_chunks merge_chunk dict_extend
    build_arrangement_snapshot_chunks hint_loop close finish number_chunks any_too_large snapshot_id
    snapshot_chunk_clip_maps maps_loop maps_step chunk_fits encoded_json_size chunk_json clips_json
    row_json json_object json_str json_int json_array decimal dict_set split_track_clip_pages
    split_loop split_step
took_one = refl

cut_small : snapshot_chunk_clip_maps small clips ≡ returned pages
unfolding snapshot_chunk_clip_maps maps_loop maps_step chunk_fits encoded_json_size chunk_json
    clips_json row_json json_object json_str json_int json_array decimal dict_set
    split_track_clip_pages split_loop split_step
cut_small = refl

clips-IsDict : IsDict clips
unfolding has_key
clips-IsDict = (refl, (refl, tt))

took_changes :
    delta c1 (returned two) (pos 1)
    ≡ (returned (changed (pos 1) 2 (replace_track_clips 0 (clip 0 ∷ clip 1 ∷ []) ∷ [])), c2)
unfolding delta compare_snapshot answer_changes changed_json changes_between clip_changes
    locator_changes dict_get row_json json_object json_array json_str json_int decimal rows-discrete
    locators-discrete Layout-discrete ℕ_discrete
took_changes = refl

nothing_new : delta c1 (returned one) (pos 1) ≡ (returned (changed (pos 1) 1 []), c1)
unfolding delta compare_snapshot answer_changes changed_json changes_between clip_changes
    locator_changes dict_get row_json json_object json_array json_str json_int decimal rows-discrete
    locators-discrete Layout-discrete ℕ_discrete
nothing_new = refl

fetched : fetch c1 (codes "arrangement-1-0123456789abcdef") 0 1 ≡ some chunks
fetched = fetch-all c1 _ chunks refl

small-Tighter : Tighter small (record small { max_payload_bytes = 500 })
small-Tighter = record { frames = unfold decimal in (omega arith); bytes = omega arith }

abbrev smaller : List Clips
smaller =
    ((0, clip 0 ∷ []) ∷ [])
    ∷ ((0, clip 1 ∷ []) ∷ [])
    ∷ ((0, clip 2 ∷ []) ∷ [])
    ∷ ((1, []) ∷ [])
    ∷ []

cut_smaller :
    snapshot_chunk_clip_maps (record small { max_payload_bytes = 500 }) clips ≡ returned smaller
unfolding snapshot_chunk_clip_maps maps_loop maps_step chunk_fits encoded_json_size chunk_json
    clips_json row_json json_object json_str json_int json_array decimal dict_set
    split_track_clip_pages split_loop split_step
cut_smaller = refl

in_step : InSync c1 (assemble first_manifest chunks)
unfolding merge_chunks merge_chunk dict_extend
in_step = record {
  snapshot = one;
  kept = refl;
  formed = song-IsBody (clip 0 ∷ []);
  agrees = record { layout = refl; clips = refl; locators = refl };
  revision = refl;
}

-- The client has asked and nothing is new.
steps : Steps sha1_hex c1 (assemble first_manifest chunks) c1 (assemble first_manifest chunks)
steps = then_step done (
    other_delta {reply = returned (changed (pos 1) 1 [])} (returned one) (pos 1)
      (λ b e. subst IsBody (ground arith) (song-IsBody (clip 0 ∷ []))) nothing_new)

poll-Agrees_example :
    Agrees two (
      receive 2
        (replace_track_clips 0 (clip 0 ∷ clip 1 ∷ []) ∷ [])
        (assemble first_manifest chunks))
poll-Agrees_example =
    poll-Agrees two in_step steps (song-IsBody (clip 0 ∷ clip 1 ∷ [])) took_changes

delta-InSync_example :
    InSync c2 (
      receive 2
        (replace_track_clips 0 (clip 0 ∷ clip 1 ∷ []) ∷ [])
        (assemble first_manifest chunks))
    × Agrees two (
        receive 2
          (replace_track_clips 0 (clip 0 ∷ clip 1 ∷ []) ∷ [])
          (assemble first_manifest chunks))
delta-InSync_example =
    delta-InSync c1 (assemble first_manifest chunks) (pos 1) two
      (song-IsBody (clip 0 ∷ clip 1 ∷ [])) in_step took_changes

manifest-InSync_example :
    (cs : List SnapshotChunk) × (fetch c1 (codes "arrangement-1-0123456789abcdef") 0 1 ≡ some cs)
    × WithinBudget max_reply_bytes cs
    × InSync c1 (assemble first_manifest cs)
    × Agrees one (assemble first_manifest cs)
manifest-InSync_example = manifest-InSync sha1_hex init one (song-IsBody (clip 0 ∷ [])) took_one

-- Another client gets the changes; this one stays behind.
overtaken : Steps sha1_hex c1 (assemble first_manifest chunks) c2 (assemble first_manifest chunks)
overtaken = then_step steps (
    other_delta (returned two) (pos 1)
      (λ b e. subst IsBody (ground arith) (song-IsBody (clip 0 ∷ clip 1 ∷ []))) took_changes)

one_read : (b : Body) → returned one ≡ returned b → IsDict b.clips
one_read b e =
    let same : one ≡ b = ground arith in
    subst (λ (x : Body). IsDict x.clips) same (song-IsBody (clip 0 ∷ [])).distinct

build-total_example :
    (r : Outcome Built) × (build_arrangement_snapshot_chunks sha1_hex
        (returned one)
        1
        max_reply_bytes
      ≡ some r)
build-total_example = build-total sha1_hex (returned one) 1 max_reply_bytes one_read

built_one :
    build_arrangement_snapshot_chunks sha1_hex (returned one) 1 max_reply_bytes
    ≡ some (returned (Build.built first_manifest chunks))
unfolding build_arrangement_snapshot_chunks hint_loop close finish number_chunks any_too_large
    snapshot_id snapshot_chunk_clip_maps maps_loop maps_step chunk_fits encoded_json_size chunk_json
    clips_json row_json json_object json_str json_int json_array decimal dict_set
    split_track_clip_pages split_loop split_step
built_one = refl

build-IsSound_example : IsSound one 1 max_reply_bytes first_manifest chunks
build-IsSound_example =
    build-IsSound sha1_hex one 1 max_reply_bytes (song-IsBody (clip 0 ∷ [])).distinct built_one

merge-clip_maps_example : merge_chunks [] pages ≡ clips
merge-clip_maps_example = merge-clip_maps small clips clips-IsDict cut_small

clip_maps-fit_example : AllFit small 0 pages
clip_maps-fit_example = clip_maps-fit small clips cut_small

snapshot_chunk-IsRight_example : IsRight c1 (codes "arrangement-1-0123456789abcdef") (some (pos 1))
snapshot_chunk-IsRight_example =
    snapshot_chunk-IsRight c1 (codes "arrangement-1-0123456789abcdef") (some (pos 1))
