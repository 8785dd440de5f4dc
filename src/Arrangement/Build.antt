-- ===== src/Arrangement/Build.antt =====
-- `build_arrangement_snapshot_chunks` of abletonosc/arrangement_view.py. `none` means that the loop
-- over `chunk_count_hint` has not ended within its fuel; `Build.Terminate` shows that it always has.
pub mod Terminate
pub mod Sound
use ohmic_bridge.Prelude.{
  ℕ, zero, suc, ◌+◌, ◌==◌, leb, ltb, Bool, true, false, if◌then◌else◌, Option, none, some, List, [],
  ◌∷◌, map, Text, codes, length, Outcome, returned, raised, Exn, ExnClass, identity_error,
  note_signature_error,
}
use ohmic_bridge.Arrangement.Rows.{Clips}
use ohmic_bridge.Arrangement.Chunks.{
  Budget, SnapshotChunk, encoded_json_size, snapshot_chunk, snapshot_chunk_clip_maps,
}
use ohmic_bridge.Arrangement.Chunks.Bound.{enough}
use ohmic_bridge.Arrangement.Body.{Layout, Locator, Body, snapshot_id}
use ohmic_bridge.Arrangement.Rows.{Float}

-- The body without its clips, and what `manifest.update` adds.
pub record Manifest : Type 0 where
  pub layout : Layout
  pub locators : List Locator
  pub current_song_time : Option Float
  pub revision : ℕ
  pub snapshot_id : Text
  pub chunk_count : ℕ

pub data Built : Type 0 where
  error : (code : Text) → (message : Text) → Built
  built : Manifest → List SnapshotChunk → Built

-- The loop over `chunk_count_hint`.
unfoldable pub hint_loop : ℕ → Budget → Clips → Option (Outcome (List Clips))
hint_loop zero b clips = none
hint_loop (suc fuel) b clips = elim (snapshot_chunk_clip_maps b clips) [
  | raised e ↦ some (raised e)
  | returned maps ↦
      let again = hint_loop fuel (record b { chunk_count_hint = length maps }) clips in
      if length maps == b.chunk_count_hint then some (returned maps) else again
]

-- `enumerate(clip_maps)`, each made into a chunk.
unfoldable pub number_chunks : Budget → ℕ → List Clips → List SnapshotChunk
number_chunks b i [] = []
number_chunks b i (m ∷ ms) = snapshot_chunk b i m ∷ number_chunks b (i + 1) ms

abbrev pub chunk_clips : List SnapshotChunk → List Clips
chunk_clips = map (λ c. c.clips)

-- Does a chunk exceed the budget after all?
unfoldable pub any_too_large : ℕ → List SnapshotChunk → Bool
any_too_large max [] = false
any_too_large max (c ∷ cs) = if ltb max (encoded_json_size c) then true else any_too_large max cs

abbrev pub final_error : Built
final_error =
    error (codes "chunk_too_large")
      (codes "Arrangement snapshot chunk exceeds the encoded byte budget.")

unfoldable pub finish : Budget → Body → List Clips → Built
finish b body maps =
    let chunks = number_chunks (record b { chunk_count_hint = length maps }) 0 maps in
    if any_too_large b.max_payload_bytes chunks
    then final_error
    else built
        (record {
          layout = body.layout;
          locators = body.locators;
          current_song_time = body.current_song_time;
          revision = b.revision;
          snapshot_id = b.snapshot_id;
          chunk_count = length maps;
        })
        chunks

-- `except ValueError`: the cut raises nothing else.
unfoldable pub close : Budget → Body → Outcome (List Clips) → Built
close b body (raised e) = error (codes "chunk_too_large") e.message
close b body (returned maps) = finish b body maps

abbrev pub budget : (Text → Text) → Body → ℕ → ℕ → Budget
budget sha1_hex body revision max = record {
  snapshot_id = snapshot_id sha1_hex body revision;
  revision = revision;
  chunk_count_hint = 0;
  max_payload_bytes = max;
}

-- The two handlers of `_snapshot_body`'s errors; any other exception goes on to the caller.
abbrev pub body_error : Exn → Outcome Built
body_error e = elim (e.class) [
  | identity_error ↦ returned (error (codes "identity_unavailable") e.message)
  | note_signature_error ↦ returned (error (codes "notes_unavailable") e.message)
  | _ ↦ raised e
]

unfoldable pub build_arrangement_snapshot_chunks :
    (Text → Text) → Outcome Body → ℕ → ℕ → Option (Outcome Built)
build_arrangement_snapshot_chunks sha1_hex (raised e) revision max = some (body_error e)
build_arrangement_snapshot_chunks sha1_hex (returned body) revision max =
    elim (hint_loop (enough body.clips + 1) (budget sha1_hex body revision max) body.clips) [
      | none ↦ none
      | some cut ↦ some (returned (close (budget sha1_hex body revision max) body cut))
    ]
