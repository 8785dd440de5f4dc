-- ===== src/Arrangement/Chunks.antt =====
-- The chunking of abletonosc/arrangement_view.py: `_snapshot_chunk`, `_chunk_fits`,
-- `_split_track_clip_pages` and `_snapshot_chunk_clip_maps`. A loop is a fold of one step over the
-- values that the loop changes.
pub mod Size
pub mod Cover
pub mod Fit
pub mod Count
pub mod Climb
pub mod Bound
use ohmic_bridge.Prelude.{
  ℕ, ◌+◌, Bool, true, false, ◌||◌, not, List, [], ◌∷◌, ◌++◌, leb, if◌then◌else◌, Text, codes,
  length, is_empty, Outcome, returned, raised, Exn, value_error, ◌>>=◌,
}
use ohmic_bridge.Decimal.{decimal}
use ohmic_bridge.Json.{default, json_str, json_object}
use ohmic_bridge.Arrangement.Rows.{ClipRow, Clips, dict_set, clips_json}

abbrev pub schema_version : ℕ
schema_version = 1

pub record SnapshotChunk : Type 0 where
  pub snapshot_id : Text
  pub revision : ℕ
  pub chunk_index : ℕ
  pub chunk_count : ℕ
  pub clips : Clips

abbrev pub chunk_members : SnapshotChunk → List (Text × Text)
chunk_members c =
    (codes "status", json_str (codes "ok"))
    ∷ (codes "schema_version", decimal schema_version)
    ∷ (codes "snapshot_id", json_str c.snapshot_id)
    ∷ (codes "revision", decimal c.revision)
    ∷ (codes "chunk_index", decimal c.chunk_index)
    ∷ (codes "chunk_count", decimal c.chunk_count)
    ∷ (codes "clips", clips_json c.clips)
    ∷ []

unfoldable pub chunk_json : SnapshotChunk → Text
chunk_json c = json_object default (chunk_members c)

-- `_encoded_json_size` of a chunk.
unfoldable pub encoded_json_size : SnapshotChunk → ℕ
encoded_json_size c = length (chunk_json c)

-- The keyword arguments that the functions below hand on unchanged.
pub record Budget : Type 0 where
  pub snapshot_id : Text
  pub revision : ℕ
  pub chunk_count_hint : ℕ
  pub max_payload_bytes : ℕ

abbrev pub snapshot_chunk : Budget → ℕ → Clips → SnapshotChunk
snapshot_chunk b i clips = record {
  snapshot_id = b.snapshot_id;
  revision = b.revision;
  chunk_index = i;
  chunk_count = b.chunk_count_hint;
  clips = clips;
}

unfoldable pub chunk_fits : Budget → ℕ → Clips → Bool
chunk_fits b i clips = leb (encoded_json_size (snapshot_chunk b i clips)) b.max_payload_bytes

abbrev pub clip_too_large : ℕ → Exn
clip_too_large k = record {
  class = value_error;
  message =
      codes "Arrangement clip for track "
      ++ decimal k
      ++ codes " exceeds the snapshot chunk byte budget.";
}

-- The pages that are closed, and the page that is being filled.
abbrev pub Pages : Type 0
Pages = List Clips × List ClipRow

-- One round of the loop of `_split_track_clip_pages`.
unfoldable pub split_step : Budget → ℕ → ℕ → Pages → ClipRow → Outcome Pages
split_step b k first (pages, page) clip =
    if chunk_fits b (first + length pages) ((k, page ++ clip ∷ []) ∷ [])
    then returned (pages, page ++ clip ∷ [])
    else if is_empty page
    then raised (clip_too_large k)
    else if chunk_fits b (first + length (pages ++ ((k, page) ∷ []) ∷ [])) ((k, clip ∷ []) ∷ [])
    then returned (pages ++ ((k, page) ∷ []) ∷ [], clip ∷ [])
    else raised (clip_too_large k)

unfoldable pub split_loop : Budget → ℕ → ℕ → Pages → List ClipRow → Outcome Pages
split_loop b k first s [] = returned s
split_loop b k first s (clip ∷ rest) =
    split_step b k first s clip >>= λ s'. split_loop b k first s' rest

-- `if current_page or not track_clips: pages.append(...)`
abbrev pub close_page : ℕ → List ClipRow → Pages → List Clips
close_page k track_clips (pages, page) =
    if not (is_empty page) || is_empty track_clips then pages ++ ((k, page) ∷ []) ∷ [] else pages

unfoldable pub split_track_clip_pages : Budget → ℕ → ℕ → List ClipRow → Outcome (List Clips)
split_track_clip_pages b k first track_clips =
    split_loop b k first ([], []) track_clips >>= λ s. returned (close_page k track_clips s)

-- The chunks that are closed, and the chunk that is being filled.
abbrev pub Filling : Type 0
Filling = List Clips × Clips

-- `if current: chunks.append(current)`
abbrev pub flush : Filling → List Clips
flush (chunks, current) = if is_empty current then chunks else chunks ++ current ∷ []

-- One round of the loop of `_snapshot_chunk_clip_maps`.
unfoldable pub maps_step : Budget → Filling → ℕ × List ClipRow → Outcome Filling
maps_step b (chunks, current) (k, track_clips) =
    if chunk_fits b (length chunks) (dict_set current k track_clips)
    then returned (chunks, dict_set current k track_clips)
    else if chunk_fits b (length (flush (chunks, current))) ((k, track_clips) ∷ [])
    then returned (flush (chunks, current), (k, track_clips) ∷ [])
    else split_track_clip_pages b k (length (flush (chunks, current))) track_clips >>= λ pages.
        returned (flush (chunks, current) ++ pages, [])

unfoldable pub maps_loop : Budget → Filling → Clips → Outcome Filling
maps_loop b s [] = returned s
maps_loop b s (e ∷ rest) = maps_step b s e >>= λ s'. maps_loop b s' rest

unfoldable pub snapshot_chunk_clip_maps : Budget → Clips → Outcome (List Clips)
snapshot_chunk_clip_maps b clips = maps_loop b ([], []) clips >>= λ s. returned (flush s)
