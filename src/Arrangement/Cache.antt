-- ===== src/Arrangement/Cache.antt =====
-- `ArrangementDeltaCache` of abletonosc/arrangement_view.py. A method takes what `_snapshot_body`
-- returns or raises for the song of that moment, and gives its reply beside the new cache.
pub mod Delta
pub mod Sync
pub mod Serve
pub mod Fetch
pub mod Clients
use mathlib.Core.Logic.{ite}
use ohmic_bridge.Prelude.{
  ℕ, zero, suc, ◌+◌, ◌<◌, Bool, true, false, not, ◌||◌, ◌==◌, leb, ltb, if◌then◌else◌, Option, none,
  some, List, [], ◌∷◌, ◌++◌, map, Text, text_eq, codes, length, is_empty, Outcome, returned, raised,
  Exn, identity_error, note_signature_error, ℕ_discrete,
}
use ohmic_bridge.Prelude.Int.{ℤ, pos, negsuc}
use ohmic_bridge.Constants.{max_reply_bytes}
use ohmic_bridge.Decimal.{decimal}
use ohmic_bridge.Json.{default, json_str, json_int, json_array, json_object}
use ohmic_bridge.Arrangement.Rows.{ClipRow, Clips, dict_get, row_json}
use ohmic_bridge.Arrangement.Rows.Dict.{merge_chunks}
use ohmic_bridge.Arrangement.Chunks.{SnapshotChunk, schema_version}
use ohmic_bridge.Arrangement.Body.{Layout, Locator, Body, locator_json}
use ohmic_bridge.Arrangement.Build.{Built, Manifest, build_arrangement_snapshot_chunks, chunk_clips}
use ohmic_bridge.Arrangement.Build

-- `_snapshot_chunks` has no entry or one. Of `_snapshot` the keys that `delta` reads are kept.
pub record Cache : Type 0 where
  pub revision : ℕ
  pub snapshot : Option Body
  pub snapshot_chunks : Option (Text × List SnapshotChunk)

abbrev pub init : Cache
init = record { revision = 0; snapshot = none; snapshot_chunks = none }

pub data ManifestReply : Type 0 where
  manifest : Manifest → ManifestReply
  manifest_error : (code : Text) → (message : Text) → ManifestReply

-- What `snapshot_manifest` does with the answer of `build_arrangement_snapshot_chunks`.
unfoldable pub keep_snapshot : Cache → Outcome Built → Outcome ManifestReply × Cache
keep_snapshot c (raised e) = (raised e, c)
keep_snapshot c (returned (Build.error code message)) = (returned (manifest_error code message), c)
keep_snapshot c (returned (Build.built m chunks)) = (
  returned (manifest m),
  record c {
    snapshot = some (record {
      layout = m.layout;
      clips = merge_chunks [] (chunk_clips chunks);
      locators = m.locators;
      current_song_time = m.current_song_time;
    });
    snapshot_chunks = some (m.snapshot_id, chunks);
  },
)

-- `none` only if the loop of the build had run out of fuel.
unfoldable pub snapshot_manifest :
    (Text → Text) → Cache → Outcome Body → Option (Outcome ManifestReply × Cache)
snapshot_manifest sha1_hex c body =
    elim (build_arrangement_snapshot_chunks sha1_hex body (c.revision + 1) max_reply_bytes) [
      | none ↦ none
      | some made ↦ some (keep_snapshot (record c { revision = c.revision + 1 }) made)
    ]

-- `no_such_chunk` is the IndexError of `chunks[index]`.
pub data ChunkReply : Type 0 where
  chunk : SnapshotChunk → ChunkReply
  chunk_error : (code : Text) → (message : Text) → ChunkReply
  no_such_chunk : ChunkReply

-- `chunks[index]`, for an index that is not negative.
unfoldable pub chunk_at_index : List SnapshotChunk → ℕ → ChunkReply
chunk_at_index [] i = no_such_chunk
chunk_at_index (x ∷ xs) zero = chunk x
chunk_at_index (x ∷ xs) (suc i) = chunk_at_index xs i

abbrev pub out_of_range : ChunkReply
out_of_range =
    chunk_error (codes "invalid_chunk_index")
      (codes "Arrangement snapshot chunk index is out of range.")

-- The two guards on the integer that `int(chunk_index)` gives, if it does, and the lookup.
unfoldable pub pick_chunk : List SnapshotChunk → Option ℤ → ChunkReply
pick_chunk chunks none =
    chunk_error (codes "invalid_chunk_index") (codes "Arrangement snapshot chunk index is invalid.")
pick_chunk chunks (some (negsuc n)) = out_of_range
pick_chunk chunks (some (pos i)) =
    if leb (length chunks) i then out_of_range else chunk_at_index chunks i

abbrev pub unknown_snapshot : ChunkReply
unknown_snapshot =
    chunk_error (codes "unknown_snapshot") (codes "Arrangement snapshot is not available.")

unfoldable pub snapshot_chunk : Cache → Text → Option ℤ → ChunkReply
unfolding pick_chunk
snapshot_chunk c id index = elim (c.snapshot_chunks) [
  | none ↦ unknown_snapshot
  | some kept ↦ if text_eq kept.0 id then pick_chunk kept.1 index else unknown_snapshot
]

pub data Change : Type 0 where
  replace_track_clips : (track_index : ℕ) → (clips : List ClipRow) → Change
  replace_locators : List Locator → Change

pub data DeltaReply : Type 0 where
  changed : (base_revision : ℤ) → (revision : ℕ) → (changes : List Change) → DeltaReply
  resync_required : (code : Text) → (message : Text) → DeltaReply
  delta_error : (code : Text) → (message : Text) → DeltaReply

unfoldable pub rows-discrete : Discrete (List ClipRow)
rows-discrete = hlevel ℕ_discrete

unfoldable pub locators-discrete : Discrete (List Locator)
locators-discrete = hlevel ℕ_discrete

unfoldable pub Layout-discrete : Discrete Layout
Layout-discrete = hlevel ℕ_discrete

-- The loop over `current["clips"]`.
unfoldable pub clip_changes : Clips → Clips → List Change
clip_changes previous [] = []
clip_changes previous ((k, v) ∷ rest) =
    let others = clip_changes previous rest in
    ite (rows-discrete (dict_get previous k) v) others (replace_track_clips k v ∷ others)

unfoldable pub locator_changes : List Locator → List Locator → List Change
locator_changes previous current =
    ite (locators-discrete previous current) [] (replace_locators current ∷ [])

unfoldable pub changes_between : Body → Body → List Change
changes_between previous current =
    clip_changes previous.clips current.clips ++ locator_changes previous.locators current.locators

change_json : Change → Text
change_json (replace_track_clips k v) = json_object default (
    (codes "type", json_str (codes "replace_track_clips"))
    ∷ (codes "track_index", decimal k)
    ∷ (codes "clips", json_array default (map row_json v))
    ∷ [])
change_json (replace_locators ls) = json_object default (
    (codes "type", json_str (codes "replace_locators"))
    ∷ (codes "locators", json_array default (map locator_json ls))
    ∷ [])

unfoldable pub changed_json : ℤ → ℕ → List Change → Text
unfolding change_json
changed_json base revision changes = json_object default (
    (codes "status", json_str (codes "ok"))
    ∷ (codes "schema_version", decimal schema_version)
    ∷ (codes "base_revision", json_int base)
    ∷ (codes "revision", decimal revision)
    ∷ (codes "changes", json_array default (map change_json changes))
    ∷ [])

abbrev pub unknown_revision : DeltaReply
unknown_revision =
    resync_required (codes "unknown_revision")
      (codes "Arrangement cache revision is not available.")

abbrev pub metadata_changed : DeltaReply
metadata_changed =
    resync_required (codes "metadata_changed")
      (codes "Arrangement track layout changed; a full resync is required.")

abbrev pub delta_too_large : DeltaReply
delta_too_large =
    resync_required (codes "delta_too_large")
      (codes "Arrangement delta exceeds the reply byte budget; a full resync is required.")

-- The reply for the changes that were found, and the cache that goes with it.
unfoldable pub answer_changes : Cache → ℤ → Body → List Change → DeltaReply × Cache
answer_changes c since current [] = (changed since c.revision [], c)
answer_changes c since current (x ∷ xs) =
    if ltb max_reply_bytes (length (changed_json since (c.revision + 1) (x ∷ xs)))
    then (delta_too_large, c)
    else (
      changed since (c.revision + 1) (x ∷ xs),
      record c { revision = c.revision + 1; snapshot = some current },
    )

-- `delta` behind its first test, against the snapshot that is kept.
unfoldable pub compare_snapshot : Cache → ℤ → Body → Outcome Body → Outcome DeltaReply × Cache
compare_snapshot c since previous (raised e) = (
  elim (e.class) [
    | identity_error ↦ returned (delta_error (codes "identity_unavailable") e.message)
    | note_signature_error ↦ returned (delta_error (codes "notes_unavailable") e.message)
    | _ ↦ raised e
  ],
  c,
)
compare_snapshot c since previous (returned current) =
    ite (Layout-discrete previous.layout current.layout)
      (let (reply, c') = answer_changes c since current (changes_between previous current) in
        (returned reply, c'))
      (returned metadata_changed, c)

-- `int(since_revision) == self._revision`
abbrev pub is_revision : ℤ → ℕ → Bool
is_revision (pos n) r = n == r
is_revision (negsuc n) r = false

unfoldable pub delta : Cache → Outcome Body → ℤ → Outcome DeltaReply × Cache
delta c body since = elim (c.snapshot) [
  | none ↦ (returned unknown_revision, c)
  | some previous ↦
      if is_revision since c.revision
      then compare_snapshot c since previous body
      else (returned unknown_revision, c)
]
