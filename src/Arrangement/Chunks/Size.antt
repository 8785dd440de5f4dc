-- ===== src/Arrangement/Chunks/Size.antt =====
-- The encoded size of a snapshot chunk is a sum: a frame, the digits of its numbers, and a weight
-- for each entry of its clips. `chunk_fits` is a comparison of that sum.
use ohmic_bridge.Prelude.{ℕ, ◌+◌, ◌≡◌, refl, List, [], ◌∷◌, ◌++◌, map, arith, leb, length, ap}
use ohmic_bridge.Decimal.{decimal}
use ohmic_bridge.Json.{default, json_str}
use ohmic_bridge.Json.Size.{
  member_size, members_size, length-json_object, items_size, length-json_array,
}
use ohmic_bridge.Arrangement.Rows.{ClipRow, Clips, clips_json, entry_json, row_json}
use ohmic_bridge.Arrangement.Chunks.{
  SnapshotChunk, chunk_members, chunk_json, encoded_json_size, Budget, snapshot_chunk, chunk_fits,
  schema_version,
}

abbrev pub entry_weight : ℕ × List ClipRow → ℕ
entry_weight e = member_size default (entry_json e)

-- What the entries add to the text of a dictionary.
abbrev pub weight : Clips → ℕ
weight [] = 0
weight (e ∷ m) = entry_weight e + weight m

pub weight-append : (m n : Clips) → weight (m ++ n) ≡ weight m + weight n
weight-append [] n = omega arith
weight-append (e ∷ m) n = omega (arith, weight-append m n)

members_size-weight : (m : Clips) → members_size default (map entry_json m) ≡ weight m
members_size-weight [] = refl
members_size-weight (e ∷ m) = omega (arith, members_size-weight m)

pub length-clips_json :
    (e : ℕ × List ClipRow) (m : Clips) → length (clips_json (e ∷ m)) ≡ weight (e ∷ m)
unfolding clips_json
length-clips_json e m =
    omega (arith, length-json_object default (map entry_json (e ∷ m)), members_size-weight m)

length-decimal_version : length (decimal schema_version) ≡ 1
unfolding decimal
length-decimal_version = refl

size-chunk_json :
    (c : SnapshotChunk)
    → length (chunk_json c)
      ≡ 113
        + length (json_str c.snapshot_id)
        + length (decimal c.revision)
        + length (decimal c.chunk_index)
        + length (decimal c.chunk_count)
        + length (clips_json c.clips)
unfolding chunk_json json_str
size-chunk_json c =
    omega (arith, length-json_object default (chunk_members c), length-decimal_version)

-- The part of the size that the chunk's index and clips do not change.
abbrev pub frame : Budget → ℕ
frame b =
    113
    + length (json_str b.snapshot_id)
    + length (decimal b.revision)
    + length (decimal b.chunk_count_hint)

-- The size of a chunk that has an entry.
abbrev pub used : Budget → ℕ → Clips → ℕ
used b i m = frame b + length (decimal i) + weight m

pub chunk_fits-used :
    (b : Budget) (i : ℕ) (e : ℕ × List ClipRow) (m : Clips)
    → chunk_fits b i (e ∷ m) ≡ leb (used b i (e ∷ m)) b.max_payload_bytes
unfolding chunk_fits encoded_json_size
chunk_fits-used b i e m =
    let same : length (chunk_json (snapshot_chunk b i (e ∷ m)))
        ≡ frame b + length (decimal i) + weight (e ∷ m) =
      omega (arith, size-chunk_json (snapshot_chunk b i (e ∷ m)), length-clips_json e m) in
    ap (λ n. leb n b.max_payload_bytes) same

-- The rows of a page, a separator counted for each.
abbrev pub rows_size : List ClipRow → ℕ
rows_size [] = 0
rows_size (r ∷ rs) = 2 + length (row_json r) + rows_size rs

pub rows_size-append : (rs ss : List ClipRow) → rows_size (rs ++ ss) ≡ rows_size rs + rows_size ss
rows_size-append [] ss = omega arith
rows_size-append (r ∷ rs) ss = omega (arith, rows_size-append rs ss)

items_size-rows : (rs : List ClipRow) → items_size default (map row_json rs) ≡ rows_size rs
items_size-rows [] = refl
items_size-rows (r ∷ rs) = omega (arith, items_size-rows rs)

-- The weight of a track's entry before its rows.
abbrev pub key_weight : ℕ → ℕ
key_weight k = 4 + length (json_str (decimal k))

pub entry_weight-rows :
    (k : ℕ) (r : ClipRow) (rs : List ClipRow)
    → entry_weight (k, r ∷ rs) ≡ key_weight k + rows_size (r ∷ rs)
entry_weight-rows k r rs =
    omega (arith, length-json_array default (row_json r) (map row_json rs), items_size-rows rs)
