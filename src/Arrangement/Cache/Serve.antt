-- ===== src/Arrangement/Cache/Serve.antt =====
-- Which chunk the cache of abletonosc/arrangement_view.py serves for an identity and an index.
use ohmic_bridge.Prelude.{
  ℕ, zero, suc, ◌<◌, ◌≡◌, ◌≢◌, ◌↔◌, refl, ap, sym, subst, ◌∙◌, inl, inr, Bool-cases, Option-cases,
  Option, none, some, List, [], ◌∷◌, ◌++◌, arith, length, leb, get_elem?, Text, text_eq,
  text_eq_iff,
}
use ohmic_bridge.Prelude.Int.{ℤ, pos, negsuc}
use ohmic_bridge.Arrangement.Chunks.{SnapshotChunk}
use ohmic_bridge.Arrangement.Cache.{
  Cache, ChunkReply, chunk, no_such_chunk, chunk_at_index, out_of_range, pick_chunk,
  unknown_snapshot, snapshot_chunk,
}

-- The chunk at an index, where there is one.
abbrev pub StandsAt : List SnapshotChunk → ℕ → SnapshotChunk → Type 0
StandsAt chunks i x = get_elem? chunks i ≡ some x

pub get_elem?-middle :
    (done rest : List SnapshotChunk) (x : SnapshotChunk)
    → StandsAt (done ++ x ∷ rest) (length done) x
get_elem?-middle [] rest x = refl
get_elem?-middle (y ∷ done) rest x = get_elem?-middle done rest x

StandsAt-lt :
    (chunks : List SnapshotChunk) (i : ℕ) (x : SnapshotChunk)
    → StandsAt chunks i x
    → i < length chunks
StandsAt-lt [] i x h = absurd (ground (arith, h))
StandsAt-lt (y ∷ chunks) zero x h = omega arith
StandsAt-lt (y ∷ chunks) (suc i) x h = omega (arith, StandsAt-lt chunks i x h)

StandsAt-chunk_at_index :
    (chunks : List SnapshotChunk) (i : ℕ) (x : SnapshotChunk)
    → StandsAt chunks i x
    → chunk_at_index chunks i ≡ chunk x
unfolding chunk_at_index
StandsAt-chunk_at_index [] i x h = absurd (ground (arith, h))
StandsAt-chunk_at_index (y ∷ chunks) zero x h = ground (arith, h)
StandsAt-chunk_at_index (y ∷ chunks) (suc i) x h = StandsAt-chunk_at_index chunks i x h

-- Below the length there is a chunk.
chunk_at_index-below :
    (chunks : List SnapshotChunk) (i : ℕ)
    → i < length chunks
    → (x : SnapshotChunk) × (chunk_at_index chunks i ≡ chunk x) × StandsAt chunks i x
unfolding chunk_at_index
chunk_at_index-below [] i h = absurd (omega (arith, h))
chunk_at_index-below (y ∷ chunks) zero h = (y, refl, refl)
chunk_at_index-below (y ∷ chunks) (suc i) h = chunk_at_index-below chunks i (omega (arith, h))

pub chunk_at :
    (c : Cache) (id : Text) (chunks : List SnapshotChunk)
    → c.snapshot_chunks ≡ some (id, chunks)
    → (i : ℕ) (x : SnapshotChunk) → StandsAt chunks i x
    → snapshot_chunk c id (some (pos i)) ≡ chunk x
unfolding snapshot_chunk pick_chunk
chunk_at c id chunks kept i x h = ground (
  arith,
  (text_eq_iff id id).1 refl,
  StandsAt-lt chunks i x h,
  StandsAt-chunk_at_index chunks i x h,
)

-- The chunk stands at the index among the chunks that the cache keeps under the identity.
abbrev pub Served : Cache → Text → Option ℤ → SnapshotChunk → Type 0
Served c id index x =
    (chunks : List SnapshotChunk) × (i : ℕ) × (c.snapshot_chunks ≡ some (id, chunks))
    × (index ≡ some (pos i))
    × StandsAt chunks i x

-- The cache keeps chunks under the identity.
abbrev pub IsKept : Cache → Text → Type 0
IsKept c id = (chunks : List SnapshotChunk) × (c.snapshot_chunks ≡ some (id, chunks))

-- What is known of a reply once the chunks are known.
abbrev IsPicked : List SnapshotChunk → Option ℤ → ChunkReply → Type 0
IsPicked chunks index reply =
    (reply ≢ no_such_chunk)
    × (reply ≢ unknown_snapshot)
    × ((x : SnapshotChunk)
        → reply ≡ chunk x
        → (i : ℕ) × (index ≡ some (pos i)) × StandsAt chunks i x)

pick_chunk-IsPicked :
    (chunks : List SnapshotChunk) (index : Option ℤ)
    → IsPicked chunks index (pick_chunk chunks index)
unfolding pick_chunk
pick_chunk-IsPicked chunks none =
    (λ e. ground (arith, e), λ e. ground (arith, e), λ x e. absurd (ground (arith, e)))
pick_chunk-IsPicked chunks (some (negsuc n)) =
    (λ e. ground (arith, e), λ e. ground (arith, e), λ x e. absurd (ground (arith, e)))
pick_chunk-IsPicked chunks (some (pos i)) = elim (Bool-cases (leb (length chunks) i)) [
  | inl outside ↦
      subst (IsPicked chunks (some (pos i))) {x = out_of_range} (ground (arith, outside))
        (λ e. ground (arith, e), λ e. ground (arith, e), λ x e. absurd (ground (arith, e)))
  | inr inside ↦
      let (x, found, stands) = chunk_at_index-below chunks i (ground (arith, inside)) in
      subst (IsPicked chunks (some (pos i))) {x = chunk x} (ground (arith, inside, found)) (
        λ e. ground (arith, e),
        λ e. ground (arith, e),
        λ y e. (i, refl, subst (StandsAt chunks i) (ground (arith, e)) stands),
      )
]

-- Which reply is given, of which chunks.
abbrev pub IsRight : Cache → Text → Option ℤ → Type 0
IsRight c id index =
    (snapshot_chunk c id index ≢ no_such_chunk)
    × ((x : SnapshotChunk) → (snapshot_chunk c id index ≡ chunk x) ↔ Served c id index x)
    × ((snapshot_chunk c id index ≡ unknown_snapshot) ↔ ¬ IsKept c id)

kept_under :
    (c : Cache) (id : Text) (chunks : List SnapshotChunk) (index : Option ℤ)
    → c.snapshot_chunks ≡ some (id, chunks)
    → IsRight c id index
unfolding snapshot_chunk
kept_under c id chunks index kept =
    let reply : snapshot_chunk c id index ≡ pick_chunk chunks index =
      ground (arith, kept, (text_eq_iff id id).1 refl) in
    let (no_error, known, found) = pick_chunk-IsPicked chunks index in
    (
      λ e. no_error (sym reply ∙ e),
      λ x. (
        λ e. let (i, at, stands) = found x (sym reply ∙ e) in (chunks, i, kept, at, stands),
        λ (others, i, kept', at, stands).
            subst (λ n. snapshot_chunk c id n ≡ chunk x) (sym at)
              (chunk_at c id others kept' i x stands),
      ),
      (λ e. absurd (known (sym reply ∙ e)), λ h. absurd (h (chunks, kept))),
    )

not_kept :
    (c : Cache) (id : Text) (index : Option ℤ)
    → snapshot_chunk c id index ≡ unknown_snapshot
    → ¬ IsKept c id
    → IsRight c id index
not_kept c id index reply unkept = (
  λ e. ground (arith, reply, e),
  λ x. (
    λ e. absurd (ground (arith, reply, e)),
    λ (chunks, i, kept, at, stands). absurd (unkept (chunks, kept)),
  ),
  (λ e. unkept, λ h. reply),
)

-- Whatever the cache keeps and whatever is asked for, `chunks[index]` raises no IndexError; the reply
-- is a chunk exactly if chunks are kept under the identity and that chunk stands among them at the
-- index, counted from 0; and the reply is unknown_snapshot exactly if none are kept under it.
pub snapshot_chunk-IsRight : (c : Cache) (id : Text) (index : Option ℤ) → IsRight c id index
unfolding snapshot_chunk
snapshot_chunk-IsRight c id index = elim (Option-cases (c.snapshot_chunks)) [
  | inl nothing ↦
      not_kept c id index (ground (arith, nothing))
        (λ (chunks, kept). ground (arith, nothing, kept))
  | inr ((id', chunks), kept) ↦ elim (Bool-cases (text_eq id' id)) [
    | inl same ↦
        kept_under c id chunks index
          (kept ∙ ap (λ t. some (t, chunks)) ((text_eq_iff id' id).0 same))
    | inr other ↦ not_kept c id index (ground (arith, kept, other)) (λ (others, kept').
        let same : id' ≡ id = ground (arith, kept, kept') in
        ground (arith, other, (text_eq_iff id' id).1 same))
  ]
]
