-- ===== src/Arrangement/Cache/Fetch.antt =====
-- A snapshot as a client takes it: the manifest, then each chunk by its index.
use ohmic_bridge.Prelude.{
  ℕ, zero, suc, ◌+◌, ◌≡◌, refl, ap, sym, subst, ◌∙◌, inl, inr, Option-cases, Option, none, some,
  List, [], ◌∷◌, ◌++◌, arith, append_assoc, length, length-append, Text, Outcome, returned, raised,
  Outcome-cases,
}
use ohmic_bridge.Prelude.Int.{pos}
use ohmic_bridge.Constants.{max_reply_bytes}
use ohmic_bridge.Arrangement.Rows.Dict.{IsDict, merge_chunks}
use ohmic_bridge.Arrangement.Chunks.{SnapshotChunk}
use ohmic_bridge.Arrangement.Body.{Layout, Body}
use ohmic_bridge.Arrangement.Build
use ohmic_bridge.Arrangement.Build.{Built, Manifest, build_arrangement_snapshot_chunks, chunk_clips}
use ohmic_bridge.Arrangement.Build.Terminate.{build-total}
use ohmic_bridge.Arrangement.Build.Sound.{IsSound, build-IsSound, WithinBudget}
use ohmic_bridge.Arrangement.Cache.{
  Cache, ManifestReply, manifest, keep_snapshot, snapshot_manifest, chunk, chunk_error,
  no_such_chunk, snapshot_chunk,
}
use ohmic_bridge.Arrangement.Cache.Serve.{StandsAt, get_elem?-middle, chunk_at}
use ohmic_bridge.Arrangement.Cache.Delta.{Replica, keys}
use ohmic_bridge.Arrangement.Cache.Sync.{IsBody, InSync, Agrees}

-- Ask for `n` chunks from index `i` on; `none` if one of them is refused.
unfoldable pub fetch : Cache → Text → ℕ → ℕ → Option (List SnapshotChunk)
fetch c id i zero = some []
fetch c id i (suc n) = elim (snapshot_chunk c id (some (pos i))) [
  | chunk_error code message ↦ none
  | no_such_chunk ↦ none
  | chunk x ↦ elim (fetch c id (i + 1) n) [ none ↦ none | some xs ↦ some (x ∷ xs) ]
]

-- What a client holds once it has the manifest and the chunks.
abbrev pub assemble : Manifest → List SnapshotChunk → Replica
assemble m chunks = record {
  revision = m.revision;
  layout = m.layout;
  clips = merge_chunks [] (chunk_clips chunks);
  locators = m.locators;
}

module _ (c : Cache) (id : Text) (chunks : List SnapshotChunk)
    (kept : c.snapshot_chunks ≡ some (id, chunks)) where
  fetch_from :
      (done rest : List SnapshotChunk)
      → done ++ rest ≡ chunks
      → fetch c id (length done) (length rest) ≡ some rest
  unfolding fetch
  fetch_from done [] e = refl
  fetch_from done (x ∷ rest) e =
      let here : StandsAt chunks (length done) x =
        subst (λ l. StandsAt l (length done) x) e (get_elem?-middle done rest x) in
      let next : length (done ++ x ∷ []) ≡ length done + 1 = length-append done (x ∷ []) in
      let others : fetch c id (length done + 1) (length rest) ≡ some rest =
        subst (λ i. fetch c id i (length rest) ≡ some rest) next
          (fetch_from (done ++ x ∷ []) rest (append_assoc done (x ∷ []) rest ∙ e)) in
      ground (arith, chunk_at c id chunks kept (length done) x here, others)

kept_revision : (c : Cache) (made : Outcome Built) → (keep_snapshot c made).1.revision ≡ c.revision
unfolding keep_snapshot
kept_revision c (raised e) = refl
kept_revision c (returned (Build.error code message)) = refl
kept_revision c (returned (Build.built m chunks)) = refl

-- The chunks that the cache keeps are served, each at its index, under the identity of the manifest.
pub fetch-all :
    (c : Cache) (id : Text) (chunks : List SnapshotChunk)
    → c.snapshot_chunks ≡ some (id, chunks)
    → fetch c id 0 (length chunks) ≡ some chunks
fetch-all c id chunks kept = fetch_from c id chunks kept [] chunks refl

-- Counting: every call of `snapshot_manifest` ends, and takes the next revision, also when it fails.
pub manifest-total :
    (sha1_hex : Text → Text) (c : Cache) (body : Outcome Body)
    → ((b : Body) → body ≡ returned b → IsDict b.clips)
    → (reply : Outcome ManifestReply) × (c' : Cache) × (snapshot_manifest sha1_hex c body
        ≡ some (reply, c'))
      × (c'.revision ≡ c.revision + 1)
unfolding snapshot_manifest
manifest-total sha1_hex c body d =
    let (made, ends) = build-total sha1_hex body (c.revision + 1) max_reply_bytes d in
    let c' : Cache = record c { revision = c.revision + 1 } in
    (
      (keep_snapshot c' made).0,
      (keep_snapshot c' made).1,
      ground (arith, ends),
      kept_revision c' made,
    )

kept-InSync :
    (c : Cache) (body : Body) (m : Manifest) (chunks : List SnapshotChunk)
    → IsBody body
    → IsSound body (c.revision + 1) max_reply_bytes m chunks
    → let c' =
        (keep_snapshot
          (record c { revision = c.revision + 1 })
          (returned (Build.built m chunks))).1 in
      (chunks : List SnapshotChunk) × (fetch c' m.snapshot_id 0 m.chunk_count ≡ some chunks)
      × WithinBudget max_reply_bytes chunks
      × InSync c' (assemble m chunks)
      × Agrees body (assemble m chunks)
unfolding keep_snapshot
kept-InSync c body m chunks h sound =
    let c' =
      (keep_snapshot (record c { revision = c.revision + 1 })
        (returned (Build.built m chunks))).1 in
    let agrees : Agrees body (assemble m chunks) = record {
      layout = sym sound.laid_out;
      clips = sym sound.merged;
      locators = sym sound.located;
    } in
    (
      chunks,
      subst (λ n. fetch c' m.snapshot_id 0 n ≡ some chunks) (sym sound.counted)
          (fetch-all c' m.snapshot_id chunks refl),
      sound.bounded,
      record {
        snapshot = _;
        kept = refl;
        formed = record {
          distinct = subst IsDict (sym sound.merged) h.distinct;
          indexed =
              ap keys sound.merged
              ∙ h.indexed
              ∙ ap (λ (l : Layout). l.track_indices) (sym sound.laid_out);
        };
        agrees = record { layout = refl; clips = refl; locators = refl };
        revision = sym sound.stamped;
      },
      agrees,
    )

-- A client that takes the manifest of `snapshot_manifest`, and the chunks one by one by their index,
-- gets every chunk; each is encoded in at most `MAX_REPLY_BYTES` bytes; and what it then holds is in
-- step with the cache, and has the layout, the clips and the locators of the song.
pub manifest-InSync :
    (sha1_hex : Text → Text) (c : Cache) (body : Body) {m : Manifest} {c' : Cache}
    → IsBody body
    → snapshot_manifest sha1_hex c (returned body) ≡ some (returned (manifest m), c')
    → (chunks : List SnapshotChunk) × (fetch c' m.snapshot_id 0 m.chunk_count ≡ some chunks)
      × WithinBudget max_reply_bytes chunks
      × InSync c' (assemble m chunks)
      × Agrees body (assemble m chunks)
unfolding snapshot_manifest keep_snapshot
manifest-InSync sha1_hex c body {m} {c'} h e =
    elim (Option-cases (
      build_arrangement_snapshot_chunks sha1_hex (returned body) (c.revision + 1)
        max_reply_bytes)) [
          | inl out ↦ absurd (ground arith)
          | inr (made, ends) ↦ elim (Outcome-cases made) [
            | inl (x, failed) ↦ absurd (ground arith)
            | inr (Build.error code message, refused) ↦ absurd (ground arith)
            | inr (Build.built m' chunks, ok) ↦
                let same : m' ≡ m = ground arith in
                let moved : (keep_snapshot (record c { revision = c.revision + 1 })
                      (returned (Build.built m chunks))).1
                    ≡ c' =
                  ground arith in
                let sound =
                  build-IsSound sha1_hex body (c.revision + 1) max_reply_bytes {m = m}
                    {chunks = chunks} h.distinct
                    (ends ∙ ap some (ok ∙ ap (λ x. returned (Build.built x chunks)) same)) in
                subst
                  (λ x.
                    (chunks : List SnapshotChunk) × (fetch x m.snapshot_id 0 m.chunk_count
                      ≡ some chunks)
                    × WithinBudget max_reply_bytes chunks
                    × InSync x (assemble m chunks)
                    × Agrees body (assemble m chunks))
                  moved (kept-InSync c body m chunks h sound)
          ]
        ]
