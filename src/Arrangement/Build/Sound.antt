-- ===== src/Arrangement/Build/Sound.antt =====
-- What a successful `build_arrangement_snapshot_chunks` answers with.
use ohmic_bridge.Prelude.{
  ℕ, zero, suc, ◌+◌, ◌≤◌, ◌≡◌, refl, ap, subst, ◌∙◌, inl, inr, ◌==◌, false, Bool-cases, List, [],
  ◌∷◌, arith, length, some, All, returned, Outcome-cases, Option-cases, Text,
}
use ohmic_bridge.Arrangement.Rows.{Clips}
use ohmic_bridge.Arrangement.Rows.Dict.{IsDict, merge_chunks}
use ohmic_bridge.Arrangement.Chunks.{
  Budget, SnapshotChunk, encoded_json_size, snapshot_chunk_clip_maps,
}
use ohmic_bridge.Arrangement.Chunks.Cover.{merge-clip_maps}
use ohmic_bridge.Arrangement.Chunks.Bound.{enough}
use ohmic_bridge.Arrangement.Body.{Body}
use ohmic_bridge.Arrangement.Build.{
  built, Manifest, hint_loop, budget, close, finish, number_chunks, any_too_large, chunk_clips,
  build_arrangement_snapshot_chunks,
}

-- The chunks from index `i` on carry their place, the count, the revision and the identity.
abbrev pub Numbered : Manifest → ℕ → List SnapshotChunk → Type 0
Numbered m i [] = Unit
Numbered m i (c ∷ cs) =
    ((c.chunk_index ≡ i)
      × (c.chunk_count ≡ m.chunk_count)
      × (c.revision ≡ m.revision)
      × (c.snapshot_id ≡ m.snapshot_id))
    × Numbered m (i + 1) cs

abbrev pub WithinBudget : ℕ → List SnapshotChunk → Type 0
WithinBudget max = All (λ c. encoded_json_size c ≤ max)

WithinBudget-any :
    (max : ℕ) (cs : List SnapshotChunk) → any_too_large max cs ≡ false → WithinBudget max cs
unfolding any_too_large
WithinBudget-any max [] h = tt
WithinBudget-any max (c ∷ cs) h = (ground arith, WithinBudget-any max cs (ground arith))

clips-number_chunks :
    (b : Budget) (i : ℕ) (ms : List Clips) → chunk_clips (number_chunks b i ms) ≡ ms
unfolding number_chunks
clips-number_chunks b i [] = refl
clips-number_chunks b i (m ∷ ms) = ap (λ l. m ∷ l) (clips-number_chunks b (i + 1) ms)

length-number_chunks :
    (b : Budget) (i : ℕ) (ms : List Clips) → length (number_chunks b i ms) ≡ length ms
unfolding number_chunks
length-number_chunks b i [] = refl
length-number_chunks b i (m ∷ ms) = ap suc (length-number_chunks b (i + 1) ms)

Numbered-number_chunks :
    (b : Budget) (m : Manifest) (i : ℕ) (ms : List Clips)
    → m.chunk_count ≡ b.chunk_count_hint
    → m.revision ≡ b.revision
    → m.snapshot_id ≡ b.snapshot_id
    → Numbered m i (number_chunks b i ms)
unfolding number_chunks
Numbered-number_chunks b m i [] p q r = tt
Numbered-number_chunks b m i (x ∷ ms) p q r =
    ((refl, ground arith, ground arith, ground arith), Numbered-number_chunks b m (i + 1) ms p q r)

-- The loop answers with a cut that it has made, under the hint that is the count of its chunks.
pub hint_loop-fixed :
    (fuel : ℕ) (b : Budget) (clips : Clips) {maps : List Clips}
    → hint_loop fuel b clips ≡ some (returned maps)
    → snapshot_chunk_clip_maps (record b { chunk_count_hint = length maps }) clips ≡ returned maps
unfolding hint_loop
hint_loop-fixed zero b clips e = cc
hint_loop-fixed (suc fuel) b clips {maps} e =
    elim (Outcome-cases (snapshot_chunk_clip_maps b clips)) [
      | inl (x, failed) ↦ ground arith
      | inr (found, cut) ↦ elim (Bool-cases (length found == b.chunk_count_hint)) [
        | inl same ↦
            let hint : b.chunk_count_hint ≡ length maps = ground arith in
            let found_maps : found ≡ maps = ground arith in
            subst
              (λ n.
                snapshot_chunk_clip_maps (record b { chunk_count_hint = n }) clips ≡ returned maps)
              hint (cut ∙ ap returned found_maps)
        | inr other ↦
            hint_loop-fixed fuel (record b { chunk_count_hint = length found }) clips (ground arith)
      ]
    ]

-- What a built snapshot promises.
pub record IsSound (body : Body) (revision max : ℕ) (m : Manifest) (chunks : List SnapshotChunk)
    : Type 0 where
  pub merged : merge_chunks [] (chunk_clips chunks) ≡ body.clips
  pub bounded : WithinBudget max chunks
  pub counted : m.chunk_count ≡ length chunks
  pub numbered : Numbered m 0 chunks
  pub stamped : m.revision ≡ revision
  pub laid_out : m.layout ≡ body.layout
  pub located : m.locators ≡ body.locators

finish-IsSound :
    (b : Budget) (body : Body) (maps : List Clips) {m : Manifest} {chunks : List SnapshotChunk}
    → merge_chunks [] maps ≡ body.clips
    → finish b body maps ≡ built m chunks
    → IsSound body b.revision b.max_payload_bytes m chunks
unfolding finish
finish-IsSound b body maps {m} {chunks} covered e =
    let c : Budget = record b { chunk_count_hint = length maps } in
    let fits : any_too_large b.max_payload_bytes (number_chunks c 0 maps) ≡ false = ground arith in
    let same : number_chunks c 0 maps ≡ chunks = ground arith in
    record {
      merged =
          subst (λ l. merge_chunks [] (chunk_clips l) ≡ body.clips) same
            (ap (merge_chunks []) (clips-number_chunks c 0 maps) ∙ covered);
      bounded = subst (WithinBudget b.max_payload_bytes) same (WithinBudget-any _ _ fits);
      counted = ground (arith, length-number_chunks c 0 maps, ap length same);
      numbered =
          subst (Numbered m 0) same
            (Numbered-number_chunks c m 0 maps (ground arith) (ground arith) (ground arith));
      stamped = ground arith;
      laid_out = ground arith;
      located = ground arith;
    }

-- A snapshot that `build_arrangement_snapshot_chunks` returns: its chunks, merged in order, are the
-- clips of the body; each is encoded in at most `max` bytes; they carry their places, their count,
-- the revision and the identity of the manifest; and the manifest has the body's layout and
-- locators.
pub build-IsSound :
    (sha1_hex : Text → Text) (body : Body) (revision max : ℕ) {m : Manifest}
    {chunks : List SnapshotChunk}
    → IsDict body.clips
    → build_arrangement_snapshot_chunks sha1_hex (returned body) revision max
      ≡ some (returned (built m chunks))
    → IsSound body revision max m chunks
unfolding build_arrangement_snapshot_chunks close
build-IsSound sha1_hex body revision max {m} {chunks} d e =
    let b = budget sha1_hex body revision max in
    elim (Option-cases (hint_loop (enough body.clips + 1) b body.clips)) [
      | inl out ↦ absurd (ground arith)
      | inr (cut, ends) ↦ elim (Outcome-cases cut) [
        | inl (x, failed) ↦ absurd (ground arith)
        | inr (maps, made) ↦
            finish-IsSound b body maps
              (merge-clip_maps (record b { chunk_count_hint = length maps }) body.clips d
                (hint_loop-fixed (enough body.clips + 1) b body.clips (ends ∙ ap some made)))
              (ground arith)
      ]
    ]
