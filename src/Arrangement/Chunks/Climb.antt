-- ===== src/Arrangement/Chunks/Climb.antt =====
-- The count of all chunks under a tighter budget, from the count of a track's pages.
use ohmic_bridge.Prelude.{
  ℕ, ◌+◌, ◌≤◌, ◌<◌, ◌≡◌, refl, ◌⊎◌, inl, inr, subst, sym, ap, ◌∙◌, true, false, List, [], ◌∷◌, ◌++◌,
  append_assoc, arith, leb, is_empty, Bool-cases, length, length-append, returned, result,
  Option-cases, >>=-eq-returned, if◌then◌else◌,
}
use ohmic_bridge.Decimal.{decimal, length-decimal_mono}
use ohmic_bridge.Arrangement.Rows.{ClipRow, Clips, has_key, dict_set}
use ohmic_bridge.Arrangement.Rows.Dict.{IsDict, dict_set-fresh, fresh_in_prefix, merge_chunks}
use ohmic_bridge.Arrangement.Chunks.{
  Budget, chunk_fits, split_track_clip_pages, Filling, flush, maps_step, maps_loop,
  snapshot_chunk_clip_maps,
}
use ohmic_bridge.Arrangement.Chunks.Size.{
  frame, weight, entry_weight, chunk_fits-used, weight-append,
}
use ohmic_bridge.Arrangement.Chunks.Cover.{Holds, maps_step-Holds, fresh_in_current}
use ohmic_bridge.Arrangement.Chunks.Count.{Tighter, split-behind, split-nonempty}

-- The size of a chunk of weight `w` at index `i`.
abbrev chunk_used : Budget → ℕ → ℕ → ℕ
chunk_used b i w = frame b + length (decimal i) + w

fits_last :
    (b : Budget) (i : ℕ) (m : Clips) (e : ℕ × List ClipRow)
    → chunk_fits b i (m ++ e ∷ [])
      ≡ leb (chunk_used b i (weight m + entry_weight e)) b.max_payload_bytes
fits_last b i [] e = chunk_fits-used b i e [] ∙ ap (λ n. leb n b.max_payload_bytes) (omega arith)
fits_last b i (x ∷ m) e =
    chunk_fits-used b i x (m ++ e ∷ [])
    ∙ ap (λ n. leb n b.max_payload_bytes) (omega (arith, weight-append m (e ∷ [])))

fits_alone :
    (b : Budget) (i : ℕ) (e : ℕ × List ClipRow)
    → chunk_fits b i (e ∷ []) ≡ leb (chunk_used b i (entry_weight e)) b.max_payload_bytes
fits_alone b i e = chunk_fits-used b i e [] ∙ ap (λ n. leb n b.max_payload_bytes) (omega arith)

-- The chunks that there are if the loop ends here.
abbrev count : Filling → ℕ
count s = length (flush s)

-- One round adds the entry to the open chunk, or begins a chunk with it, or cuts it into pages.
abbrev StepView : Budget → Filling → ℕ × List ClipRow → Filling → Type 0
StepView b s e t =
    ((chunk_used b (length s.0) (weight s.1 + entry_weight e) ≤ b.max_payload_bytes)
      × (length t.0 ≡ length s.0)
      × (is_empty t.1 ≡ false)
      × (weight t.1 ≡ weight s.1 + entry_weight e))
    ⊎ ((b.max_payload_bytes < chunk_used b (length s.0) (weight s.1 + entry_weight e))
        × (chunk_used b (count s) (entry_weight e) ≤ b.max_payload_bytes)
        × (length t.0 ≡ count s)
        × (is_empty t.1 ≡ false)
        × (weight t.1 ≡ entry_weight e))
    ⊎ ((pages : List Clips) × (b.max_payload_bytes
          < chunk_used b (length s.0) (weight s.1 + entry_weight e))
        × (b.max_payload_bytes < chunk_used b (count s) (entry_weight e))
        × (split_track_clip_pages b e.0 (count s) e.1 ≡ returned pages)
        × (length t.0 ≡ count s + length pages)
        × (is_empty t.1 ≡ true))

pub length-flush : (s : Filling) → count s ≡ length s.0 + (if is_empty s.1 then 0 else 1)
length-flush (chunks, []) = omega arith
length-flush (chunks, e ∷ m) = omega (arith, length-append chunks ((e ∷ m) ∷ []))

module _ (b : Budget) (chunks : List Clips) (current : Clips) (k : ℕ) (v : List ClipRow) where
  maps_step_view :
      {t : Filling}
      → has_key current k ≡ false
      → maps_step b (chunks, current) (k, v) ≡ returned t
      → StepView b (chunks, current) (k, v) t
  unfolding maps_step
  maps_step_view new e = elim (Bool-cases (chunk_fits b (length chunks) (dict_set current k v))) [
    | inl fits ↦ inl (
        ground
          (arith, candidate, dict_set-fresh current k v new, weight-append current ((k, v) ∷ [])))
    | inr big ↦ elim (Bool-cases (chunk_fits b (count (chunks, current)) ((k, v) ∷ []))) [
      | inl fits ↦ inr (inl (ground (arith, candidate, alone)))
      | inr too_big ↦
          elim (Option-cases (result (split_track_clip_pages b k (count (chunks, current)) v))) [
            | inl failed ↦ absurd (ground arith)
            | inr (pages, cut) ↦ inr (
                inr (
                  pages,
                  ground (arith, candidate),
                  ground (arith, alone),
                  ground arith,
                  ground (arith, length-append (flush (chunks, current)) pages),
                  ground arith,
                ))
          ]
    ]
  ]
    where
      candidate :
          chunk_fits b (length chunks) (dict_set current k v)
          ≡ leb
              (chunk_used b (length chunks) (weight current + entry_weight (k, v)))
              b.max_payload_bytes
      candidate =
          ap (chunk_fits b (length chunks)) (dict_set-fresh current k v new)
          ∙ fits_last b (length chunks) current (k, v)

      alone :
          chunk_fits b (count (chunks, current)) ((k, v) ∷ [])
          ≡ leb (chunk_used b (count (chunks, current)) (entry_weight (k, v))) b.max_payload_bytes
      alone = fits_alone b (count (chunks, current)) (k, v)

-- The chunks of `s` are behind those of `t`: there are fewer, or as many and the open chunk of `t`
-- is closed or is the larger of the two.
abbrev Behind : Filling → Filling → Type 0
Behind s t =
    (count s < count t)
    ⊎ ((count s ≡ count t)
        × ((is_empty t.1 ≡ true)
            ⊎ ((is_empty s.1 ≡ false) × (is_empty t.1 ≡ false) × (weight s.1 ≤ weight t.1))))

module _ (b c : Budget) (tighter : Tighter b c) where
  -- What one round makes of it, from the views of the two rounds.
  round-Behind :
      (s t s' t' : Filling) (e : ℕ × List ClipRow)
      → StepView b s e s'
      → StepView c t e t'
      → Behind s t
      → Behind s' t'
  round-Behind s t s' t' e (inl p) (inl q) h = ground (
    arith,
    tighter,
    length-flush s,
    length-flush t,
    length-flush s',
    length-flush t',
    length-decimal_mono (length s.0) (length t.0),
  )
  round-Behind s t s' t' e (inr (inl p)) (inl q) h = ground (
    arith,
    tighter,
    length-flush s,
    length-flush t,
    length-flush s',
    length-flush t',
    length-decimal_mono (length s.0) (length t.0),
    length-decimal_mono (count s) (length t.0),
  )
  round-Behind s t s' t' e (inr (inr (ms, p1, p2, _, _, p3))) (inl q) h = ground (
    arith,
    tighter,
    length-flush s,
    length-flush t,
    length-flush s',
    length-flush t',
    length-decimal_mono (length s.0) (length t.0),
    length-decimal_mono (count s) (length t.0),
  )
  round-Behind s t s' t' e (inl p) (inr (inl q)) h =
      ground (arith, length-flush s, length-flush t, length-flush s', length-flush t')
  round-Behind s t s' t' e (inr (inl p)) (inr (inl q)) h =
      ground (arith, length-flush s, length-flush t, length-flush s', length-flush t')
  round-Behind s t s' t' e (inr (inr (ms, p1, p2, _, _, p3))) (inr (inl q)) h = ground (
    arith,
    tighter,
    length-flush s,
    length-flush t,
    length-flush s',
    length-flush t',
    length-decimal_mono (count s) (count t),
  )
  round-Behind s t s' t' e (inl p) (inr (inr (ns, _, _, cut, grown, closed))) h = ground (
    arith,
    length-flush s,
    length-flush t,
    length-flush s',
    length-flush t',
    split-nonempty c e.0 (count t) e.1 cut,
  )
  round-Behind s t s' t' e (inr (inl p)) (inr (inr (ns, _, _, cut, grown, closed))) h = ground (
    arith,
    length-flush s,
    length-flush t,
    length-flush s',
    length-flush t',
    split-nonempty c e.0 (count t) e.1 cut,
  )
  round-Behind s t s' t' e (inr (inr (ms, _, _, cut', grown', closed')))
        (inr (inr (ns, _, _, cut, grown, closed))) h =
      ground (
        arith,
        length-flush s,
        length-flush t,
        length-flush s',
        length-flush t',
        split-behind b c tighter e.0 (count s) (count t) e.1 {ms = ms} {ns = ns},
      )

  maps_loop-Behind :
      (done rest : Clips) (s t : Filling) {s' t' : Filling}
      → IsDict (done ++ rest)
      → Holds done s
      → Holds done t
      → maps_loop b s rest ≡ returned s'
      → maps_loop c t rest ≡ returned t'
      → Behind s t
      → Behind s' t'
  unfolding maps_loop
  maps_loop-Behind done [] s t d hs ht p q h = ground arith
  maps_loop-Behind done ((k, v) ∷ rest) s t d hs ht p q h =
      let (s1, p1, p2) = >>=-eq-returned (maps_step b s (k, v)) _ p in
      let (t1, q1, q2) = >>=-eq-returned (maps_step c t (k, v)) _ q in
      let new = fresh_in_prefix done rest k v d in
      maps_loop-Behind (done ++ (k, v) ∷ []) rest s1 t1
        (subst IsDict (sym (append_assoc done ((k, v) ∷ []) rest)) d)
        (maps_step-Holds done s.0 s.1 k v new hs b p1)
        (maps_step-Holds done t.0 t.1 k v new ht c q1) p2 q2
        (round-Behind s t s1 t1 (k, v)
          (maps_step_view b s.0 s.1 k v (fresh_in_current done s.0 s.1 k v new hs) p1)
          (maps_step_view c t.0 t.1 k v (fresh_in_current done t.0 t.1 k v new ht) q1) h)

  -- If clips can be cut under both of two budgets, the tighter one gives no fewer chunks.
  pub clip_maps-climb :
      (clips : Clips) {ms ns : List Clips}
      → IsDict clips
      → snapshot_chunk_clip_maps b clips ≡ returned ms
      → snapshot_chunk_clip_maps c clips ≡ returned ns
      → length ms ≤ length ns
  unfolding snapshot_chunk_clip_maps
  clip_maps-climb clips d p q =
      let (s, p1, p2) = >>=-eq-returned (maps_loop b ([], []) clips) _ p in
      let (t, q1, q2) = >>=-eq-returned (maps_loop c ([], []) clips) _ q in
      let start : Holds [] ([], []) = unfold merge_chunks in refl in
      ground (
        arith,
        maps_loop-Behind [] clips ([], []) ([], []) d start start p1 q1 (inr (refl, inl refl)),
      )
