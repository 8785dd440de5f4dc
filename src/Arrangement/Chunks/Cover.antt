-- ===== src/Arrangement/Chunks/Cover.antt =====
-- Nothing is lost or reordered: merging the chunks as `snapshot_manifest` does gives the clips back.
use ohmic_bridge.Prelude.{
  ℕ, ◌≡◌, refl, ap, ◌∙◌, sym, subst, false, List, [], ◌∷◌, ◌++◌, append_assoc, append-nil, arith,
  is_empty, length, returned, result, Option-cases, >>=-eq-returned, inl, inr,
}
use ohmic_bridge.Arrangement.Rows.{ClipRow, Clips, has_key, dict_set, dict_extend}
use ohmic_bridge.Arrangement.Rows.Dict.{
  IsDict, fresh_in_prefix, dict_set-fresh, dict_extend-fresh, dict_extend-last, dict_extend-twice,
  merge_chunk, merge_chunks, merge_chunk-append, merge_chunks-last, merge_chunks-append,
  fresh_before_merge,
}
use ohmic_bridge.Arrangement.Chunks.{
  Budget, Pages, split_step, split_loop, split_track_clip_pages, Filling, flush, maps_step,
  maps_loop, snapshot_chunk_clip_maps,
}

-- After a clip the page is not empty.
pub split_loop-page :
    (b : Budget) (k first : ℕ) (rest : List ClipRow) (s : Pages) {s' : Pages}
    → split_loop b k first s rest ≡ returned s'
    → is_empty s.1 ≡ false
    → is_empty s'.1 ≡ false
unfolding split_loop split_step
split_loop-page b k first [] s e h = ground arith
split_loop-page b k first (clip ∷ rest) s e h =
    let (t, first_round, others) = >>=-eq-returned (split_step b k first s clip) _ e in
    split_loop-page b k first rest t others (ground arith)

module _ (d : Clips) (k : ℕ) (new : has_key d k ≡ false) where
  -- The pages hold the clips that the loop has seen, behind what `d` held.
  abbrev Split : List ClipRow → Pages → Type 0
  Split seen (pages, page) = dict_extend (merge_chunks d pages) k page ≡ d ++ (k, seen) ∷ []

  close-Split :
      (seen : List ClipRow) (pages : List Clips) (page : List ClipRow)
      → Split seen (pages, page)
      → merge_chunks d (pages ++ ((k, page) ∷ []) ∷ []) ≡ d ++ (k, seen) ∷ []
  unfolding merge_chunk
  close-Split seen pages page h = merge_chunks-last d pages ((k, page) ∷ []) ∙ h

  split_step-Split :
      (b : Budget) (first : ℕ) (seen : List ClipRow) (s : Pages) (clip : ClipRow) {s' : Pages}
      → split_step b k first s clip ≡ returned s'
      → Split seen s
      → Split (seen ++ clip ∷ []) s' × (is_empty s'.1 ≡ false)
  unfolding split_step
  split_step-Split b first seen (pages, page) clip e h = ground (
    arith,
    close-Split seen pages page,
    dict_extend-twice (merge_chunks d pages) k page (clip ∷ []),
    dict_extend-last d k seen (clip ∷ []),
  )

  split_loop-Split :
      (b : Budget) (first : ℕ) (seen rest : List ClipRow) (s : Pages) {s' : Pages}
      → split_loop b k first s rest ≡ returned s'
      → Split seen s
      → Split (seen ++ rest) s'
  unfolding split_loop
  split_loop-Split b first seen [] s e h = ground (arith, append-nil seen)
  split_loop-Split b first seen (clip ∷ rest) s {s'} e h =
      let (t, first_round, others) = >>=-eq-returned (split_step b k first s clip) _ e in
      subst (λ l. Split l s') (append_assoc seen (clip ∷ []) rest)
        (split_loop-Split b first (seen ++ clip ∷ []) rest t others
          (split_step-Split b first seen s clip first_round h).0)

  -- The pages of a track, merged behind `d`, are the track's entry.
  pub split-cover :
      (b : Budget) (first : ℕ) (clips : List ClipRow) {pages : List Clips}
      → split_track_clip_pages b k first clips ≡ returned pages
      → merge_chunks d pages ≡ d ++ (k, clips) ∷ []
  unfolding split_track_clip_pages split_loop merge_chunks merge_chunk
  split-cover b first [] e = ground (arith, dict_extend-fresh d k [] new)
  split-cover b first (clip ∷ rest) e =
      let (s, loop, closed) = >>=-eq-returned (split_loop b k first ([], []) (clip ∷ rest)) _ e in
      let (t, first_round, others) = >>=-eq-returned (split_step b k first ([], []) clip) _ loop in
      let begun =
        split_step-Split b first [] ([], []) clip first_round (dict_extend-fresh d k [] new) in
      ground (
        arith,
        split_loop-page b k first rest t others begun.1,
        close-Split (clip ∷ rest) s.0 s.1
            (split_loop-Split b first ([] ++ clip ∷ []) rest t others begun.0),
      )

-- The chunks so far, merged, are the entries so far.
abbrev pub Holds : Clips → Filling → Type 0
Holds done s = merge_chunks [] (flush s) ≡ done

flush-merge :
    (chunks : List Clips) (current : Clips)
    → merge_chunks [] (flush (chunks, current)) ≡ merge_chunk (merge_chunks [] chunks) current
unfolding merge_chunk
flush-merge chunks [] = refl
flush-merge chunks (e ∷ m) = merge_chunks-last [] chunks (e ∷ m)

module _ (done : Clips) (chunks : List Clips) (current : Clips) (k : ℕ) (v : List ClipRow)
    (new : has_key done k ≡ false) (h : Holds done (chunks, current)) where
  merged : merge_chunk (merge_chunks [] chunks) current ≡ done
  merged = sym (flush-merge chunks current) ∙ h

  extended : merge_chunk done ((k, v) ∷ []) ≡ done ++ (k, v) ∷ []
  unfolding merge_chunk
  extended = dict_extend-fresh done k v new

  pub fresh_in_current : has_key current k ≡ false
  fresh_in_current = fresh_before_merge (merge_chunks [] chunks) current k (rw merged new)

  candidate-Holds : Holds (done ++ (k, v) ∷ []) (chunks, dict_set current k v)
  candidate-Holds =
      flush-merge chunks (dict_set current k v)
      ∙ ap (merge_chunk (merge_chunks [] chunks)) (dict_set-fresh current k v fresh_in_current)
      ∙ merge_chunk-append (merge_chunks [] chunks) current ((k, v) ∷ [])
      ∙ ap (λ d. merge_chunk d ((k, v) ∷ [])) merged
      ∙ extended

  alone-Holds : Holds (done ++ (k, v) ∷ []) (flush (chunks, current), (k, v) ∷ [])
  alone-Holds =
      flush-merge (flush (chunks, current)) ((k, v) ∷ [])
      ∙ ap (λ d. merge_chunk d ((k, v) ∷ [])) h
      ∙ extended

  pages-Holds :
      (b : Budget) (first : ℕ) (pages : List Clips)
      → split_track_clip_pages b k first v ≡ returned pages
      → Holds (done ++ (k, v) ∷ []) (flush (chunks, current) ++ pages, [])
  pages-Holds b first pages e =
      merge_chunks-append [] (flush (chunks, current)) pages
      ∙ ap (λ d. merge_chunks d pages) h
      ∙ split-cover done k new b first v e

  pub maps_step-Holds :
      (b : Budget) {s' : Filling}
      → maps_step b (chunks, current) (k, v) ≡ returned s'
      → Holds (done ++ (k, v) ∷ []) s'
  unfolding maps_step
  maps_step-Holds b {s'} e = elim (Option-cases (result (split_track_clip_pages b k first v))) [
    | inl failed ↦ ground (arith, candidate-Holds, alone-Holds)
    | inr (pages, cut) ↦ ground (arith, candidate-Holds, alone-Holds, pages-Holds b first pages)
  ]
    where
      first : ℕ
      first = length (flush (chunks, current))

maps_loop-Holds :
    (b : Budget) (done rest : Clips) (s : Filling) {s' : Filling}
    → IsDict (done ++ rest)
    → maps_loop b s rest ≡ returned s'
    → Holds done s
    → Holds (done ++ rest) s'
unfolding maps_loop
maps_loop-Holds b done [] s d e h = ground (arith, append-nil done)
maps_loop-Holds b done ((k, v) ∷ rest) s {s'} d e h =
    let (t, first_round, others) = >>=-eq-returned (maps_step b s (k, v)) _ e in
    subst (λ l. Holds l s') (append_assoc done ((k, v) ∷ []) rest)
      (maps_loop-Holds b (done ++ (k, v) ∷ []) rest t
        (subst IsDict (sym (append_assoc done ((k, v) ∷ []) rest)) d) others
        (maps_step-Holds done s.0 s.1 k v (fresh_in_prefix done rest k v d) h b first_round))

-- Merging the chunk maps into an empty dictionary, entry by entry and rows behind rows, gives
-- exactly the clips that were cut, in their order, whatever the byte budget.
pub merge-clip_maps :
    (b : Budget) (clips : Clips) {maps : List Clips}
    → IsDict clips
    → snapshot_chunk_clip_maps b clips ≡ returned maps
    → merge_chunks [] maps ≡ clips
unfolding snapshot_chunk_clip_maps
merge-clip_maps b clips d e =
    let (s, loop, flushed) = >>=-eq-returned (maps_loop b ([], []) clips) _ e in
    ground (arith, maps_loop-Holds b [] clips ([], []) d loop (unfold merge_chunks in refl))
