-- ===== src/Arrangement/Chunks/Fit.antt =====
-- Every chunk that is cut passed the byte test at its own index.
use ohmic_bridge.Prelude.{
  ℕ, ◌+◌, ◌≡◌, refl, ◌⊎◌, inl, inr, subst, true, List, [], ◌∷◌, ◌++◌, arith, length, returned,
  result, Option-cases, >>=-eq-returned,
}
use ohmic_bridge.Arrangement.Rows.{ClipRow, Clips}
use ohmic_bridge.Arrangement.Chunks.{
  Budget, chunk_fits, Pages, split_step, split_loop, close_page, split_track_clip_pages, Filling,
  flush, maps_step, maps_loop, snapshot_chunk_clip_maps,
}

-- The test at index `i`, or the one page of a track without clips, which the code does not test.
abbrev pub Fits : Budget → ℕ → Clips → Type 0
Fits b i m = (chunk_fits b i m ≡ true) ⊎ ((k : ℕ) × (m ≡ (k, []) ∷ []))

-- The chunks at the indices from `i` on.
abbrev pub AllFit : Budget → ℕ → List Clips → Type 0
AllFit b i [] = Unit
AllFit b i (m ∷ ms) = Fits b i m × AllFit b (i + 1) ms

AllFit-append :
    (b : Budget) (i : ℕ) (ms ns : List Clips)
    → AllFit b i ms
    → AllFit b (i + length ms) ns
    → AllFit b i (ms ++ ns)
AllFit-append b i [] ns h hs = let e : i + 0 ≡ i = omega arith in subst (λ j. AllFit b j ns) e hs
AllFit-append b i (m ∷ ms) ns h hs =
    let e : i + length (m ∷ ms) ≡ i + 1 + length ms = omega arith in
    (h.0, AllFit-append b (i + 1) ms ns h.1 (subst (λ j. AllFit b j ns) e hs))

AllFit-last :
    (b : Budget) (i : ℕ) (ms : List Clips) (m : Clips)
    → AllFit b i ms
    → Fits b (i + length ms) m
    → AllFit b i (ms ++ m ∷ [])
AllFit-last b i ms m h f = AllFit-append b i ms (m ∷ []) h (f, tt)

module _ (b : Budget) (k first : ℕ) where
  -- The closed pages fit, and so does the page that is being filled.
  abbrev SplitFits : Pages → Type 0
  SplitFits (pages, page) =
      AllFit b first pages
      × (page ≡ [] ⊎ chunk_fits b (first + length pages) ((k, page) ∷ []) ≡ true)

  split_step-fits :
      (s : Pages) (clip : ClipRow) {s' : Pages}
      → split_step b k first s clip ≡ returned s'
      → SplitFits s
      → SplitFits s'
  unfolding split_step
  split_step-fits (pages, page) clip e h =
      ground (arith, AllFit-last b first pages ((k, page) ∷ []))

  split_loop-fits :
      (s : Pages) (rest : List ClipRow) {s' : Pages}
      → split_loop b k first s rest ≡ returned s'
      → SplitFits s
      → SplitFits s'
  unfolding split_loop
  split_loop-fits s [] e h = ground arith
  split_loop-fits s (clip ∷ rest) e h =
      let (t, first_round, others) = >>=-eq-returned (split_step b k first s clip) _ e in
      split_loop-fits t rest others (split_step-fits s clip first_round h)

  close_page-fits :
      (clips : List ClipRow) (pages : List Clips) (page : List ClipRow)
      → SplitFits (pages, page)
      → AllFit b first (close_page k clips (pages, page))
  close_page-fits [] pages [] h = AllFit-last b first pages ((k, []) ∷ []) h.0 (inr (k, refl))
  close_page-fits (c ∷ clips) pages [] h = h.0
  close_page-fits clips pages (p ∷ page) h =
      AllFit-last b first pages ((k, p ∷ page) ∷ []) h.0 (inl (ground (arith, h.1)))

  pub split-fits :
      (clips : List ClipRow) {pages : List Clips}
      → split_track_clip_pages b k first clips ≡ returned pages
      → AllFit b first pages
  unfolding split_track_clip_pages
  split-fits clips e =
      let (s, loop, closed) = >>=-eq-returned (split_loop b k first ([], []) clips) _ e in
      let fits = split_loop-fits ([], []) clips loop (tt, inl refl) in
      ground (arith, close_page-fits clips s.0 s.1 fits)

module _ (b : Budget) where
  -- The closed chunks fit, and so does the chunk that is being filled.
  abbrev MapsFit : Filling → Type 0
  MapsFit (chunks, current) =
      AllFit b 0 chunks × (current ≡ [] ⊎ chunk_fits b (length chunks) current ≡ true)

  flush-fits :
      (chunks : List Clips) (current : Clips)
      → MapsFit (chunks, current)
      → AllFit b 0 (flush (chunks, current))
  flush-fits chunks [] h = h.0
  flush-fits chunks (x ∷ current) h =
      let e : length chunks ≡ 0 + length chunks = omega arith in
      let fits : chunk_fits b (length chunks) (x ∷ current) ≡ true = ground (arith, h.1) in
      AllFit-last b 0 chunks (x ∷ current) h.0
        (inl (subst (λ j. chunk_fits b j (x ∷ current) ≡ true) e fits))

  maps_step-fits :
      (s : Filling) (k : ℕ) (v : List ClipRow) {s' : Filling}
      → maps_step b s (k, v) ≡ returned s'
      → MapsFit s
      → MapsFit s'
  unfolding maps_step
  maps_step-fits (chunks, current) k v e h =
      let first : ℕ = length (flush (chunks, current)) in
      elim (Option-cases (result (split_track_clip_pages b k first v))) [
        | inl failed ↦ ground (arith, flush-fits chunks current h)
        | inr (pages, cut) ↦ ground (
          arith,
          flush-fits chunks current h,
          split-fits b k first v {pages = pages},
          AllFit-append b 0 (flush (chunks, current)) pages,
        )
      ]

  maps_loop-fits :
      (s : Filling) (rest : Clips) {s' : Filling}
      → maps_loop b s rest ≡ returned s'
      → MapsFit s
      → MapsFit s'
  unfolding maps_loop
  maps_loop-fits s [] e h = ground arith
  maps_loop-fits s ((k, v) ∷ rest) e h =
      let (t, first_round, others) = >>=-eq-returned (maps_step b s (k, v)) _ e in
      maps_loop-fits t rest others (maps_step-fits s k v first_round h)

  -- Every chunk map that is cut passes the byte test at its index, the one page of a track that
  -- has no clips excepted.
  pub clip_maps-fit :
      (clips : Clips) {maps : List Clips}
      → snapshot_chunk_clip_maps b clips ≡ returned maps
      → AllFit b 0 maps
  unfolding snapshot_chunk_clip_maps
  clip_maps-fit clips e =
      let (s, loop, flushed) = >>=-eq-returned (maps_loop b ([], []) clips) _ e in
      ground (arith, flush-fits s.0 s.1 (maps_loop-fits ([], []) clips loop (tt, inl refl)))
