-- ===== src/Arrangement/Chunks/Bound.antt =====
-- No budget gives more chunks than there are tracks and clips.
use ohmic_bridge.Prelude.{
  ℕ, suc, ◌+◌, ◌≤◌, ◌<◌, ◌≡◌, inl, inr, List, [], ◌∷◌, arith, length, length-append, Option-cases,
  returned, result, >>=-eq-returned,
}
use ohmic_bridge.Arrangement.Rows.{ClipRow, Clips}
use ohmic_bridge.Arrangement.Chunks.{
  Budget, Pages, split_step, split_loop, split_track_clip_pages, Filling, flush, maps_step,
  maps_loop, snapshot_chunk_clip_maps,
}
use ohmic_bridge.Arrangement.Chunks.Climb.{length-flush}

-- One more than the tracks and the clips.
abbrev pub enough : Clips → ℕ
enough [] = 1
enough (e ∷ m) = suc (length e.1) + enough m

module _ (b : Budget) where
  split_step-length :
      (k first : ℕ) (s : Pages) (clip : ClipRow) {t : Pages}
      → split_step b k first s clip ≡ returned t
      → length t.0 ≤ length s.0 + 1
  unfolding split_step
  split_step-length k first (pages, page) clip e =
      ground (arith, length-append pages (((k, page) ∷ []) ∷ []))

  split_loop-length :
      (k first : ℕ) (s : Pages) (rest : List ClipRow) {t : Pages}
      → split_loop b k first s rest ≡ returned t
      → length t.0 ≤ length s.0 + length rest
  unfolding split_loop
  split_loop-length k first s [] e = ground arith
  split_loop-length k first s (clip ∷ rest) e =
      let (t, first_round, others) = >>=-eq-returned (split_step b k first s clip) _ e in
      omega (
        arith,
        split_step-length k first s clip first_round,
        split_loop-length k first t rest others,
      )

  split-length :
      (k first : ℕ) (clips : List ClipRow) {pages : List Clips}
      → split_track_clip_pages b k first clips ≡ returned pages
      → length pages ≤ length clips + 1
  unfolding split_track_clip_pages
  split-length k first clips e =
      let (s, loop, closed) = >>=-eq-returned (split_loop b k first ([], []) clips) _ e in
      ground (
        arith,
        split_loop-length k first ([], []) clips loop,
        length-append s.0 (((k, s.1) ∷ []) ∷ []),
      )

  maps_step-length :
      (s : Filling) (k : ℕ) (v : List ClipRow) {t : Filling}
      → maps_step b s (k, v) ≡ returned t
      → length (flush t) ≤ length (flush s) + length v + 1
  unfolding maps_step
  maps_step-length (chunks, current) k v {t} e =
      elim (Option-cases
        (result (split_track_clip_pages b k (length (flush (chunks, current))) v))) [
          | inl failed ↦ ground (arith, length-flush (chunks, current), length-flush t)
          | inr (pages, cut) ↦ ground (
            arith,
            length-flush (chunks, current),
            length-flush t,
            length-append (flush (chunks, current)) pages,
            split-length k (length (flush (chunks, current))) v {pages = pages},
          )
        ]

  maps_loop-length :
      (s : Filling) (rest : Clips) {t : Filling}
      → maps_loop b s rest ≡ returned t
      → length (flush t) < length (flush s) + enough rest
  unfolding maps_loop
  maps_loop-length s [] e = ground arith
  maps_loop-length s ((k, v) ∷ rest) e =
      let (t, first_round, others) = >>=-eq-returned (maps_step b s (k, v)) _ e in
      omega (arith, maps_step-length s k v first_round, maps_loop-length t rest others)

  -- There are no more chunks than tracks and clips together, whatever the budget.
  pub clip_maps-lt-enough :
      (clips : Clips) {maps : List Clips}
      → snapshot_chunk_clip_maps b clips ≡ returned maps
      → length maps < enough clips
  unfolding snapshot_chunk_clip_maps
  clip_maps-lt-enough clips e =
      let (s, loop, flushed) = >>=-eq-returned (maps_loop b ([], []) clips) _ e in
      ground (arith, maps_loop-length ([], []) clips loop)
