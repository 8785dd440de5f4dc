-- ===== src/Arrangement/Chunks/Count.antt =====
-- A tighter budget never gives fewer chunks. `chunk_count_hint` stands in every chunk, so a larger
-- hint is a tighter budget, and the loop of `build_arrangement_snapshot_chunks` climbs.
use ohmic_bridge.Prelude.{
  ℕ, ◌+◌, ◌≤◌, ◌<◌, ◌≡◌, ◌⊎◌, ap, ◌∙◌, false, List, [], ◌∷◌, ◌++◌, arith, leb, is_empty, length,
  length-append, returned, >>=-eq-returned,
}
use ohmic_bridge.Decimal.{decimal, length-decimal_mono}
use ohmic_bridge.Arrangement.Rows.{ClipRow, Clips}
use ohmic_bridge.Arrangement.Chunks.{
  Budget, chunk_fits, Pages, split_step, split_loop, split_track_clip_pages,
}
use ohmic_bridge.Arrangement.Chunks.Cover.{split_loop-page}
use ohmic_bridge.Arrangement.Chunks.Size.{
  frame, key_weight, rows_size, rows_size-append, chunk_fits-used, entry_weight-rows,
}

-- `c` leaves no more room than `b`.
pub record Tighter (b c : Budget) : Type 0 where
  pub frames : frame b ≤ frame c
  pub bytes : c.max_payload_bytes ≤ b.max_payload_bytes

-- The size of a page of track `k` at index `i`.
abbrev page_used : Budget → ℕ → ℕ → ℕ → ℕ
page_used b k i rows = frame b + length (decimal i) + key_weight k + rows

page_fits :
    (b : Budget) (k i : ℕ) (r : ClipRow) (rs : List ClipRow)
    → chunk_fits b i ((k, r ∷ rs) ∷ [])
      ≡ leb (page_used b k i (rows_size (r ∷ rs))) b.max_payload_bytes
page_fits b k i r rs =
    chunk_fits-used b i (k, r ∷ rs) []
    ∙ ap (λ n. leb n b.max_payload_bytes) (omega (arith, entry_weight-rows k r rs))

page_fits_last :
    (b : Budget) (k i : ℕ) (rs : List ClipRow) (r : ClipRow)
    → chunk_fits b i ((k, rs ++ r ∷ []) ∷ [])
      ≡ leb (page_used b k i (rows_size rs + rows_size (r ∷ []))) b.max_payload_bytes
page_fits_last b k i [] r =
    page_fits b k i r []
    ∙ ap (λ n. leb (page_used b k i n) b.max_payload_bytes) (rows_size-append [] (r ∷ []))
page_fits_last b k i (x ∷ rs) r =
    page_fits b k i x (rs ++ r ∷ [])
    ∙ ap (λ n. leb (page_used b k i n) b.max_payload_bytes) (rows_size-append (x ∷ rs) (r ∷ []))

-- One round either puts the clip on the page, or closes the page and begins another with it.
abbrev SplitView : Budget → ℕ → ℕ → Pages → ClipRow → Pages → Type 0
SplitView b k first s clip t =
    ((page_used b k (first + length s.0) (rows_size s.1 + rows_size (clip ∷ []))
        ≤ b.max_payload_bytes)
      × (length t.0 ≡ length s.0)
      × (is_empty t.1 ≡ false)
      × (rows_size t.1 ≡ rows_size s.1 + rows_size (clip ∷ [])))
    ⊎ ((b.max_payload_bytes
          < page_used b k (first + length s.0) (rows_size s.1 + rows_size (clip ∷ [])))
        × (is_empty s.1 ≡ false)
        × (length t.0 ≡ length s.0 + 1)
        × (is_empty t.1 ≡ false)
        × (rows_size t.1 ≡ rows_size (clip ∷ [])))

split_step_view :
    (b : Budget) (k first : ℕ) (s : Pages) (clip : ClipRow) {t : Pages}
    → split_step b k first s clip ≡ returned t
    → SplitView b k first s clip t
unfolding split_step
split_step_view b k first (pages, page) clip e = ground (
  arith,
  page_fits_last b k (first + length pages) page clip,
  rows_size-append page (clip ∷ []),
  length-append pages (((k, page) ∷ []) ∷ []),
)

-- The pages of `s` are behind those of `t`: fewer are closed, or as many and the open one is smaller.
abbrev SplitBehind : ℕ → Pages → ℕ → Pages → Type 0
SplitBehind i s j t =
    (is_empty s.1 ≡ is_empty t.1)
    × ((i + length s.0 < j + length t.0)
        ⊎ ((i + length s.0 ≡ j + length t.0) × (rows_size s.1 ≤ rows_size t.1)))

module _ (b c : Budget) (tighter : Tighter b c) (k : ℕ) where
  split_step-behind :
      (i j : ℕ) (s t : Pages) (clip : ClipRow) {s' t' : Pages}
      → split_step b k i s clip ≡ returned s'
      → split_step c k j t clip ≡ returned t'
      → SplitBehind i s j t
      → SplitBehind i s' j t'
  split_step-behind i j s t clip p q h = ground (
    arith,
    tighter,
    split_step_view b k i s clip p,
    split_step_view c k j t clip q,
    length-decimal_mono (i + length s.0) (j + length t.0),
  )

  split_loop-behind :
      (i j : ℕ) (s t : Pages) (rest : List ClipRow) {s' t' : Pages}
      → split_loop b k i s rest ≡ returned s'
      → split_loop c k j t rest ≡ returned t'
      → SplitBehind i s j t
      → SplitBehind i s' j t'
  unfolding split_loop
  split_loop-behind i j s t [] p q h = ground arith
  split_loop-behind i j s t (clip ∷ rest) p q h =
      let (s1, p1, p2) = >>=-eq-returned (split_step b k i s clip) _ p in
      let (t1, q1, q2) = >>=-eq-returned (split_step c k j t clip) _ q in
      split_loop-behind i j s1 t1 rest p2 q2 (split_step-behind i j s t clip p1 q1 h)

  pub split-behind :
      (i j : ℕ) (clips : List ClipRow) {ms ns : List Clips}
      → i ≤ j
      → split_track_clip_pages b k i clips ≡ returned ms
      → split_track_clip_pages c k j clips ≡ returned ns
      → i + length ms ≤ j + length ns
  unfolding split_track_clip_pages
  split-behind i j clips h p q =
      let (s, p1, p2) = >>=-eq-returned (split_loop b k i ([], []) clips) _ p in
      let (t, q1, q2) = >>=-eq-returned (split_loop c k j ([], []) clips) _ q in
      let behind = split_loop-behind i j ([], []) ([], []) clips p1 q1 (ground arith) in
      ground (
        arith,
        behind,
        length-append s.0 (((k, s.1) ∷ []) ∷ []),
        length-append t.0 (((k, t.1) ∷ []) ∷ []),
      )

-- A track has a page, also if it has no clips.
pub split-nonempty :
    (b : Budget) (k i : ℕ) (clips : List ClipRow) {ms : List Clips}
    → split_track_clip_pages b k i clips ≡ returned ms
    → 1 ≤ length ms
unfolding split_track_clip_pages split_loop
split-nonempty b k i [] p = ground arith
split-nonempty b k i (clip ∷ rest) p =
    let (s, loop, closed) = >>=-eq-returned (split_loop b k i ([], []) (clip ∷ rest)) _ p in
    let (t, first_round, others) = >>=-eq-returned (split_step b k i ([], []) clip) _ loop in
    ground (
      arith,
      split_loop-page b k i rest t others,
      split_step_view b k i ([], []) clip first_round,
      length-append s.0 (((k, s.1) ∷ []) ∷ []),
    )
