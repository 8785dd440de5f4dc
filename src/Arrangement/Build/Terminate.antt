-- ===== src/Arrangement/Build/Terminate.antt =====
-- The loop over `chunk_count_hint` ends: the count of chunks does not fall from one round to the
-- next, and no budget gives more chunks than there are tracks and clips.
use ohmic_bridge.Prelude.{
  ℕ, zero, suc, ◌+◌, ◌≤◌, ◌<◌, ◌≡◌, refl, inl, inr, ◌==◌, Bool-cases, List, arith, length, some, [],
  ◌∷◌, Outcome, returned, raised, Outcome-cases, Text,
}
use ohmic_bridge.Decimal.{length-decimal_mono}
use ohmic_bridge.Arrangement.Rows.{Clips}
use ohmic_bridge.Arrangement.Rows.Dict.{IsDict}
use ohmic_bridge.Arrangement.Chunks.{Budget, snapshot_chunk_clip_maps}
use ohmic_bridge.Arrangement.Chunks.Count.{Tighter}
use ohmic_bridge.Arrangement.Chunks.Climb.{clip_maps-climb}
use ohmic_bridge.Arrangement.Chunks.Bound.{enough, clip_maps-lt-enough}
use ohmic_bridge.Arrangement.Body.{Body}
use ohmic_bridge.Arrangement.Build.{
  Built, hint_loop, budget, close, build_arrangement_snapshot_chunks,
}

enough-pos : (clips : Clips) → 0 < enough clips
enough-pos [] = omega arith
enough-pos (e ∷ m) = omega arith

abbrev hinted : Budget → ℕ → Budget
hinted b n = record b { chunk_count_hint = n }

hinted-Tighter : (b : Budget) (n m : ℕ) → n ≤ m → Tighter (hinted b n) (hinted b m)
hinted-Tighter b n m h = record {
  frames = omega (arith, length-decimal_mono n m h);
  bytes = omega arith;
}

-- The next hint is not smaller, if there is one.
abbrev Climbs : Budget → Clips → Type 0
Climbs b clips =
    (maps : List Clips)
    → snapshot_chunk_clip_maps b clips ≡ returned maps
    → b.chunk_count_hint ≤ length maps

Climbs-next :
    (b : Budget) (clips : Clips) (maps : List Clips)
    → IsDict clips
    → Climbs b clips
    → snapshot_chunk_clip_maps b clips ≡ returned maps
    → Climbs (hinted b (length maps)) clips
Climbs-next b clips maps d climbs e next e' =
    clip_maps-climb b (hinted b (length maps))
      (hinted-Tighter b b.chunk_count_hint (length maps) (climbs maps e)) clips {ms = maps}
      {ns = next} d e e'

-- With fuel for each hint that is left, the loop ends, and by its own test: the count of the chunks
-- is the hint under which they were cut.
pub hint_loop-ends :
    (fuel : ℕ) (b : Budget) (clips : Clips)
    → IsDict clips
    → Climbs b clips
    → b.chunk_count_hint < enough clips
    → enough clips ≤ fuel + b.chunk_count_hint
    → (r : Outcome (List Clips)) × (hint_loop fuel b clips ≡ some r)
unfolding hint_loop
hint_loop-ends zero b clips d climbs below h = absurd (omega arith)
hint_loop-ends (suc fuel) b clips d climbs below h =
    elim (Outcome-cases (snapshot_chunk_clip_maps b clips)) [
      | inl (e, failed) ↦ (raised e, ground arith)
      | inr (maps, cut) ↦ elim (Bool-cases (length maps == b.chunk_count_hint)) [
        | inl same ↦ (returned maps, ground arith)
        | inr other ↦
            let next = clip_maps-lt-enough b clips cut in
            let (r, ends) =
              hint_loop-ends fuel (hinted b (length maps)) clips d
                (Climbs-next b clips maps d climbs cut) next (ground (arith, climbs maps cut)) in
            (r, ground arith)
      ]
    ]

-- `build_arrangement_snapshot_chunks` always returns or raises, whatever the body, the revision and
-- the byte budget: its `while True` loop ends within as many rounds as there are tracks and clips,
-- and one more.
pub build-total :
    (sha1_hex : Text → Text) (body : Outcome Body) (revision max : ℕ)
    → ((b : Body) → body ≡ returned b → IsDict b.clips)
    → (r : Outcome Built) × (build_arrangement_snapshot_chunks sha1_hex body revision max ≡ some r)
unfolding build_arrangement_snapshot_chunks
build-total sha1_hex (raised e) revision max d = (_, refl)
build-total sha1_hex (returned body) revision max d =
    let b = budget sha1_hex body revision max in
    let (cut, ends) =
      hint_loop-ends (enough body.clips + 1) b body.clips (d body refl) (λ maps e. omega arith)
        (enough-pos body.clips) (omega arith) in
    (returned (close b body cut), ground arith)
