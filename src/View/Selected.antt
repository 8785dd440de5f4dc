-- ===== src/View/Selected.antt =====
-- Selecting a clip, and asking which clip is selected.
use ohmic_bridge.Prelude.{
  ℕ, zero, suc, ◌≡◌, refl, ap, inl, inr, true, ◌==◌, Bool-cases, some, List, [], ◌∷◌, length,
  get_elem?, returned, arith,
}
use ohmic_bridge.Prelude.Int.{ℤ}
use ohmic_bridge.View.{
  View, index, place, at, get_selected_clip, assign, set_selected_scene, set_selected_track,
  set_selected_clip,
}

-- No object stands in the list twice.
abbrev pub Distinct : List ℕ → Type 0
Distinct xs = (i j x : ℕ) → get_elem? xs i ≡ some x → get_elem? xs j ≡ some x → i ≡ j

index-get :
    (xs : List ℕ) (i : ℕ) {x : ℕ} → Distinct xs → get_elem? xs i ≡ some x → index xs x ≡ returned i
unfolding index
index-get [] i distinct h = cc
index-get (y ∷ ys) zero {x} distinct h =
    let same : x ≡ y = ground (arith, h) in
    let e : (x == y) ≡ true = ground (arith, same) in rw e refl
index-get (y ∷ ys) (suc i) {x} distinct h =
    let rest =
      index-get ys i
        (λ a b z ha hb. let e : suc a ≡ suc b = distinct (suc a) (suc b) z ha hb in omega arith)
        h in
    elim (Bool-cases (x == y)) [
      | inl e ↦
          let same : y ≡ x = ground (arith, e) in
          let clash : zero ≡ suc i = distinct 0 (suc i) x (ap some same) h in absurd (omega arith)
      | inr e ↦ rw (e, rest) refl
    ]

at-place :
    (xs : List ℕ) (z : ℤ) {i x : ℕ}
    → place z (length xs) ≡ some i
    → get_elem? xs i ≡ some x
    → at xs z ≡ returned x
unfolding at
at-place xs z placed found = rw (placed, found, at) refl

-- If no scene and no track stands twice in the song, and Live accepts both selections, then selecting the
-- clip at two indices, each of which may count from the end, succeeds, and the clip that is selected
-- then is the one at the places that the indices stand for.
pub set_selected_clip-get :
    (v : View) (track_index scene_index : ℤ) (track scene t s : ℕ)
    → Distinct v.tracks
    → Distinct v.scenes
    → place track_index (length v.tracks) ≡ some track
    → get_elem? v.tracks track ≡ some t
    → place scene_index (length v.scenes) ≡ some scene
    → get_elem? v.scenes scene ≡ some s
    → (v' : View) × (set_selected_clip
          (returned tt)
          (returned tt)
          (track_index ∷ scene_index ∷ [])
          v
        ≡ (returned tt, v'))
      × (get_selected_clip v' ≡ returned (track, scene))
unfolding set_selected_clip set_selected_track set_selected_scene assign get_selected_clip
set_selected_clip-get v track_index scene_index track scene t s dt ds pt et ps es = (
  record v { selected_track = t; selected_scene = s },
  rw
      (
        at-place v.tracks track_index pt et,
        at-place v.scenes scene_index ps es,
        set_selected_clip,
        set_selected_track,
        set_selected_scene,
      )
      refl,
  rw (index-get v.tracks track dt et, index-get v.scenes scene ds es) refl,
)
