-- ===== src/View/Zoom.antt =====
-- What the probe of `zoom_view` reports.
use ohmic_bridge.Prelude.{
  ℕ, zero, suc, ◌+◌, ◌≤◌, ◌<◌, ◌≡◌, refl, ◌⊎◌, inl, inr, Option, none, sym, subst, min, max, some,
  Outcome, returned, raised, Exn, arith, Outcome-cases,
}
use ohmic_bridge.View.{ZoomReport, read_attempts, zoom_loop, probe_zoom_view, read_direction}
use ohmic_bridge.Prelude.Int.{ℤ, nat_part}

-- A report on calls: all attempts are completed, or the call behind those completed raised.
pub IsReport : (ℕ → Outcome (Unit {0})) → ℕ → ZoomReport → Type 0
IsReport zoom attempts r =
    (r.attempts ≡ attempts)
    × ((i : ℕ) → i < r.completed → zoom i ≡ returned tt)
    × (((r.errors ≡ 0) × (r.first_error ≡ none) × (r.completed ≡ attempts))
        ⊎ ((r.errors ≡ 1)
            × (r.completed < attempts)
            × (e : Exn) × (zoom r.completed ≡ raised e)
            × (r.first_error ≡ some e)))

before_or_now : (i n : ℕ) → i < n + 1 → (i < n) ⊎ (i ≡ n)
before_or_now i n h = ground (arith, h)

attempts-bounds :
    (attempts_arg : Option (Outcome ℤ)) {attempts : ℕ}
    → read_attempts attempts_arg ≡ returned attempts
    → (1 ≤ attempts) × (attempts ≤ 100)
unfolding read_attempts
attempts-bounds none {attempts} h =
    let e : 1 ≡ attempts = ground (arith, h) in (omega arith, omega arith)
attempts-bounds (some (raised e)) h = absurd (ground (arith, h))
attempts-bounds (some (returned i)) {attempts} h =
    let e : max 1 (min (nat_part i) 100) ≡ attempts = ground (arith, h) in
    (omega arith, omega arith)

module _ (zoom : ℕ → Outcome (Unit {0})) (attempts : ℕ) where
  zoom_loop-IsReport :
      (left completed : ℕ)
      → left + completed ≡ attempts
      → ((i : ℕ) → i < completed → zoom i ≡ returned tt)
      → IsReport zoom attempts (zoom_loop zoom attempts left completed)
  unfolding zoom_loop IsReport
  zoom_loop-IsReport zero completed h before = (refl, before, inl (refl, refl, omega (arith, h)))
  zoom_loop-IsReport (suc left) completed h before = elim (Outcome-cases (zoom completed)) [
    | inl (e, failed) ↦
        let stopped : zoom_loop zoom attempts (suc left) completed ≡ record {
          attempts = attempts;
          completed = completed;
          errors = 1;
          first_error = some e;
        } =
          rw (failed, zoom_loop) refl in
        subst (IsReport zoom attempts) (sym stopped)
          (refl, before, inr (refl, omega (arith, h), e, failed, refl))
    | inr (u, worked) ↦
        let next : zoom_loop zoom attempts (suc left) completed
            ≡ zoom_loop zoom attempts left (completed + 1) =
          rw (worked, zoom_loop) refl in
        subst (IsReport zoom attempts) (sym next) (
          zoom_loop-IsReport left (completed + 1) (omega (arith, h)) (λ i below.
            elim (before_or_now i completed below) [
              | inl earlier ↦ before i earlier
              | inr now ↦ rw now worked
            ]))
  ]

module _ (zoom : ℤ → ℕ → Outcome (Unit {0})) where
  -- If Live gives its view, and the two arguments are read as numbers, the probe reports from 1 to 100
  -- attempts; every call of `zoom_view` that it counts as completed has returned; and either all the
  -- attempts are completed and no error is reported, or fewer are, and the error is what the next call
  -- raised.
  pub probe_zoom_view-IsReport :
      (direction : Option (Outcome ℤ)) (attempts_arg : Option (Outcome ℤ)) (d : ℤ) (attempts : ℕ)
      → read_direction direction ≡ returned d
      → read_attempts attempts_arg ≡ returned attempts
      → (r : ZoomReport) × (probe_zoom_view (returned tt) zoom direction attempts_arg ≡ returned r)
        × (1 ≤ attempts)
        × (attempts ≤ 100)
        × IsReport (zoom d) attempts r
  unfolding probe_zoom_view
  probe_zoom_view-IsReport direction attempts_arg d attempts read_d read_a = (
    zoom_loop (zoom d) attempts attempts 0,
    rw (read_d, read_a) refl,
    (attempts-bounds attempts_arg read_a).0,
    (attempts-bounds attempts_arg read_a).1,
    zoom_loop-IsReport (zoom d) attempts attempts 0 (omega arith) (λ i below. absurd (omega arith)),
  )
