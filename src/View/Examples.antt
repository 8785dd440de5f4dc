-- ===== src/View/Examples.antt =====
-- A probe that fails at its third call.
use ohmic_bridge.Prelude.{
  ℕ, suc, ◌≡◌, refl, some, [], Outcome, returned, raised, Exn, runtime_error, none,
}
use ohmic_bridge.Prelude.Int.{ℤ, pos}
use ohmic_bridge.View.{read_attempts, probe_zoom_view, zoom_loop}

abbrev failure : Exn
failure = record { class = runtime_error; message = [] }

abbrev third_fails : ℤ → ℕ → Outcome (Unit {0})
third_fails direction (suc (suc n)) = raised failure
third_fails direction _ = returned tt

two_completed :
    probe_zoom_view (returned tt) third_fails none (some (returned (pos 500)))
    ≡ returned (record { attempts = 100; completed = 2; errors = 1; first_error = some failure })
unfolding probe_zoom_view read_attempts zoom_loop
two_completed = refl
