-- ===== src/Core/Telemetry/Tests.antt =====
-- The technical bus of src/lina_core.cpp on three lines.
use lina_cpx.Prelude.{ℕ, ◌≡◌, refl, true, List, [], ◌∷◌, arith}
use lina_cpx.Core.Telemetry.{Event, persists, writes, stops, run, quiet}
use lina_cpx.Core.Telemetry.Kept.{lines, in_order, run_keeps}

-- a round of the writer between the second line and the third
abbrev history : List (Event ℕ)
history = persists 1 ∷ persists 2 ∷ writes (λ n. true) ∷ persists 3 ∷ stops ∷ []

run_keeps_example : in_order (run history quiet) ≡ lines history
run_keeps_example = run_keeps history (unfold lines in omega arith)

three_lines : lines history ≡ 1 ∷ 2 ∷ 3 ∷ []
unfolding lines
three_lines = refl
