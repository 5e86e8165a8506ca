-- ===== src/Value/Poles/Tests.antt =====
-- The homes of src/value_engine.cpp on three memories, in thousandths.
use lina_cpx.Prelude.{ℕ, ◌≤◌, ◌≡◌, refl, List, [], ◌∷◌, map, length}
use lina_cpx.Prelude.Int.{ℤ, pos, ◌+ℤ◌, ◌*ℤ◌}
use lina_cpx.Prelude.{bytes_eq}
use lina_cpx.Value.Seasons.{from_season, get_seasonal_bounds}
use lina_cpx.Value.Facets.{build_lattice}
use lina_cpx.Value.Lattice.{contains}
use lina_cpx.Value.Evaluate.Inside.{IsInside}
use lina_cpx.Value.Evaluate.Tests.{thousandths, spring, home-IsInside}
use lina_cpx.Value.Poles.{default_center, discover, home_for}
use lina_cpx.Value.Poles.Members.{sum_members, sum_members-discover}
use lina_cpx.Value.Poles.Homes.{home_for-IsInside}

abbrev memory : ℕ → List ℤ
memory n =
    map (λ k. pos k)
      (n ∷ 250 ∷ 700 ∷ 150 ∷ 800 ∷ 100 ∷ 700 ∷ 150 ∷ 750 ∷ 200 ∷ 750 ∷ 150 ∷ 650 ∷ 250 ∷ [])

abbrev memories : List (List ℤ)
memories = memory 650 ∷ memory 660 ∷ memory 900 ∷ []

default-IsInside : IsInside thousandths spring (default_center thousandths)
unfolding contains build_lattice from_season get_seasonal_bounds bytes_eq ◌+ℤ◌ ◌*ℤ◌
default-IsInside = refl

home_for-IsInside_example :
    IsInside thousandths spring
      (home_for thousandths (discover thousandths spring memories 3) (memory 700))
home_for-IsInside_example =
    home_for-IsInside thousandths spring memories 3 (memory 700) home-IsInside default-IsInside

sum_members-discover_example :
    (sum_members thousandths (discover thousandths spring memories 3) ≡ 3)
    × (length (discover thousandths spring memories 3) ≤ 3)
    × (length (discover thousandths spring memories 3) ≤ 8)
sum_members-discover_example = sum_members-discover thousandths spring memories 3
