-- ===== src/Value/Lattice/Center.antt =====
-- The centre of `EthicalPolytope` of src/value_engine.cpp, on which `project` falls back.
use lina_cpx.Prelude.{◌≡◌, refl, Bool, true, Bytes}
use lina_cpx.Prelude.Int.{◌+ℤ◌, ◌*ℤ◌}
use lina_cpx.Value.Seasons.{
  PolytopeConstraints, get_seasonal_bounds_cases, from_bounds, from_season,
}
use lina_cpx.Value.Facets.{build_lattice}
use lina_cpx.Value.Lattice.{contains, center}

abbrev center_inside : PolytopeConstraints → Bool
center_inside c = (contains (build_lattice c) (center c)).0

-- In every season, and under any other name of one, the centre of the bounds is inside the lattice.
pub center-contains :
    (season : Bytes)
    → let c = from_season season in (contains (build_lattice c) (center c)).0 ≡ true
unfolding contains build_lattice center from_season ◌+ℤ◌ ◌*ℤ◌
center-contains season =
    get_seasonal_bounds_cases (λ b. center_inside (from_bounds b season) ≡ true) refl refl refl refl
      season
