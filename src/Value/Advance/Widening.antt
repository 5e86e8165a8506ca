-- ===== src/Value/Advance/Widening.antt =====
-- That growing up only widens what is allowed: the seasons of src/value_engine.cpp in their order.
use lina_cpx.Prelude.{
  ◌≡◌, subst, Bool, true, false, List, [], Option, none, some, Bytes, codes, bytes_eq,
  if◌then◌else◌, arith,
}
use lina_cpx.Prelude.Int.{◌*ℤ◌}
use lina_cpx.Value.Seasons.{
  SeasonalBounds, spring_bounds, summer_bounds, fall_bounds, winter_bounds, get_seasonal_bounds,
  from_bounds, from_season,
}
use lina_cpx.Value.Facets.{Halfspace, build_lattice}
use lina_cpx.Value.Lattice.{Point, contains}
use lina_cpx.Value.Lattice.Wider.{Looser, contains-Looser}
use lina_cpx.Value.Advance.{Rates, SeasonRequirements, next_season}

abbrev lattice : SeasonalBounds → List Halfspace
lattice b = build_lattice (from_bounds b [])

spring_summer : Looser (lattice spring_bounds) (lattice summer_bounds)
unfolding build_lattice ◌*ℤ◌
spring_summer = ground arith

summer_fall : Looser (lattice summer_bounds) (lattice fall_bounds)
unfolding build_lattice ◌*ℤ◌
summer_fall = ground arith

fall_winter : Looser (lattice fall_bounds) (lattice winter_bounds)
unfolding build_lattice ◌*ℤ◌
fall_winter = ground arith

module _ {D : Type 0} (rates : Rates D) where
  -- a season with the one that it leads to
  pub season_cases :
      (P : SeasonalBounds → Option Bytes → Type 0)
      → P spring_bounds (some (codes "summer"))
      → P summer_bounds (some (codes "fall"))
      → P fall_bounds (some (codes "winter"))
      → P winter_bounds none
      → (season : Bytes) → P (get_seasonal_bounds season) (next_season rates season)
  unfolding get_seasonal_bounds next_season
  season_cases P p q r t season = choose (bytes_eq season (codes "spring")) _ _ p (
      choose (bytes_eq season (codes "summer")) _ _ q (
        choose (bytes_eq season (codes "fall")) _ _ r
          (choose (bytes_eq season (codes "winter")) _ _ t p)))
    where
      choose :
          (b : Bool) {x y : SeasonalBounds} (u v : SeasonRequirements D)
          → P x u.advances_to
          → P y v.advances_to
          → P (if b then x else y) (if b then u else v).advances_to
      choose true u v px py = px
      choose false u v px py = py

  abbrev Widens : SeasonalBounds → Option Bytes → Type 0
  Widens b none = Unit
  Widens b (some next) = Looser (lattice b) (build_lattice (from_season next))

  season-Widens : (season : Bytes) → Widens (get_seasonal_bounds season) (next_season rates season)
  unfolding build_lattice from_season get_seasonal_bounds bytes_eq
  season-Widens season = season_cases Widens spring_summer summer_fall fall_winter tt season

  pub next_season-Looser :
      (season next : Bytes)
      → next_season rates season ≡ some next
      → Looser (build_lattice (from_season season)) (build_lattice (from_season next))
  unfolding from_season build_lattice
  next_season-Looser season next e =
      subst (Widens (get_seasonal_bounds season)) e (season-Widens season)

  -- What the lattice of a season allows, the lattice of the season that follows it allows.
  pub next_season_widens :
      (season next : Bytes) (x : Point)
      → next_season rates season ≡ some next
      → (contains (build_lattice (from_season season)) x).0 ≡ true
      → (contains (build_lattice (from_season next)) x).0 ≡ true
  next_season_widens season next x e h =
      contains-Looser (build_lattice (from_season season)) (build_lattice (from_season next)) x
        (next_season-Looser season next e) h
