-- ===== src/Value/Growth/Crossing.antt =====
-- What the growth loop of src/lina_core.cpp changes, and when.
use lina_cpx.Prelude.{ℕ, ◌≡◌, ◌⊎◌, some}
use lina_cpx.Value.Seasons.{from_season}
use lina_cpx.Value.Facets.{build_lattice}
use lina_cpx.Value.Advance.{Rates, requirements, next_season}
use lina_cpx.Value.Advance.Earned.{Meets}
use lina_cpx.Value.Lattice.Wider.{Looser}
use lina_cpx.Value.Growth.{Being, season_metrics}

module _ {D : Type 0} (rates : Rates D) (ratio : ℕ → ℕ → D) where
  -- the engine is in the season of the identity, and its lattice is that of the poles, or looser
  abbrev pub InStep : Being D → Type 0
  InStep b =
      (b.engine.constraints ≡ from_season b.identity.current_season)
      × (b.engine.lattice ≡ build_lattice b.engine.constraints)
      × (b.engine.feedback_season ≡ b.identity.current_season)
      × Looser (build_lattice b.engine.pole_constraints) b.engine.lattice

  -- the metrics of `b` meet the requirements of its season
  abbrev pub Earned : Being D → Type 0
  Earned b =
      let m = season_metrics rates ratio b in
      Meets rates (requirements rates m.season) m.sessions_completed m.evaluations m.rate m.memories

  -- `b` grew into `b'`: its season and its engine stayed, or it had earned the season that followed
  abbrev pub Grows : Being D → Being D → Type 0
  Grows b b' =
      ((b'.identity.current_season ≡ b.identity.current_season) × (b'.engine ≡ b.engine))
      ⊎ ((next_season rates b.identity.current_season ≡ some b'.identity.current_season) × Earned b)
