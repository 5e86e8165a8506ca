-- ===== src/Value/Poles/Homes.antt =====
-- The homes of src/value_engine.cpp lie inside the lattice.
use lina_cpx.Prelude.{
  ℕ, zero, suc, ◌+◌, ◌<◌, Bool, true, false, List, [], ◌∷◌, none, some, length, get_elem?, All,
  ◌==◌, if◌then◌else◌, arith,
}
use lina_cpx.Value.Seasons.{PolytopeConstraints}
use lina_cpx.Value.Project.{Doubles, nought, center_d}
use lina_cpx.Value.Evaluate.Inside.{IsInside, project-IsInside}
use lina_cpx.Value.Poles.{
  RegionPole, default_center, largest, dist2, cluster_count, centroid, clusters, pole_of, poles_of,
  discover, nearest_pole, nearest, home_for,
}

module _ {D : Type 0} (ds : Doubles D) (c : PolytopeConstraints) where
  -- every pole's center is inside the lattice
  IsDwelling : List (RegionPole D) → Type 0
  IsDwelling poles = All (λ pole. IsInside ds c pole.center) poles

  poles_of-IsDwelling :
      (coords : List (List D)) (assign : List ℕ) (i n : ℕ)
      → IsInside ds c (center_d ds c)
      → IsDwelling (poles_of ds c coords assign i n)
  unfolding IsDwelling poles_of
  poles_of-IsDwelling coords assign i zero home = tt
  poles_of-IsDwelling coords assign i (suc n) home =
      by_test (cluster_count i assign == 0) (poles_of-IsDwelling coords assign (suc i) n home)
    where
      by_test :
          (b : Bool)
          → IsDwelling (poles_of ds c coords assign (suc i) n)
          → IsDwelling (
              if b
              then poles_of ds c coords assign (suc i) n
              else pole_of ds c coords assign i ∷ poles_of ds c coords assign (suc i) n)
      by_test true rest = rest
      by_test false rest = (project-IsInside ds c (centroid ds i coords assign) home, rest)

  discover-IsDwelling :
      (coords : List (List D)) (k : ℕ)
      → IsInside ds c (center_d ds c)
      → IsDwelling (discover ds c coords k)
  unfolding discover IsDwelling
  discover-IsDwelling [] k home = tt
  discover-IsDwelling (p ∷ ps) k home =
      poles_of-IsDwelling (p ∷ ps) (clusters ds (p ∷ ps) k).0 0 (clusters ds (p ∷ ps) k).1 home

  nearest_pole-lt :
      (i best : ℕ) (d : D) (p : List D) (poles : List (RegionPole D))
      → best < i + length poles
      → nearest_pole ds i best d p poles < i + length poles
  unfolding nearest_pole
  nearest_pole-lt i best d p [] lt = lt
  nearest_pole-lt i best d p (pole ∷ poles) lt =
      let nearer = ds.below (dist2 ds (nought ds) p pole.center) d in
      let step =
        nearest_pole-lt (suc i) (if nearer then i else best)
          (if nearer then dist2 ds (nought ds) p pole.center else d) p poles (bound nearer) in
      omega arith
    where
      bound : (b : Bool) → (if b then i else best) < suc i + length poles
      bound true = omega arith
      bound false = omega arith

  -- the pole at an index
  pole_at-IsInside :
      (poles : List (RegionPole D)) (i : ℕ)
      → IsDwelling poles
      → i < length poles
      → IsInside ds c (elim (get_elem? poles i) [ none ↦ [] | some pole ↦ pole.center ])
  unfolding IsDwelling
  pole_at-IsInside [] i h lt = absurd (omega arith)
  pole_at-IsInside (pole ∷ poles) zero h lt = h.0
  pole_at-IsInside (pole ∷ poles) (suc i) h lt = pole_at-IsInside poles i h.1 (omega arith)

  home_for-IsDwelling :
      (poles : List (RegionPole D)) (p : List D)
      → IsDwelling poles
      → IsInside ds c (default_center ds)
      → IsInside ds c (home_for ds poles p)
  unfolding home_for nearest
  home_for-IsDwelling [] p h default = default
  home_for-IsDwelling (pole ∷ poles) p h default =
      pole_at-IsInside (pole ∷ poles) (nearest_pole ds 0 0 (largest ds) p (pole ∷ poles)) h
        (omega (arith, nearest_pole-lt 0 0 (largest ds) p (pole ∷ poles) (omega arith)))

  -- Where the default center and the center of the lattice in doubles are inside the lattice: whatever the
  -- memories are, and wherever a point is, its home is inside.
  pub home_for-IsInside :
      (coords : List (List D)) (k : ℕ) (p : List D)
      → IsInside ds c (center_d ds c)
      → IsInside ds c (default_center ds)
      → IsInside ds c (home_for ds (discover ds c coords k) p)
  home_for-IsInside coords k p home default =
      home_for-IsDwelling (discover ds c coords k) p (discover-IsDwelling coords k home) default
