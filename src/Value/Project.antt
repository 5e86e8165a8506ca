-- ===== src/Value/Project.antt =====
-- `project` of src/value_engine.cpp: alternating projections in doubles, then the exact test with its nudges and
-- the centre as the last resort. Doubles are of a type `D` with the operations that the code uses.
use lina_cpx.Prelude.{
  ℕ, zero, suc, ◌*◌, Bool, true, false, not, ◌&&◌, ◌||◌, List, [], ◌∷◌, map, if◌then◌else◌, ◌==◌,
}
use lina_cpx.Value.Seasons.{Mpq, mpq, PolytopeConstraints, lower_bounds, upper_bounds}
use lina_cpx.Value.Facets.{Halfspace, build_lattice}
use lina_cpx.Value.Lattice.{Point, contains, exceeds, excess, norm_squared, midpoints}

pub record Doubles (D : Type 0) : Type 0 where
  pub below : D → D → Bool
  pub at_most : D → D → Bool
  pub add : D → D → D
  pub sub : D → D → D
  pub mul : D → D → D
  pub div : D → D → D
  pub abs : D → D
  pub sqrt : D → D
  pub is_finite : D → Bool
  -- a literal of the source, and `get_d`
  pub literal : Mpq → D
  pub of_mpq : Mpq → D
  -- `to_mpq` of finite doubles, over a common denominator; at others `mpq_set_d` ends the program,
  -- and what `exact` says of them stands for no run of it
  pub exact : List D → Point

module _ {D : Type 0} (ds : Doubles D) where
  abbrev pub nought : D
  nought = ds.literal (mpq 0 1)

  -- `std::max`
  abbrev pub larger : D → D → D
  larger a b = if ds.below a b then b else a

  abbrev normal_d : Halfspace → List D
  normal_d f = map (λ n. ds.of_mpq (record { num = n; den = 1 })) f.normal

  unfoldable pub each : (D → D → D) → List D → List D → List D
  each op [] bs = []
  each op (a ∷ cs) [] = []
  each op (a ∷ cs) (b ∷ bs) = op a b ∷ each op cs bs

  -- `dot` and `norm`, from what they are so far
  unfoldable pub dot_norm : D → D → List D → List D → D × D
  dot_norm dot norm [] zs = (dot, norm)
  dot_norm dot norm (a ∷ cs) [] = (dot, norm)
  dot_norm dot norm (a ∷ cs) (z ∷ zs) =
      dot_norm (ds.add dot (ds.mul a z)) (ds.add norm (ds.mul a a)) cs zs

  -- `max_move`, from what it is so far
  unfoldable pub farthest : D → List D → List D → D
  farthest m [] os = m
  farthest m (n ∷ ns) [] = m
  farthest m (n ∷ ns) (o ∷ os) = farthest (larger m (ds.abs (ds.sub n o))) ns os

  -- one facet: the point, its correction and the farthest move so far
  unfoldable pub project_facet : Halfspace → List D → List D → D → List D × List D × D
  unfolding each dot_norm farthest
  project_facet f y p move =
      let z = each ds.add y p in
      let normal = normal_d f in
      let (dot, norm) = dot_norm nought nought normal z in
      let viol = ds.sub dot (ds.of_mpq f.threshold) in
      let y' = each (λ z a. ds.sub z (ds.mul (ds.div viol norm) a)) z normal in
      if ds.at_most norm nought
      then (y, p, move)
      else if ds.at_most viol nought
      then (z, map (λ c. nought) p, move)
      else (y', each ds.sub z y', farthest move y' z)

  -- one iteration over the facets with their corrections
  unfoldable pub sweep : List Halfspace → List (List D) → List D → D → List (List D) × List D × D
  unfolding project_facet
  sweep [] ps y move = ([], y, move)
  sweep (f ∷ fs) [] y move = ([], y, move)
  sweep (f ∷ fs) (p ∷ ps) y move =
      let (y', p', move') = project_facet f y p move in
      let (ps', y'', move'') = sweep fs ps y' move' in (p' ∷ ps', y'', move'')

  unfoldable pub all_finite : List D → Bool
  all_finite [] = true
  all_finite (v ∷ vs) = ds.is_finite v && all_finite vs

  -- at most so many iterations
  unfoldable pub iterate : ℕ → List Halfspace → List (List D) → List D → List D
  unfolding sweep all_finite
  iterate zero fs ps y = y
  iterate (suc n) fs ps y =
      let (ps', y', move) = sweep fs ps y nought in
      elim (ds.below move (ds.literal (mpq 1 1000000000000)) || not (all_finite y')) [
        | true ↦ y'
        | false ↦ iterate n fs ps' y'
      ]

  -- the inward step of each facet that is violated, and whether there was one
  unfoldable pub step_inward : List Halfspace → List D → Bool → List D × Bool
  unfolding exceeds norm_squared each
  step_inward [] v moved = (v, moved)
  step_inward (f ∷ fs) v moved =
      let x = ds.exact v in
      let over = excess f x in
      let denom = norm_squared f.normal in
      let step =
        ds.add (ds.of_mpq (record { num = over.num; den = over.den * denom }))
          (ds.literal (mpq 1 10000000000000)) in
      let inward = each (λ c a. ds.sub c (ds.mul a step)) v (normal_d f) in
      let (v', moved') = if exceeds f x && not (denom == 0) then (inward, true) else (v, moved) in
      step_inward fs v' moved'

  -- at most so many rounds of nudges
  unfoldable pub nudge : ℕ → List Halfspace → List D → List D
  unfolding step_inward
  nudge zero fs v = v
  nudge (suc n) fs v = elim (contains fs (ds.exact v)).0 [
    | true ↦ v
    | false ↦
        let (v', moved) = step_inward fs v false in elim moved [ true ↦ nudge n fs v' | false ↦ v' ]
  ]

  -- the centre in doubles
  abbrev pub center_d : PolytopeConstraints → List D
  center_d c = map ds.of_mpq (midpoints (lower_bounds c) (upper_bounds c))

  -- the last resort
  unfoldable pub settle : PolytopeConstraints → List D → List D
  settle c v = if (contains (build_lattice c) (ds.exact v)).0 then v else center_d c

  unfoldable pub project : PolytopeConstraints → List D → List D
  unfolding iterate nudge settle
  project c x =
      let fs = build_lattice c in
      let none = map (λ f. map (λ n. nought) f.normal) fs in
      settle c (nudge 200 fs (iterate 2000 fs none x))
