-- ===== src/Value/Poles.antt =====
-- `RegionPoleEngine` of src/value_engine.cpp: the home regions, found by k-means from the coordinates of the memories.
-- Doubles are of a type `D` with their operations; a vector is the list of its coordinates.
pub mod Members
pub mod Homes
mod Tests
use Prim.Native.Nat.{min, max}
use lina_cpx.Prelude.{
  ℕ, zero, suc, ◌+◌, ◌-◌, ◌*◌, ◌^◌, Bool, true, false, not, ◌&&◌, ◌||◌, List, [], ◌∷◌, ◌++◌, map,
  Option, none, some, bytes_eq, length, get_elem?, ltb, ◌==◌, if◌then◌else◌,
}
use lina_cpx.Prelude.Int.{negsuc}
use lina_cpx.Value.Seasons.{mpq, PolytopeConstraints}
use lina_cpx.Value.Project.{Doubles, each, nought, project}

pub record RegionPole (D : Type 0) : Type 0 where
  pub center : List D
  pub member_count : ℕ
  pub compactness : D

-- `counts[c]`
unfoldable pub cluster_count : ℕ → List ℕ → ℕ
cluster_count c [] = 0
cluster_count c (a ∷ assign) =
    let rest = cluster_count c assign in if a == c then suc rest else rest

module _ {D : Type 0} (ds : Doubles D) where
  abbrev pub of_count : ℕ → D
  of_count n = ds.of_mpq (mpq n 1)

  abbrev pub default_center : List D
  default_center =
      map (λ n. ds.literal (mpq n 100))
        (65 ∷ 25 ∷ 70 ∷ 15 ∷ 80 ∷ 10 ∷ 70 ∷ 15 ∷ 75 ∷ 20 ∷ 75 ∷ 15 ∷ 65 ∷ 25 ∷ [])

  -- `std::numeric_limits<double>::max()`
  unfoldable pub largest : D
  largest = ds.literal (mpq (2 ^ 1024 - 2 ^ 971) 1)

  abbrev pub origin : List D
  origin = map (λ n. nought ds) (default_center)

  -- `dist2`, from the sum so far
  unfoldable pub dist2 : D → List D → List D → D
  dist2 sum [] bs = sum
  dist2 sum (a ∷ cs) [] = sum
  dist2 sum (a ∷ cs) (b ∷ bs) = let d = ds.sub a b in dist2 (ds.add sum (ds.mul d d)) cs bs

  -- the entry at an index; the source reads within the bounds only
  abbrev pub vector_at : List (List D) → ℕ → List D
  vector_at vs i = elim (get_elem? vs i) [ none ↦ [] | some v ↦ v ]

  unfoldable pub mean_of : D → List D → List (List D) → List D
  mean_of n sum [] = sum
  mean_of n sum (c ∷ cs) = mean_of n (each ds ds.add sum (map (λ v. ds.div v n) c)) cs

  -- `dmin` of a point, from what it is so far
  unfoldable pub least_distance : D → List D → List (List D) → D
  unfolding dist2
  least_distance dmin p [] = dmin
  least_distance dmin p (c ∷ cs) =
      let d = dist2 (nought ds) p c in least_distance (if ds.below d dmin then d else dmin) p cs

  -- the point farthest from the centers, and its distance; `i` is the index of the next point
  unfoldable pub farthest_point : ℕ → ℕ → D → List (List D) → List (List D) → ℕ × D
  unfolding least_distance
  farthest_point i best best_dist [] centers = (best, best_dist)
  farthest_point i best best_dist (p ∷ ps) centers =
      let dmin = least_distance largest p centers in
      let farther = ds.below best_dist dmin in
      farthest_point (suc i) (if farther then i else best) (if farther then dmin else best_dist) ps
        centers

  abbrev pub minus_one : D
  minus_one = ds.literal (record { num = negsuc 0; den = 1 })

  -- so many more seeds
  unfoldable pub seeds : ℕ → List (List D) → List (List D) → List (List D)
  unfolding farthest_point
  seeds zero coords centers = centers
  seeds (suc k) coords centers =
      let (idx, dist) = farthest_point 0 0 minus_one coords centers in
      let more = seeds k coords (centers ++ vector_at coords idx ∷ []) in
      if ds.below dist (ds.literal (mpq 1 1000000000000)) then centers else more

  -- the loop over the centers from index `c` on, with the best one so far
  unfoldable pub nearest_from : ℕ → ℕ → D → List D → List (List D) → ℕ
  unfolding dist2
  nearest_from c best best_d p [] = best
  nearest_from c best best_d p (x ∷ xs) =
      let d = dist2 (nought ds) p x in
      let nearer = ds.below d best_d in
      nearest_from (suc c) (if nearer then c else best) (if nearer then d else best_d) p xs

  unfoldable pub nearest_center : List (List D) → List D → ℕ
  unfolding nearest_from dist2
  nearest_center [] p = 0
  nearest_center (c ∷ cs) p = nearest_from 1 0 (dist2 (nought ds) p c) p cs

  -- `sums[c]`, from what it is so far
  unfoldable pub cluster_sum : ℕ → List D → List (List D) → List ℕ → List D
  cluster_sum c sum [] assign = sum
  cluster_sum c sum (p ∷ ps) [] = sum
  cluster_sum c sum (p ∷ ps) (a ∷ assign) =
      cluster_sum c (if a == c then each ds ds.add sum p else sum) ps assign

  abbrev pub centroid : ℕ → List (List D) → List ℕ → List D
  centroid c coords assign =
      map (λ v. ds.div v (of_count (cluster_count c assign))) (cluster_sum c origin coords assign)

  -- The centers from index `c` on: `before` are the new ones, `rest` the old ones; and whether one was seeded again.
  unfoldable pub recentre :
      List (List D) → List ℕ → ℕ → List (List D) → List (List D) → List (List D) × Bool
  unfolding cluster_sum cluster_count farthest_point
  recentre coords assign c before [] = (before, false)
  recentre coords assign c before (old ∷ rest) =
      let empty = cluster_count c assign == 0 in
      let (idx, dist) = farthest_point 0 0 minus_one coords (before ++ rest) in
      let new = if empty then vector_at coords idx else centroid c coords assign in
      let (centers, reseeded) = recentre coords assign (suc c) (before ++ new ∷ []) rest in
      (centers, empty || reseeded)

  -- so many iterations, 40 in the source: the assignment and the centers
  unfoldable pub lloyd : ℕ → List (List D) → List ℕ → List (List D) → List ℕ × List (List D)
  unfolding nearest_center recentre
  lloyd zero coords assign centers = (assign, centers)
  lloyd (suc n) coords assign centers =
      let assign' = map (nearest_center centers) coords in
      let (centers', reseeded) = recentre coords assign' 0 [] centers in
      let more = lloyd n coords assign' centers' in
      if bytes_eq assign assign' && not reseeded then (assign', centers') else more

  -- the sum of the distances of the members, from what it is so far
  unfoldable pub spread : ℕ → D → List D → List (List D) → List ℕ → D
  unfolding dist2
  spread c acc center [] assign = acc
  spread c acc center (p ∷ ps) [] = acc
  spread c acc center (p ∷ ps) (a ∷ assign) =
      spread c (if a == c then ds.add acc (ds.sqrt (dist2 (nought ds) p center)) else acc) center ps
        assign

  abbrev pub pole_of : PolytopeConstraints → List (List D) → List ℕ → ℕ → RegionPole D
  pole_of limits coords assign c =
      let center = project ds limits (centroid c coords assign) in
      let count = cluster_count c assign in
      record {
        center = center;
        member_count = count;
        compactness = ds.div (spread c (nought ds) center coords assign) (of_count count);
      }

  -- the poles of so many clusters from index `c` on; the empty ones have none
  unfoldable pub poles_of :
      PolytopeConstraints → List (List D) → List ℕ → ℕ → ℕ → List (RegionPole D)
  unfolding cluster_count cluster_sum spread
  poles_of limits coords assign c zero = []
  poles_of limits coords assign c (suc n) =
      let rest = poles_of limits coords assign (suc c) n in
      if cluster_count c assign == 0 then rest else pole_of limits coords assign c ∷ rest

  -- `std::clamp(k, 1, 8)`, and at most one for each point
  abbrev pub bounded : ℕ → ℕ → ℕ
  bounded k n = min (max 1 (min k 8)) n

  -- the assignment of the points, and the number of the clusters
  unfoldable pub clusters : List (List D) → ℕ → List ℕ × ℕ
  unfolding mean_of seeds lloyd
  clusters coords k =
      let n = length coords in
      let centers = seeds (bounded k n - 1) coords (mean_of (of_count n) origin coords ∷ []) in
      ((lloyd 40 coords (map (λ p. 0) coords) centers).0, length centers)

  unfoldable pub discover : PolytopeConstraints → List (List D) → ℕ → List (RegionPole D)
  unfolding clusters poles_of
  discover limits [] k = []
  discover limits (p ∷ ps) k =
      let (assign, kk) = clusters (p ∷ ps) k in poles_of limits (p ∷ ps) assign 0 kk

  -- the loop over the poles from index `i` on
  unfoldable pub nearest_pole : ℕ → ℕ → D → List D → List (RegionPole D) → ℕ
  unfolding dist2
  nearest_pole i best best_d p [] = best
  nearest_pole i best best_d p (pole ∷ poles) =
      let d = dist2 (nought ds) p pole.center in
      let nearer = ds.below d best_d in
      nearest_pole (suc i) (if nearer then i else best) (if nearer then d else best_d) p poles

  -- `nearest`; `none` is `npos`
  unfoldable pub nearest : List (RegionPole D) → List D → Option ℕ
  unfolding nearest_pole
  nearest [] p = none
  nearest (pole ∷ poles) p = some (nearest_pole 0 0 largest p (pole ∷ poles))

  unfoldable pub home_for : List (RegionPole D) → List D → List D
  unfolding nearest
  home_for poles p = elim (nearest poles p) [
    | none ↦ default_center
    | some i ↦ elim (get_elem? poles i) [ none ↦ [] | some pole ↦ pole.center ]
  ]
