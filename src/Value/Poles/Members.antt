-- ===== src/Value/Poles/Members.antt =====
-- The members of the home regions of src/value_engine.cpp: each memory belongs to one cluster.
use lina_cpx.Prelude.{
  ℕ, zero, suc, ◌+◌, ◌-◌, ◌≤◌, ◌<◌, ◌≡◌, refl, ap, ◌∙◌, Bool, true, false, subst, not, ◌&&◌, List,
  [], ◌∷◌, ◌++◌, map, bytes_eq, length, length-append, All, Bool-cases, inl, inr, ◌==◌, ==_iff,
  ==_ne, if◌then◌else◌, arith,
}
use lina_cpx.Value.Seasons.{PolytopeConstraints}
use lina_cpx.Value.Project.{Doubles, nought}
use lina_cpx.Value.Poles.{
  RegionPole, of_count, origin, dist2, mean_of, seeds, farthest_point, vector_at, minus_one,
  nearest_from, nearest_center, cluster_count, centroid, recentre, lloyd, poles_of, bounded,
  clusters, discover,
}

-- the members of so many clusters from `c` on
unfoldable pub counted : ℕ → ℕ → List ℕ → ℕ
counted c zero assign = 0
counted c (suc n) assign = cluster_count c assign + counted (suc c) n assign

count_same :
    (c a : ℕ) (assign : List ℕ)
    → a ≡ c
    → cluster_count c (a ∷ assign) ≡ suc (cluster_count c assign)
unfolding cluster_count
count_same c a assign e = ground arith

count_other :
    (c a : ℕ) (assign : List ℕ) → ¬ (a ≡ c) → cluster_count c (a ∷ assign) ≡ cluster_count c assign
unfolding cluster_count
count_other c a assign ne = ground arith

counted_before :
    (c n a : ℕ) (assign : List ℕ) → a < c → counted c n (a ∷ assign) ≡ counted c n assign
unfolding counted
counted_before c zero a assign lt = refl
counted_before c (suc n) a assign lt = omega (
  arith,
  count_other c a assign (λ e. omega arith),
  counted_before (suc c) n a assign (omega arith),
)

counted_cons :
    (c n a : ℕ) (assign : List ℕ)
    → c ≤ a
    → a < c + n
    → counted c n (a ∷ assign) ≡ suc (counted c n assign)
unfolding counted
counted_cons c zero a assign le lt = absurd (omega arith)
counted_cons c (suc n) a assign le lt = elim (Bool-cases (a == c)) [
  | inl e ↦
      let same : a ≡ c = (==_iff a c).0 e in
      omega (arith, count_same c a assign same, counted_before (suc c) n a assign (omega arith))
  | inr e ↦
      let other : ¬ (a ≡ c) = (==_ne a c).0 e in
      let below : a < suc c + n = omega arith in
      omega
        (arith, count_other c a assign other, counted_cons (suc c) n a assign (omega arith) below)
]

counted_nil : (c n : ℕ) → counted c n [] ≡ 0
unfolding counted cluster_count
counted_nil c zero = refl
counted_nil c (suc n) = omega (arith, counted_nil (suc c) n)

-- entries below `n` are each counted once
counted-All :
    (n : ℕ) (assign : List ℕ) → All (λ a. a < n) assign → counted 0 n assign ≡ length assign
counted-All n [] h = counted_nil 0 n
counted-All n (a ∷ assign) h =
    omega (
      arith,
      counted_cons 0 n a assign (omega arith) (omega (arith, h.0)),
      counted-All n assign h.1,
    )

module _ {D : Type 0} (ds : Doubles D) where
  nearest_from-lt :
      (c best : ℕ) (best_d : D) (p : List D) (xs : List (List D))
      → best < c
      → nearest_from ds c best best_d p xs < c + length xs
  unfolding nearest_from
  nearest_from-lt c best best_d p [] lt = omega arith
  nearest_from-lt c best best_d p (x ∷ xs) lt =
      let nearer = ds.below (dist2 ds (nought ds) p x) best_d in
      let step =
        nearest_from-lt (suc c) (if nearer then c else best)
          (if nearer then dist2 ds (nought ds) p x else best_d) p xs (bound nearer) in
      omega arith
    where
      bound : (b : Bool) → (if b then c else best) < suc c
      bound true = omega arith
      bound false = omega arith

  nearest_center-lt :
      (c p : List D) (cs : List (List D)) → nearest_center ds (c ∷ cs) p < length (c ∷ cs)
  unfolding nearest_center
  nearest_center-lt c p cs =
      omega (arith, nearest_from-lt 1 0 (dist2 ds (nought ds) p c) p cs (omega arith))

  length-recentre :
      (coords : List (List D)) (assign : List ℕ) (c : ℕ) (before rest : List (List D))
      → length (recentre ds coords assign c before rest).0 ≡ length before + length rest
  unfolding recentre
  length-recentre coords assign c before [] = omega arith
  length-recentre coords assign c before (old ∷ rest) =
      let idx = (farthest_point ds 0 0 (minus_one ds) coords (before ++ rest)).0 in
      let new =
        if cluster_count c assign == 0
        then vector_at ds coords idx
        else centroid ds c coords assign in
      omega (
        arith,
        length-recentre coords assign (suc c) (before ++ new ∷ []) rest,
        length-append before (new ∷ []),
      )

  assigned-All :
      (c : List D) (cs coords : List (List D))
      → All (λ a. a < length (c ∷ cs)) (map (nearest_center ds (c ∷ cs)) coords)
  assigned-All c cs [] = tt
  assigned-All c cs (p ∷ ps) = (nearest_center-lt c p cs, assigned-All c cs ps)

  length-map : (f : List D → ℕ) (ps : List (List D)) → length (map f ps) ≡ length ps
  length-map f [] = refl
  length-map f (p ∷ ps) = ap suc (length-map f ps)

  lloyd-Assigned :
      (n : ℕ) (coords : List (List D)) (assign : List ℕ) (centers : List (List D)) (k : ℕ)
      → 0 < k
      → length centers ≡ k
      → All (λ a. a < k) assign
      → length assign ≡ length coords
      → All (λ a. a < k) (lloyd ds n coords assign centers).0
        × (length (lloyd ds n coords assign centers).0 ≡ length coords)
  unfolding lloyd
  lloyd-Assigned zero coords assign centers k lt size below all = (below, all)
  lloyd-Assigned (suc n) coords assign [] k lt size below all = absurd (omega arith)
  lloyd-Assigned (suc n) coords assign (c ∷ cs) k lt size below all =
      let assign' = map (nearest_center ds (c ∷ cs)) coords in
      let ends = recentre ds coords assign' 0 [] (c ∷ cs) in
      let small : All (λ a. a < k) assign' =
        subst (λ m. All (λ a. a < m) assign') size (assigned-All c cs coords) in
      let more =
        lloyd-Assigned n coords assign' ends.0 k lt
          (omega (arith, length-recentre coords assign' 0 [] (c ∷ cs))) small
          (length-map (nearest_center ds (c ∷ cs)) coords) in
      by_test (bytes_eq assign assign' && not ends.1) (assign', ends.0)
        (lloyd ds n coords assign' ends.0) (small, length-map (nearest_center ds (c ∷ cs)) coords)
        more
    where
      P : List ℕ × List (List D) → Type 0
      P r = All (λ a. a < k) r.0 × (length r.0 ≡ length coords)

      by_test : (b : Bool) (x y : List ℕ × List (List D)) → P x → P y → P (if b then x else y)
      by_test true x y px py = px
      by_test false x y px py = py

  length-seeds :
      (k : ℕ) (coords centers : List (List D))
      → 0 < length centers
      → (0 < length (seeds ds k coords centers))
        × (length (seeds ds k coords centers) ≤ length centers + k)
  unfolding seeds
  length-seeds zero coords centers lt = (lt, omega arith)
  length-seeds (suc k) coords centers lt =
      let far = farthest_point ds 0 0 (minus_one ds) coords centers in
      let next = vector_at ds coords far.0 in
      let grown = length-append centers (next ∷ []) in
      let more = length-seeds k coords (centers ++ next ∷ []) (omega (arith, grown)) in
      ground (arith, grown)

  unfoldable pub sum_members : List (RegionPole D) → ℕ
  sum_members [] = 0
  sum_members (pole ∷ poles) = pole.member_count + sum_members poles

  poles_of-counted :
      (limits : PolytopeConstraints) (coords : List (List D)) (assign : List ℕ) (c n : ℕ)
      → (sum_members (poles_of ds limits coords assign c n) ≡ counted c n assign)
        × (length (poles_of ds limits coords assign c n) ≤ n)
  unfolding poles_of counted sum_members
  poles_of-counted limits coords assign c zero = (refl, omega arith)
  poles_of-counted limits coords assign c (suc n) =
      let rest = poles_of-counted limits coords assign (suc c) n in
      elim (Bool-cases (cluster_count c assign == 0)) [
        | inl e ↦ ground arith
        | inr e ↦ ground arith
      ]

  first_assigned : (coords : List (List D)) (k : ℕ) → 0 < k → All (λ a. a < k) (map (λ p. 0) coords)
  first_assigned [] k lt = tt
  first_assigned (p ∷ ps) k lt = (lt, first_assigned ps k lt)

  -- each of the points is assigned to one of the clusters
  clusters_all :
      (p : List D) (ps : List (List D)) (k : ℕ)
      → (counted 0 (clusters ds (p ∷ ps) k).1 (clusters ds (p ∷ ps) k).0 ≡ length (p ∷ ps))
        × ((clusters ds (p ∷ ps) k).1 ≤ bounded ds k (length (p ∷ ps)))
  unfolding clusters
  clusters_all p ps k =
      let coords = p ∷ ps in
      let most = bounded ds k (length coords) in
      let first = mean_of ds (of_count ds (length coords)) (origin ds) coords ∷ [] in
      let centers = seeds ds (most - 1) coords first in
      let sized = length-seeds (most - 1) coords first (omega arith) in
      let kk = length centers in
      let start : List ℕ = map (λ p. 0) coords in
      let assigned =
        lloyd-Assigned 40 coords start centers kk sized.0 refl (first_assigned coords kk sized.0)
          (length-map (λ p. 0) coords) in
      let all = counted-All kk (lloyd ds 40 coords start centers).0 assigned.0 in
      (all ∙ assigned.1, omega (arith, sized.1))

  -- Every memory is a member of one of the home regions, and of one only: the numbers of members add up to that
  -- of the memories. There are no more regions than memories, and 8 at most.
  pub sum_members-discover :
      (limits : PolytopeConstraints) (coords : List (List D)) (k : ℕ)
      → (sum_members (discover ds limits coords k) ≡ length coords)
        × (length (discover ds limits coords k) ≤ length coords)
        × (length (discover ds limits coords k) ≤ 8)
  unfolding discover sum_members
  sum_members-discover limits [] k = (refl, omega arith, omega arith)
  sum_members-discover limits (p ∷ ps) k =
      let all = clusters_all p ps k in
      let poles =
        poles_of-counted limits (p ∷ ps) (clusters ds (p ∷ ps) k).0 0 (clusters ds (p ∷ ps) k).1 in
      (poles.0 ∙ all.0, omega arith, omega arith)
