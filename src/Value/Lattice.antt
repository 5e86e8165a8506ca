-- ===== src/Value/Lattice.antt =====
-- `EthicalPolytope` of src/value_engine.cpp: the test of a point against the lattice, and the centre.
-- The coordinates of a point are doubles, each a fraction with a power of two below, so that they have a
-- common denominator: a point is its numerators over that one.
pub mod Center
mod Dots
pub mod Inside
pub mod Wider
use lina_cpx.Prelude.{
  ℕ, zero, suc, ◌+◌, ◌*◌, ◌/◌, ◌%◌, Bool, true, false, not, ◌&&◌, List, [], ◌∷◌, ◌++◌, Option, none,
  some, Bytes, codes, get_elem?, is_empty, map, ◌==◌, if◌then◌else◌,
}
use lina_cpx.Prelude.Int.{ℤ, pos, negsuc, pos_part, neg_part, neg_ℤ, ◌+ℤ◌, ◌*ℤ◌, ltb_ℤ}
use lina_cpx.Value.Facets.{
  dimension_names, dimension_name, Halfspace, CouplingFacet, coupling_facets, set, zeros,
  upper_facet, lower_facet, axis_facets, lead_facet, sum_facet, plumb_facets, build_lattice,
}
use lina_cpx.Value.Seasons.{Mpq, mpq, PolytopeConstraints, lower_bounds, upper_bounds, from_season}

pub record Point : Type 0 where
  pub numerators : List ℤ
  pub denominator : ℕ

-- `dot += facet.normal[i] * pt[i]`, over the point's denominator
unfoldable pub dot : ℤ → List ℤ → List ℤ → ℤ
dot sum [] ps = sum
dot sum (n ∷ ns) [] = sum
dot sum (n ∷ ns) (p ∷ ps) = dot (sum +ℤ n *ℤ p) ns ps

-- `dot > facet.threshold`
unfoldable pub exceeds : Halfspace → Point → Bool
unfolding dot
exceeds f x =
    ltb_ℤ (f.threshold.num *ℤ pos x.denominator)
      (dot (pos 0) f.normal x.numerators *ℤ pos f.threshold.den)

pub data Violated : Type 0 where
  above_maximum below_minimum facet : Violated

pub record ViolationInfo : Type 0 where
  -- `none` for -1
  pub dimension : Option ℕ
  pub name : Bytes
  pub type : Violated
  -- the doubles of the code, before they are rounded
  pub value : Mpq
  pub bound : Mpq
  pub severity : Mpq

abbrev is_zero : ℤ → Bool
is_zero n = pos_part n == 0 && neg_part n == 0

-- The only axis of a normal, from dimension `i` on, where `seen` is the one found before; `none` when it has
-- none or two.
unfoldable pub axis_of : ℕ → Option ℕ → List ℤ → Option ℕ
axis_of i seen [] = seen
axis_of i none (n ∷ ns) =
    let rest = axis_of (suc i) (some i) ns in
    let skipped = axis_of (suc i) none ns in if is_zero n then skipped else rest
axis_of i (some j) (n ∷ ns) =
    let rest = axis_of (suc i) (some j) ns in if is_zero n then rest else none

-- `norm_squared`
unfoldable pub norm_squared : List ℤ → ℕ
norm_squared [] = 0
norm_squared (n ∷ ns) = (pos_part n + neg_part n) * (pos_part n + neg_part n) + norm_squared ns

abbrev pub coord : List ℤ → ℕ → ℤ
coord [] i = pos 0
coord (p ∷ ps) zero = p
coord (p ∷ ps) (suc i) = coord ps i

-- `q / d`, and 0 when `d` is 0
abbrev divided : Mpq → ℕ → Mpq
divided q d = if d == 0 then mpq 0 1 else (record { num = q.num; den = q.den * d })

-- `dot - facet.threshold`
abbrev pub excess : Halfspace → Point → Mpq
excess f x = record {
  num =
      dot (pos 0) f.normal x.numerators *ℤ pos f.threshold.den
      +ℤ neg_ℤ (f.threshold.num *ℤ pos x.denominator);
  den = x.denominator * f.threshold.den;
}

abbrev axis_info : Halfspace → Point → ℕ → ViolationInfo
axis_info f x i = record {
  dimension = some i;
  name = dimension_name i;
  type = if ltb_ℤ (pos 0) (coord f.normal i) then above_maximum else below_minimum;
  value = record { num = coord x.numerators i; den = x.denominator };
  bound = f.threshold;
  severity = excess f x;
}

abbrev facet_info : Halfspace → Point → ViolationInfo
facet_info f x =
    let d = norm_squared f.normal in
    record {
      dimension = none;
      name = f.name;
      type = facet;
      value = divided (record { num = dot (pos 0) f.normal x.numerators; den = x.denominator }) d;
      bound = divided f.threshold d;
      severity = divided (excess f x) d;
    }

unfoldable pub violation_of : Halfspace → Point → ViolationInfo
unfolding axis_of norm_squared dot
violation_of f x = elim (axis_of 0 none f.normal) [
  | none ↦ facet_info f x
  | some i ↦ axis_info f x i
]

unfoldable pub violations : List Halfspace → Point → List ViolationInfo
unfolding exceeds violation_of
violations [] x = []
violations (f ∷ fs) x =
    let rest = violations fs x in if exceeds f x then violation_of f x ∷ rest else rest

unfoldable pub contains : List Halfspace → Point → Bool × List ViolationInfo
unfolding violations
contains facets x = (is_empty (violations facets x), violations facets x)

-- `(lower + upper) / 2`
abbrev midpoint : Mpq → Mpq → Mpq
midpoint l u = record { num = l.num *ℤ pos u.den +ℤ u.num *ℤ pos l.den; den = l.den * u.den * 2 }

unfoldable pub midpoints : List Mpq → List Mpq → List Mpq
midpoints [] us = []
midpoints (l ∷ ls) [] = []
midpoints (l ∷ ls) (u ∷ us) = midpoint l u ∷ midpoints ls us

unfoldable pub common_denominator : List Mpq → ℕ
common_denominator [] = 1
common_denominator (q ∷ qs) = q.den * common_denominator qs

abbrev over : ℕ → Mpq → ℤ
over d q = q.num *ℤ pos (d / q.den)

-- fractions as a point, over the product of their denominators
unfoldable pub point_of : List Mpq → Point
unfolding common_denominator
point_of qs = record {
  numerators = map (over (common_denominator qs)) qs;
  denominator = common_denominator qs;
}

unfoldable pub center : PolytopeConstraints → Point
unfolding midpoints point_of
center c = point_of (midpoints (lower_bounds c) (upper_bounds c))
