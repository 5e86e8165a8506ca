-- ===== src/Value/Facets.antt =====
-- The lattice of halfspaces of src/value_engine.cpp, from the bounds of a season and the couplings of
-- include/value_engine.hpp.
use lina_cpx.Prelude.{
  ℕ, zero, suc, ◌%◌, Bool, true, List, [], ◌∷◌, ◌++◌, none, some, Bytes, codes, get_elem?, ◌==◌,
}
use lina_cpx.Prelude.Int.{ℤ, pos, negsuc, neg_ℤ}
use lina_cpx.Value.Seasons.{Mpq, mpq, PolytopeConstraints, lower_bounds, upper_bounds}

abbrev pub dimension_names : List Bytes
dimension_names =
    codes "harmony"
    ∷ codes "dominance"
    ∷ codes "order"
    ∷ codes "chaos"
    ∷ codes "integrity"
    ∷ codes "deception"
    ∷ codes "flourishing"
    ∷ codes "decline"
    ∷ codes "relationships"
    ∷ codes "isolation"
    ∷ codes "boundaries"
    ∷ codes "intrusion"
    ∷ codes "grace"
    ∷ codes "rigidity"
    ∷ []

abbrev pub dimension_name : ℕ → Bytes
dimension_name i = elim (get_elem? dimension_names i) [ none ↦ [] | some s ↦ s ]

pub record Halfspace : Type 0 where
  pub normal : List ℤ
  pub threshold : Mpq
  pub name : Bytes
  pub critical : Bool

pub record CouplingFacet : Type 0 where
  pub pos_idx : ℕ
  pub neg_idx : ℕ
  pub lead_num : ℕ
  pub lead_den : ℕ
  pub sum_num : ℕ
  pub sum_den : ℕ

abbrev coupled : ℕ → ℕ → ℕ → ℕ → ℕ → ℕ → CouplingFacet
coupled p n ln ld sn sd = record {
  pos_idx = p;
  neg_idx = n;
  lead_num = ln;
  lead_den = ld;
  sum_num = sn;
  sum_den = sd;
}

abbrev pub coupling_facets : List CouplingFacet
coupling_facets =
    coupled 0 1 1 5 11 10
    ∷ coupled 2 3 7 20 21 20
    ∷ coupled 4 5 1 2 11 10
    ∷ coupled 6 7 7 20 21 20
    ∷ coupled 8 9 7 20 23 20
    ∷ coupled 10 11 2 5 11 10
    ∷ coupled 12 13 1 5 11 10
    ∷ []

-- `normal[i] = v`
unfoldable pub set : ℕ → ℤ → List ℤ → List ℤ
set i v [] = []
set zero v (n ∷ ns) = v ∷ ns
set (suc i) v (n ∷ ns) = n ∷ set i v ns

unfoldable pub zeros : ℕ → List ℤ
zeros zero = []
zeros (suc n) = pos 0 ∷ zeros n

abbrev pub upper_facet : ℕ → Mpq → Halfspace
upper_facet i u = record {
  normal = set i (pos 1) (zeros 14);
  threshold = u;
  name = dimension_name i ++ codes "_max";
  critical = i % 2 == 1;
}

abbrev pub lower_facet : ℕ → Mpq → Halfspace
lower_facet i l = record {
  normal = set i (negsuc 0) (zeros 14);
  threshold = record { num = neg_ℤ l.num; den = l.den };
  name = dimension_name i ++ codes "_min";
  critical = i % 2 == 0;
}

-- the axis-aligned halfspaces, from dimension `i` on
unfoldable pub axis_facets : ℕ → List Mpq → List Mpq → List Halfspace
axis_facets i [] us = []
axis_facets i (l ∷ ls) [] = []
axis_facets i (l ∷ ls) (u ∷ us) = upper_facet i u ∷ lower_facet i l ∷ axis_facets (suc i) ls us

abbrev pub lead_facet : CouplingFacet → Halfspace
lead_facet c = record {
  normal = set c.neg_idx (pos 1) (set c.pos_idx (negsuc 0) (zeros 14));
  threshold = record { num = neg_ℤ (pos c.lead_num); den = c.lead_den };
  name = dimension_name c.pos_idx ++ codes "_leads_" ++ dimension_name c.neg_idx;
  critical = true;
}

abbrev pub sum_facet : CouplingFacet → Halfspace
sum_facet c = record {
  normal = set c.neg_idx (pos 1) (set c.pos_idx (pos 1) (zeros 14));
  threshold = mpq c.sum_num c.sum_den;
  name = dimension_name c.pos_idx ++ codes "_+" ++ dimension_name c.neg_idx ++ codes "_restrained";
  critical = true;
}

unfoldable pub plumb_facets : List CouplingFacet → List Halfspace
plumb_facets [] = []
plumb_facets (c ∷ cs) = lead_facet c ∷ sum_facet c ∷ plumb_facets cs

unfoldable pub build_lattice : PolytopeConstraints → List Halfspace
unfolding axis_facets plumb_facets set zeros
build_lattice c = axis_facets 0 (lower_bounds c) (upper_bounds c) ++ plumb_facets coupling_facets
