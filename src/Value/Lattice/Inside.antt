-- ===== src/Value/Lattice/Inside.antt =====
-- What `contains` of src/value_engine.cpp tests: the bounds of each dimension and the two rules of each pair.
use lina_cpx.Prelude.{
  ℕ, suc, ◌+◌, ◌<◌, ◌≤◌, ◌≡◌, ◌≢◌, refl, sym, subst, ap, ◌∙◌, ◌↔◌, Bool, true, false, List, [], ◌∷◌,
  ◌++◌, length, is_empty, arith, All, All-append_iff, All-append, if◌then◌else◌,
}
use lina_cpx.Prelude.Int.{
  ℤ, pos, negsuc, neg_ℤ, neg_ℤ-*ℤ-pos, neg_ℤ_flip, ◌+ℤ◌, ◌*ℤ◌, ◌≤ℤ◌, not_ltb_ℤ_iff,
}
use lina_cpx.Value.Seasons.{Mpq, mpq, PolytopeConstraints, lower_bounds, upper_bounds}
use lina_cpx.Value.Lattice.Dots.{dot_unit, dot_pair, plus_once, minus_once, minus_plus, plus_plus}
use lina_cpx.Value.Facets.{
  Halfspace, CouplingFacet, coupling_facets, upper_facet, lower_facet, axis_facets, lead_facet,
  sum_facet, plumb_facets, build_lattice,
}
use lina_cpx.Value.Lattice.{
  Point, ViolationInfo, violation_of, dot, exceeds, coord, violations, contains,
}

-- `p / d ≤ q` and `q ≤ p / d`
abbrev pub AtMost : ℕ → ℤ → Mpq → Type 0
AtMost d p q = p *ℤ pos q.den ≤ℤ q.num *ℤ pos d

abbrev pub AtLeast : ℕ → ℤ → Mpq → Type 0
AtLeast d p q = q.num *ℤ pos d ≤ℤ p *ℤ pos q.den

-- the bounds hold for the dimensions from `i` on
abbrev pub InBox : ℕ → List Mpq → List Mpq → Point → Type 0
InBox i [] us x = Unit
InBox i (l ∷ ls) [] x = Unit
InBox i (l ∷ ls) (u ∷ us) x =
    AtMost x.denominator (coord x.numerators i) u
    × AtLeast x.denominator (coord x.numerators i) l
    × InBox (suc i) ls us x

-- the virtue leads its shadow by the least lead
abbrev pub Leads : Point → CouplingFacet → Type 0
Leads x c =
    AtLeast x.denominator (coord x.numerators c.pos_idx +ℤ neg_ℤ (coord x.numerators c.neg_idx))
      (mpq c.lead_num c.lead_den)

-- their sum keeps to the greatest
abbrev pub Restrains : Point → CouplingFacet → Type 0
Restrains x c =
    AtMost x.denominator (coord x.numerators c.pos_idx +ℤ coord x.numerators c.neg_idx)
      (mpq c.sum_num c.sum_den)

abbrev pub Within : Point → Halfspace → Type 0
Within x f = AtMost x.denominator (dot (pos 0) f.normal x.numerators) f.threshold

exceeds-Within : (f : Halfspace) (x : Point) → (exceeds f x ≡ false) ↔ Within x f
unfolding exceeds
exceeds-Within f x =
    not_ltb_ℤ_iff (f.threshold.num *ℤ pos x.denominator)
      (dot (pos 0) f.normal x.numerators *ℤ pos f.threshold.den)

no_violation :
    (b : Bool) (v : ViolationInfo) (vs : List ViolationInfo) {A B : Type 0}
    → (b ≡ false → A)
    → (is_empty vs ≡ true → B)
    → is_empty (if b then v ∷ vs else vs) ≡ true
    → A × B
no_violation true v vs k l h = cc
no_violation false v vs k l h = (k refl, l h)

pub contains-Within :
    (fs : List Halfspace) (x : Point) → ((contains fs x).0 ≡ true) ↔ All (Within x) fs
unfolding contains violations
contains-Within [] x = (λ h. tt, λ h. refl)
contains-Within (f ∷ fs) x =
    let ih = contains-Within fs x in
    let here = exceeds-Within f x in
    (
      λ h. no_violation (exceeds f x) (violation_of f x) (violations fs x) here.0 ih.0 h,
      λ (k, ks). rw (here.1 k) (ih.1 ks),
    )

-- `-p / d ≤ -q` is `q ≤ p / d`
AtMost-neg_ℤ :
    (d : ℕ) (p : ℤ) (q : Mpq)
    → AtMost d (neg_ℤ p) (record { num = neg_ℤ q.num; den = q.den }) ↔ AtLeast d p q
AtMost-neg_ℤ d p q =
    rw (neg_ℤ-*ℤ-pos p q.den, neg_ℤ-*ℤ-pos q.num d) (neg_ℤ_flip (p *ℤ pos q.den) (q.num *ℤ pos d))

upper_Within :
    (i : ℕ) (u : Mpq) (x : Point)
    → i < 14
    → Within x (upper_facet i u) ≡ AtMost x.denominator (coord x.numerators i) u
upper_Within i u x h =
    ap (λ p. AtMost x.denominator p u)
      (dot_unit i (pos 1) x.numerators h ∙ plus_once (coord x.numerators i))

lower_Within :
    (i : ℕ) (l : Mpq) (x : Point)
    → i < 14
    → Within x (lower_facet i l) ↔ AtLeast x.denominator (coord x.numerators i) l
lower_Within i l x h =
    rw (dot_unit i (negsuc 0) x.numerators h, minus_once (coord x.numerators i))
      (AtMost-neg_ℤ x.denominator (coord x.numerators i) l)

module _ (c : CouplingFacet) (x : Point) (h : c.pos_idx < 14) (k : c.neg_idx < 14)
    (ne : c.pos_idx ≢ c.neg_idx) where
  lead_Within : Within x (lead_facet c) ↔ Leads x c
  lead_Within =
      let p = coord x.numerators c.pos_idx in
      let n = coord x.numerators c.neg_idx in
      rw (dot_pair c.pos_idx c.neg_idx (negsuc 0) (pos 1) x.numerators h k ne, minus_plus p n)
        (AtMost-neg_ℤ x.denominator (p +ℤ neg_ℤ n) (mpq c.lead_num c.lead_den))

  sum_Within : Within x (sum_facet c) ≡ Restrains x c
  sum_Within =
      let p = coord x.numerators c.pos_idx in
      let n = coord x.numerators c.neg_idx in
      ap (λ t. AtMost x.denominator t (mpq c.sum_num c.sum_den))
        (dot_pair c.pos_idx c.neg_idx (pos 1) (pos 1) x.numerators h k ne ∙ plus_plus p n)

axis_facets-InBox :
    (i : ℕ) (ls us : List Mpq) (x : Point)
    → i + length ls ≤ 14
    → All (Within x) (axis_facets i ls us) ↔ InBox i ls us x
unfolding axis_facets
axis_facets-InBox i [] us x h = (λ a. tt, λ a. tt)
axis_facets-InBox i (l ∷ ls) [] x h = (λ a. tt, λ a. tt)
axis_facets-InBox i (l ∷ ls) (u ∷ us) x h =
    let lt : i < 14 = omega arith in
    let up = upper_Within i u x lt in
    let low = lower_Within i l x lt in
    let ih = axis_facets-InBox (suc i) ls us x (omega arith) in
    (
      λ (a, (b, r)). (subst (λ T. T) up a, low.0 b, ih.0 r),
      λ (a, b, r). (subst (λ T. T) (sym up) a, (low.1 b, ih.1 r)),
    )

-- the two dimensions of a pair are two of the fourteen
abbrev IsPair : CouplingFacet → Type 0
IsPair c = (c.pos_idx < 14) × (c.neg_idx < 14) × (c.pos_idx ≢ c.neg_idx)

plumb_facets-Leads :
    (cs : List CouplingFacet) (x : Point)
    → All IsPair cs
    → All (Within x) (plumb_facets cs) ↔ All (λ c. Leads x c × Restrains x c) cs
unfolding plumb_facets
plumb_facets-Leads [] x h = (λ a. tt, λ a. tt)
plumb_facets-Leads (c ∷ cs) x ((p, n, ne), hs) =
    let lead = lead_Within c x p n ne in
    let sum = sum_Within c x p n ne in
    let ih = plumb_facets-Leads cs x hs in
    (
      λ (a, (b, r)). ((lead.0 a, subst (λ T. T) sum b), ih.0 r),
      λ ((a, b), r). (lead.1 a, (subst (λ T. T) (sym sum) b, ih.1 r)),
    )

pairs : All IsPair coupling_facets
pairs = ground arith

-- A point passes just when each of its coordinates is within the bounds of its dimension, and in each pair the
-- virtue leads its shadow by the least lead and their sum keeps to the greatest.
pub contains_iff :
    (c : PolytopeConstraints) (x : Point)
    → ((contains (build_lattice c) x).0 ≡ true) ↔ (
        InBox 0 (lower_bounds c) (upper_bounds c) x
        × All (λ f. Leads x f × Restrains x f) coupling_facets)
unfolding build_lattice
contains_iff c x =
    let axes = axis_facets 0 (lower_bounds c) (upper_bounds c) in
    let plumb = plumb_facets coupling_facets in
    let all = contains-Within (axes ++ plumb) x in
    let box = axis_facets-InBox 0 (lower_bounds c) (upper_bounds c) x (omega arith) in
    let keep = plumb_facets-Leads coupling_facets x pairs in
    (
      λ h. let (a, b) = All-append_iff (Within x) axes plumb (all.0 h) in (box.0 a, keep.0 b),
      λ (a, b). all.1 (All-append (Within x) axes plumb (box.1 a) (keep.1 b)),
    )
