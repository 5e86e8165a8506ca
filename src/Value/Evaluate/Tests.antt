-- ===== src/Value/Evaluate/Tests.antt =====
-- An evaluation in spring, of a vector outside the lattice. A double is an integer of thousandths.
use lina_cpx.Prelude.{
  ℕ, suc, ◌+◌, ◌/◌, ◌≡◌, refl, true, false, not, List, [], ◌∷◌, map, Option, none, Bytes, codes,
}
use lina_cpx.Prelude.Int.{ℤ, pos, negsuc, pos_part, neg_part, neg_ℤ, ◌+ℤ◌, ◌*ℤ◌, ltb_ℤ}
use lina_cpx.Core.Gate.{violation}
use lina_cpx.Prelude.{bytes_eq}
use lina_cpx.Value.Seasons.{Mpq, PolytopeConstraints, get_seasonal_bounds, from_season}
use lina_cpx.Value.Facets.{build_lattice}
use lina_cpx.Value.Lattice.{contains, midpoints}
use lina_cpx.Value.Project.{Doubles, center_d}
use lina_cpx.Value.Evaluate.{classify_zone, evaluate}
use lina_cpx.Value.Evaluate.Inside.{IsInside, IsSound, evaluate-IsSound}

-- the quotient, towards zero
abbrev pub divided_by : ℤ → ℕ → ℤ
divided_by (pos n) d = pos (n / d)
divided_by (negsuc n) d = neg_ℤ (pos (suc n / d))

abbrev pub rounded : Mpq → ℤ
rounded q = divided_by (q.num *ℤ pos 1000) q.den

abbrev pub size : ℤ → ℕ
size a = pos_part a + neg_part a

abbrev pub thousandths : Doubles ℤ
thousandths = record {
  below = ltb_ℤ;
  at_most = λ a b. not (ltb_ℤ b a);
  add = λ a b. a +ℤ b;
  sub = λ a b. a +ℤ neg_ℤ b;
  mul = λ a b. divided_by (a *ℤ b) 1000;
  div = λ a b. divided_by (a *ℤ pos 1000) (size b);
  abs = λ a. pos (size a);
  sqrt = λ a. a;
  is_finite = λ a. true;
  literal = rounded;
  of_mpq = rounded;
  exact = λ v. record { numerators = v; denominator = 1000 };
}

abbrev pub spring : PolytopeConstraints
spring = from_season (codes "spring")

-- dominant where harmony should lead
abbrev dominant : Bytes → Option Bytes → List ℤ
dominant text context =
    map (λ n. pos n)
      (500 ∷ 450 ∷ 700 ∷ 150 ∷ 800 ∷ 100 ∷ 700 ∷ 150 ∷ 750 ∷ 200 ∷ 750 ∷ 150 ∷ 650 ∷ 250 ∷ [])

pub home-IsInside : IsInside thousandths spring (center_d thousandths spring)
unfolding contains build_lattice from_season get_seasonal_bounds bytes_eq midpoints ◌+ℤ◌ ◌*ℤ◌
home-IsInside = refl

dominant_outside :
    (contains (build_lattice spring) (thousandths.exact (dominant [] none))).0 ≡ false
unfolding contains build_lattice from_season get_seasonal_bounds bytes_eq ◌+ℤ◌ ◌*ℤ◌
dominant_outside = refl

far_is_violation :
    (classify_zone thousandths (codes "spring") false (pos 0) (pos 121)).0 ≡ violation
unfolding classify_zone bytes_eq ◌*ℤ◌
far_is_violation = refl

evaluate-IsSound_example :
    IsSound thousandths spring
      (λ text. true)
      (λ text. false)
      (evaluate thousandths
        (λ text. true)
        (λ text. false)
        dominant
        spring
        (codes "obey, certainly")
        none
        true)
evaluate-IsSound_example =
    evaluate-IsSound thousandths spring (λ text. true) (λ text. false) dominant
      (codes "obey, certainly") none true home-IsInside
