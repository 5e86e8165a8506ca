-- ===== src/Value/Evaluate.antt =====
-- `ValueEngine::evaluate` of src/value_engine.cpp with the scores, the correction, the zones and the wisdom
-- filter. The encoder, with the biases put on, and the searches of the wisdom filter's expressions are
-- parameters.
pub mod Inside
pub mod Tests
use lina_cpx.Prelude.{
  ℕ, ◌*◌, Bool, true, false, not, ◌||◌, List, [], ◌∷◌, ◌++◌, Option, none, some, Bytes, codes, map,
  take, bytes_eq, if◌then◌else◌,
}
use lina_cpx.Prelude.Int.{pos, pos_part, neg_ℤ, ◌*ℤ◌, ltb_ℤ}
use lina_cpx.Core.Gate.{Zone, aligned, acceptable_variance, violation}
use lina_cpx.Value.Seasons.{Mpq, mpq, PolytopeConstraints}
use lina_cpx.Value.Facets.{Halfspace, build_lattice}
use lina_cpx.Value.Lattice.{Point, ViolationInfo, contains, excess, center}
use lina_cpx.Value.Project.{Doubles, nought, project}

-- `a < b` of rationals
abbrev pub less : Mpq → Mpq → Bool
less a b = ltb_ℤ (a.num *ℤ pos b.den) (b.num *ℤ pos a.den)

-- `facet.threshold - dot`
abbrev pub margin : Halfspace → Point → Mpq
margin f x = record { num = neg_ℤ (excess f x).num; den = (excess f x).den }

-- the margins of the critical facets
unfoldable pub lattice_margins : List Halfspace → Point → List Mpq
lattice_margins [] x = []
lattice_margins (f ∷ fs) x =
    let rest = lattice_margins fs x in if f.critical then margin f x ∷ rest else rest

abbrev smaller : Mpq → Mpq → Mpq
smaller m n = if less n m then n else m

unfoldable pub least_from : Mpq → List Mpq → Mpq
least_from m [] = m
least_from m (n ∷ ns) = least_from (smaller m n) ns

-- the least of the margins; there are some
unfoldable pub least : List Mpq → Mpq
unfolding least_from
least [] = mpq 0 1
least (m ∷ ms) = least_from m ms

-- `a / b`, for a positive `b`
abbrev quotient : Mpq → Mpq → Mpq
quotient a b = record { num = a.num *ℤ pos b.den; den = a.den * pos_part b.num }

pub data Advice : Type 0 where
  overconfidence humility validation : Advice

pub record EvaluationResult (D : Type 0) : Type 0 where
  pub is_aligned : Bool
  pub alignment_score : D
  pub decision_vector : List D
  pub violations : List ViolationInfo
  pub was_corrected : Bool
  pub correction_vector : List D
  pub correction_magnitude : D
  pub wisdom_filter_applied : Bool
  pub overconfidence_detected : Bool
  pub humility_added : Bool
  pub validation_suggested : Bool
  pub wisdom_adjustments : List Advice
  pub response_summary : Bytes
  pub season : Bytes
  pub zone : Zone
  pub boundary_distance : D
  pub variance_margin_used : D

module _ {D : Type 0} (ds : Doubles D) where
  unfoldable pub clamp_unit : D → D
  clamp_unit v =
      let one = ds.literal (mpq 1 1) in
      if ds.below v (nought ds) then nought ds else if ds.below one v then one else v

  unfoldable pub alignment_score : PolytopeConstraints → List D → D
  unfolding lattice_margins least clamp_unit
  alignment_score c v =
      let fs = build_lattice c in
      let here = least (lattice_margins fs (ds.exact v)) in
      let home = least (lattice_margins fs (center c)) in
      if not (contains fs (ds.exact v)).0
      then nought ds
      else if not (less (mpq 0 1) home)
      then nought ds
      else clamp_unit (ds.of_mpq (quotient here home))

  -- the sum of the squares of the differences, from what it is so far
  unfoldable pub squares : D → List D → List D → D
  squares sum [] bs = sum
  squares sum (a ∷ cs) [] = sum
  squares sum (a ∷ cs) (b ∷ bs) =
      let diff = ds.sub a b in squares (ds.add sum (ds.mul diff diff)) cs bs

  abbrev distance : List D → List D → D
  distance v w = ds.sqrt (squares (nought ds) v w)

  unfoldable pub distance_to_boundary : PolytopeConstraints → List D → D
  unfolding lattice_margins least squares
  distance_to_boundary c v =
      let fs = build_lattice c in
      if not (contains fs (ds.exact v)).0
      then distance v (project ds c v)
      else ds.of_mpq (least (lattice_margins fs (ds.exact v)))

  unfoldable pub correct : PolytopeConstraints → List D → List D × D
  unfolding squares
  correct c v = let corrected = project ds c v in (corrected, distance v corrected)

  -- the margin of variance and the least distance from the wall
  unfoldable pub get_tolerance_profile : Bytes → D × D
  get_tolerance_profile season =
      let spring : D × D = (ds.literal (mpq 12 100), ds.literal (mpq 2 100)) in
      if bytes_eq season (codes "spring")
      then spring
      else if bytes_eq season (codes "summer")
      then (ds.literal (mpq 8 100), ds.literal (mpq 3 100))
      else if bytes_eq season (codes "fall")
      then (ds.literal (mpq 5 100), ds.literal (mpq 4 100))
      else if bytes_eq season (codes "winter")
      then (ds.literal (mpq 7 100), ds.literal (mpq 35 1000))
      else spring

  unfoldable pub classify_zone : Bytes → Bool → D → D → Zone × D
  unfolding get_tolerance_profile
  classify_zone season is_aligned boundary_distance magnitude =
      let profile = get_tolerance_profile season in
      if is_aligned
      then (if ds.at_most profile.1 boundary_distance
          then (aligned, profile.0)
          else (acceptable_variance, profile.0))
      else if ds.at_most magnitude profile.0
      then (acceptable_variance, profile.0)
      else (violation, profile.0)

  -- the searches of `overconfidence_patterns_` and of `validation_triggers_`
  module _ (certain : Bytes → Bool) (professional : Bytes → Bool) where
    abbrev when : Bool → Advice → List Advice
    when b a = if b then a ∷ [] else []

    -- `WisdomFilter::apply`
    unfoldable pub apply : Bytes → EvaluationResult D → EvaluationResult D
    apply text r =
        let humble =
          certain text
          || ds.below r.alignment_score (ds.literal (mpq 4 10))
          || ds.below (ds.literal (mpq 15 100)) r.correction_magnitude in
        record r {
          overconfidence_detected = r.overconfidence_detected || certain text;
          humility_added = r.humility_added || humble;
          validation_suggested = r.validation_suggested || professional text;
          wisdom_filter_applied = true;
          wisdom_adjustments =
              when (certain text) overconfidence
              ++ when humble humility
              ++ when (professional text) validation;
        }

    -- what is known before the correction
    abbrev pub judged : PolytopeConstraints → Bytes → List D → EvaluationResult D
    judged c text v =
        let inside = contains (build_lattice c) (ds.exact v) in
        record {
          is_aligned = inside.0;
          alignment_score = alignment_score c v;
          decision_vector = v;
          violations = inside.1;
          was_corrected = false;
          correction_vector = map (λ x. nought ds) v;
          correction_magnitude = nought ds;
          wisdom_filter_applied = false;
          overconfidence_detected = false;
          humility_added = false;
          validation_suggested = false;
          wisdom_adjustments = [];
          response_summary = take 200 text;
          season = c.season;
          zone = aligned;
          boundary_distance = distance_to_boundary c v;
          variance_margin_used = nought ds;
        }

    abbrev pub corrected_if : Bool → PolytopeConstraints → EvaluationResult D → EvaluationResult D
    corrected_if true c r = r
    corrected_if false c r =
        let (corrected, magnitude) = correct c r.decision_vector in
        record r {
          was_corrected = true;
          correction_vector = corrected;
          correction_magnitude = magnitude;
          alignment_score = alignment_score c corrected;
        }

    abbrev pub zoned : EvaluationResult D → EvaluationResult D
    zoned r =
        let (zone, variance) =
          classify_zone r.season r.is_aligned r.boundary_distance r.correction_magnitude in
        record r { zone = zone; variance_margin_used = variance }

    -- `encode` is the encoder with the biases put on
    unfoldable pub evaluate :
        (Bytes → Option Bytes → List D)
        → PolytopeConstraints
        → Bytes
        → Option Bytes
        → Bool
        → EvaluationResult D
    evaluate encode c text context filtered =
        let r = judged c text (encode text context) in
        let r' = zoned (corrected_if r.is_aligned c r) in if filtered then apply text r' else r'
