-- ===== src/Value/Evaluate/Inside.antt =====
-- That what is left of an answer's place is inside the lattice: src/value_engine.cpp.
use lina_cpx.Prelude.{
  ◌≡◌, refl, sym, ap, ◌∙◌, Bool, true, false, not, ◌&&◌, List, Option, Bytes, if◌then◌else◌,
}
use lina_cpx.Core.Gate.{Zone, aligned, acceptable_variance, is_violation}
use lina_cpx.Value.Seasons.{PolytopeConstraints}
use lina_cpx.Value.Facets.{build_lattice}
use lina_cpx.Value.Lattice.{contains}
use lina_cpx.Value.Project.{Doubles, center_d, settle, project}
use lina_cpx.Value.Evaluate.{
  EvaluationResult, correct, classify_zone, apply, judged, corrected_if, zoned, evaluate,
}

module _ {D : Type 0} (ds : Doubles D) (c : PolytopeConstraints) where
  -- the vector of doubles is inside the lattice
  abbrev pub IsInside : List D → Type 0
  IsInside v = (contains (build_lattice c) (ds.exact v)).0 ≡ true

  settle-IsInside : (v : List D) → IsInside (center_d ds c) → IsInside (settle ds c v)
  unfolding settle
  settle-IsInside v home = by_test (contains (build_lattice c) (ds.exact v)).0 refl
    where
      by_test :
          (b : Bool)
          → (contains (build_lattice c) (ds.exact v)).0 ≡ b
          → IsInside (if b then v else center_d ds c)
      by_test true e = e
      by_test false e = home

  -- When the centre in doubles is inside the lattice, whatever the projections and the nudges come to is inside it.
  pub project-IsInside : (v : List D) → IsInside (center_d ds c) → IsInside (project ds c v)
  unfolding project
  project-IsInside v home = settle-IsInside _ home

  module _ (certain professional : Bytes → Bool) where
    -- the vector that counts: the corrected one if there was a correction
    abbrev pub delivered : EvaluationResult D → List D
    delivered r = if r.was_corrected then r.correction_vector else r.decision_vector

    -- a result whose vector that counts is inside, that was corrected just when it was not aligned, and that is a
    -- violation only then
    abbrev pub IsSound : EvaluationResult D → Type 0
    IsSound r =
        IsInside (delivered r)
        × (r.was_corrected ≡ not r.is_aligned)
        × ((is_violation r.zone && r.is_aligned) ≡ false)

    IsCounted : EvaluationResult D → Type 0
    IsCounted r = IsInside (delivered r) × (r.was_corrected ≡ not r.is_aligned)

    corrected_if-IsCounted :
        (b : Bool) (r : EvaluationResult D)
        → IsInside (center_d ds c)
        → r.was_corrected ≡ false
        → r.is_aligned ≡ b
        → (b ≡ true → IsInside r.decision_vector)
        → IsCounted (corrected_if ds certain professional b c r)
    unfolding IsCounted correct
    corrected_if-IsCounted true r home none e inside = (
      ap
            (λ k.
              (contains (build_lattice c)
                (ds.exact (if k then r.correction_vector else r.decision_vector))).0)
            none
          ∙ inside refl,
      none ∙ ap not (sym e),
    )
    corrected_if-IsCounted false r home none e inside =
        (project-IsInside r.decision_vector home, ap not (sym e))

    classify_zone-violation :
        (season : Bytes) (b : Bool) (distance magnitude : D)
        → (is_violation (classify_zone ds season b distance magnitude).0 && b) ≡ false
    unfolding classify_zone
    classify_zone-violation season false distance magnitude = never _
      where
        never : (b : Bool) → (b && false) ≡ false
        never true = refl
        never false = refl
    classify_zone-violation season true distance magnitude = by_distance _ _
      where
        by_distance :
            (b : Bool) (x : D)
            → (is_violation (if◌then◌else◌ {A = Zone × D} b (aligned, x) (acceptable_variance, x)).0
                && true)
              ≡ false
        by_distance true x = refl
        by_distance false x = refl

    zoned-IsSound :
        (r : EvaluationResult D) → IsCounted r → IsSound (zoned ds certain professional r)
    unfolding IsCounted
    zoned-IsSound r (inside, when) = (
      inside,
      when,
      classify_zone-violation r.season r.is_aligned r.boundary_distance r.correction_magnitude,
    )

    apply-IsSound :
        (b : Bool) (text : Bytes) (r : EvaluationResult D)
        → IsSound r
        → IsSound (if b then apply ds certain professional text r else r)
    unfolding apply
    apply-IsSound true text r h = h
    apply-IsSound false text r h = h

    -- When the centre in doubles is inside the lattice: whatever the text and its encoding, the vector that counts
    -- after an evaluation is inside the lattice, and it is the corrected one just when the decision vector was outside;
    -- only then can the zone be Violation.
    pub evaluate-IsSound :
        (encode : Bytes → Option Bytes → List D) (text : Bytes) (context : Option Bytes)
        (filtered : Bool)
        → IsInside (center_d ds c)
        → IsSound (evaluate ds certain professional encode c text context filtered)
    unfolding evaluate
    evaluate-IsSound encode text context filtered home =
        let v = encode text context in
        let r = judged ds certain professional c text v in
        apply-IsSound filtered text
          (zoned ds certain professional (corrected_if ds certain professional r.is_aligned c r))
          (zoned-IsSound (corrected_if ds certain professional r.is_aligned c r)
            (corrected_if-IsCounted r.is_aligned r home refl refl (λ e. e)))
