-- ===== src/Value/Advance.antt =====
-- The advance from season to season: `SeasonAdvancementEvaluator` of src/value_engine.cpp and the crossing of
-- src/lina_core.cpp. The rate of alignment is a double: of a type `D` with its order and its literals.
pub mod Earned
pub mod Widening
use lina_cpx.Prelude.{
  ℕ, ◌-◌, Bool, true, false, List, [], ◌∷◌, ◌++◌, Option, none, some, Bytes, codes, bytes_eq,
  is_empty, ltb, if◌then◌else◌,
}

pub record Rates (D : Type 0) : Type 0 where
  -- `a < b`
  pub below : D → D → Bool
  -- `0.85` for 85
  pub hundredths : ℕ → D

pub record SeasonRequirements (D : Type 0) : Type 0 where
  pub min_sessions : ℕ
  pub min_evaluations : ℕ
  pub alignment_rate_threshold : D
  pub min_qualifying_memories : ℕ
  -- `none` for the null pointer
  pub advances_to : Option Bytes

-- The reasons of a refusal, by what their texts tell: what there is, what is required, what is missing.
pub data Reason (D : Type 0) : Type 0 where
  final_season : Reason D
  few_sessions few_evaluations few_memories : ℕ → ℕ → ℕ → Reason D
  low_rate : D → D → Reason D

module _ {D : Type 0} (rates : Rates D) where
  abbrev pub needs : ℕ → ℕ → ℕ → ℕ → Option Bytes → SeasonRequirements D
  needs sessions evaluations percent memories next = record {
    min_sessions = sessions;
    min_evaluations = evaluations;
    alignment_rate_threshold = rates.hundredths percent;
    min_qualifying_memories = memories;
    advances_to = next;
  }

  unfoldable pub requirements : Bytes → SeasonRequirements D
  requirements season =
      let spring = needs 5 50 85 7 (some (codes "summer")) in
      if bytes_eq season (codes "spring")
      then spring
      else if bytes_eq season (codes "summer")
      then needs 10 50 88 15 (some (codes "fall"))
      else if bytes_eq season (codes "fall")
      then needs 20 50 90 30 (some (codes "winter"))
      else if bytes_eq season (codes "winter")
      then needs 0 0 0 0 none
      else spring

  abbrev shortage : ℕ → ℕ → (ℕ → ℕ → ℕ → Reason D) → List (Reason D)
  shortage have need reason = if ltb have need then reason have need (need - have) ∷ [] else []

  -- the four tests, each with its reason
  abbrev pub unmet : SeasonRequirements D → ℕ → ℕ → D → ℕ → List (Reason D)
  unmet reqs sessions evaluations rate memories =
      shortage sessions reqs.min_sessions few_sessions
      ++ shortage evaluations reqs.min_evaluations few_evaluations
      ++ shortage memories reqs.min_qualifying_memories few_memories
      ++ (if rates.below rate reqs.alignment_rate_threshold
          then low_rate rate reqs.alignment_rate_threshold ∷ []
          else [])

  -- the early return, or the answer with its reasons
  abbrev pub judge : Option Bytes → List (Reason D) → Bool × List (Reason D)
  judge none reasons = (false, final_season ∷ [])
  judge (some next) reasons = (is_empty reasons, reasons)

  -- the arguments that the code ignores are left out
  unfoldable pub can_advance : ℕ → ℕ → D → ℕ → Bytes → Bool × List (Reason D)
  unfolding requirements
  can_advance sessions evaluations rate memories season =
      let reqs = requirements season in
      judge reqs.advances_to (unmet reqs sessions evaluations rate memories)

  unfoldable pub next_season : Bytes → Option Bytes
  unfolding requirements
  next_season season = (requirements season).advances_to
