-- ===== src/Core/Gate.antt =====
-- The absolute gate of src/lina_core.cpp. The voice (include/host_model_adapter.hpp) has a state `S`
-- that each generation changes; the value engine's verdict and the two comparisons of texts and of
-- vectors are the fields of `Mind`, which the gate calls and does not look into.

pub mod Safety
mod Tests
use lina_cpx.Prelude.{
  ℕ, zero, suc, ◌+◌, ◌-◌, Bool, true, false, not, ◌&&◌, ◌||◌, List, [], ◌∷◌, ◌++◌, Option, none,
  some, Bytes, codes, if◌then◌else◌,
}

-- `value_engine::Zone`
pub data Zone : Type 0 where
  aligned acceptable_variance violation : Zone

abbrev pub is_violation : Zone → Bool
is_violation violation = true
is_violation aligned = false
is_violation acceptable_variance = false

-- The parts of `value_engine::EvaluationResult` that the core reads; `V` is a vector of the space.
pub record Evaluation (V : Type 0) : Type 0 where
  pub zone : Zone
  -- the names of the dimensions it violates
  pub violations : List Bytes
  pub was_corrected : Bool
  pub decision_vector : V
  pub correction_vector : V

-- a role and a text
abbrev pub Message : Type 0
Message = Bytes × Bytes

abbrev pub History : Type 0
History = List Message

pub record Mind (S V : Type 0) : Type 0 where
  -- `value_engine_->evaluate(text, context)`
  pub evaluate : Bytes → Option Bytes → Evaluation V
  -- `string_similarity(a, b) > 0.90`
  pub similar : Bytes → Bytes → Bool
  -- `euclidean_distance(a, b) < 0.10`, and `> 0.50`
  pub near : V → V → Bool
  pub far : V → V → Bool
  -- the attached driver, and whether one is attached and connected
  pub connected : S → Bool
  pub generate_raw : S → Bytes → History → Bytes × S
  pub system_prompt : Bytes
  -- a vector's coordinates, `name=value` with commas
  pub coordinates : V → Bytes

-- what the gate leaves behind on the technical bus and in the ledger of evaluations
pub data Event (V : Type 0) : Type 0 where
  candidate : Zone → Event V
  reflected : ℕ → Zone → Bool → Event V
  recorded : Evaluation V → Bytes → Event V
  delivered : Zone → Bool → Event V

pub record Gated (S V : Type 0) : Type 0 where
  pub text : Bytes
  pub verdict : Evaluation V
  pub voice : S
  pub events : List (Event V)

abbrev pub withheld : Bytes
withheld =
    codes
      "An answer is not available because the response remained outside LINA's ethical boundaries after reflection."

module _ {S V : Type 0} (m : Mind S V) where
  open m use {evaluate, similar, near, far, connected, generate_raw, system_prompt, coordinates}

  -- `is_flagged_response`: the two vectors of earlier answers and coordinates are one list of pairs.
  unfoldable pub is_flagged_response : Bytes → V → List (Bytes × V) → V → Bool
  is_flagged_response text coords [] anchor = far coords anchor
  is_flagged_response text coords ((old_text, old_coords) ∷ previous) anchor =
      similar text old_text
      || near coords old_coords
      || is_flagged_response text coords previous anchor

  -- `build_reflection_prompt`, which does not use the draft
  unfoldable pub reflection_prompt : Bytes → Evaluation V → Bytes
  reflection_prompt draft verdict =
      let named : Bytes = elim verdict.violations [ [] ↦ codes "unknown" | name ∷ rest ↦ name ] in
      codes "Your answer violated dimension '"
      ++ named
      ++ codes "', the answer most closely relating to yours is at "
      ++ coordinates verdict.correction_vector
      ++ codes ". Please reflect on this and adjust your answer accordingly."

  -- the end of a pass: accept the new answer, or go on to the rest
  unfoldable pub end_pass :
      Bytes
      → Evaluation V
      → S
      → ℕ
      → Bool
      → Option Bytes × Evaluation V × S × List (Event V)
      → Option Bytes × Evaluation V × S × List (Event V)
  end_pass text verdict s pass flagged rest =
      let event = reflected pass verdict.zone flagged in
      if not (is_violation verdict.zone) && not flagged
      then (some text, verdict, s, event ∷ [])
      else (rest.0, rest.1, rest.2, event ∷ rest.3)

  -- The passes left, the number of this pass, and the loop's variables; the result is the accepted
  -- answer, if any, and the last verdict.
  unfoldable pub reflect :
      ℕ
      → ℕ
      → S
      → History
      → Option Bytes
      → V
      → Bytes
      → Evaluation V
      → List (Bytes × V)
      → Option Bytes × Evaluation V × S × List (Event V)
  reflect zero pass s history context anchor current verdict previous = (none, verdict, s, [])
  reflect (suc left) pass s history context anchor current verdict previous =
      let (current', s') = generate_raw s system_prompt (
        history
        ++ (codes "assistant", current) ∷ (codes "user", reflection_prompt current verdict) ∷ []) in
      let verdict' = evaluate current' context in
      let flagged = is_flagged_response current' verdict'.decision_vector previous anchor in
      end_pass current' verdict' s' pass flagged (
        reflect left (pass + 1) s' history context anchor current' verdict'
          (previous ++ (current', verdict'.decision_vector) ∷ []))

  abbrev pub max_reflection_passes : ℕ
  max_reflection_passes = 3

  -- what the reflection's outcome makes of the draft
  unfoldable pub settle :
      Option Bytes × Evaluation V × S × List (Event V) → Bytes × Evaluation V × S × List (Event V)
  settle (some text, verdict, s, events) = (text, verdict, s, events)
  settle (none, verdict, s, events) =
      (withheld, record verdict { zone = violation; was_corrected = true }, s, events)

  -- the draft with its verdict, reflected upon if it violates and a voice is attached
  unfoldable pub reconsider :
      S → History → Bytes → Option Bytes → Evaluation V → Bytes × Evaluation V × S × List (Event V)
  unfolding settle
  reconsider s history draft context verdict =
      if is_violation verdict.zone && connected s
      then settle (
          reflect max_reflection_passes 1 s history context verdict.correction_vector draft verdict
            ((draft, verdict.decision_vector) ∷ []))
      else (draft, verdict, s, [])

  unfoldable pub apply_gate : S → History → Bytes → Option Bytes → Gated S V
  apply_gate s history draft context =
      let verdict = evaluate draft context in
      let (text, verdict', s', events) = reconsider s history draft context verdict in
      record {
        text = text;
        verdict = verdict';
        voice = s';
        events =
            candidate verdict.zone
            ∷ (events
                ++ recorded verdict' text ∷ delivered verdict'.zone verdict'.was_corrected ∷ []);
      }
