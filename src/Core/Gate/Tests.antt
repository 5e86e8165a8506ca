-- ===== src/Core/Gate/Tests.antt =====
-- The gate at a small mind: an answer of more than five bytes is a violation, and the voice reads its
-- answers from a list.
use lina_cpx.Prelude.{
  ℕ, ◌+◌, ◌≡◌, ◌⊎◌, refl, Bool, true, false, List, [], ◌∷◌, Option, none, Bytes, codes, length, leb,
  bytes_eq, ltb, if◌then◌else◌, ◌==◌,
}
use lina_cpx.Core.Gate.{
  aligned, violation, is_violation, Evaluation, Mind, History, withheld, apply_gate, reconsider,
  reflect, settle, end_pass, is_flagged_response,
}
use lina_cpx.Core.Gate.Safety.{apply_gate_safe}

abbrev short_is_right : Bytes → Option Bytes → Evaluation ℕ
short_is_right text context = record {
  zone = if leb (length text) 5 then aligned else violation;
  violations = codes "brevity" ∷ [];
  was_corrected = false;
  decision_vector = length text;
  correction_vector = 5;
}

abbrev has_answer : List Bytes → Bool
has_answer [] = false
has_answer (x ∷ xs) = true

abbrev next_answer : List Bytes → Bytes → History → Bytes × List Bytes
next_answer [] prompt history = ([], [])
next_answer (x ∷ xs) prompt history = (x, xs)

abbrev terse : Mind (List Bytes) ℕ
terse = record {
  evaluate = short_is_right;
  similar = bytes_eq;
  near = λ a b. a == b;
  far = λ a b. ltb (a + 10) b;
  connected = has_answer;
  generate_raw = next_answer;
  system_prompt = codes "Be terse.";
  coordinates = λ v. [];
}

abbrev script : List Bytes
script = codes "far too long" ∷ codes "still too long" ∷ codes "no" ∷ []

apply_gate_safe_example :
    let g = apply_gate terse script [] (codes "much too long, again") none in
    ((g.verdict ≡ short_is_right g.text none) × (is_violation g.verdict.zone ≡ false))
    ⊎ ((g.text ≡ withheld) × (g.verdict.zone ≡ violation))
apply_gate_safe_example = apply_gate_safe terse script [] (codes "much too long, again") none refl

-- the third pass is accepted; with fewer answers left none is
third_pass : (apply_gate terse script [] (codes "much too long, again") none).text ≡ codes "no"
unfolding apply_gate reconsider reflect settle end_pass is_flagged_response bytes_eq
third_pass = refl
