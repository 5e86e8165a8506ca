-- ===== src/Core/Flags/Tests.antt =====
-- The helpers of src/lina_core.cpp on a few texts.
use lina_cpx.Prelude.{
  ℕ, suc, ◌+◌, ◌-◌, ◌*◌, ◌/◌, ◌≡◌, refl, true, false, List, [], ◌∷◌, codes, bytes_eq, not, ltb, ◌≤◌,
  arith,
}
use lina_cpx.Prelude.Int.{ℤ, pos, negsuc}
use lina_cpx.Text.{find}
use lina_cpx.Value.Project.{Doubles}
use lina_cpx.Core.Gate.{Mind, aligned, is_flagged_response}
use lina_cpx.Core.Flags.{
  distance, next_row, first_row, is_white, string_similarity, sanitize_frame_text,
}
use lina_cpx.Core.Flags.Distance.{Edits, nothing, delete, pair, distance-Edits}
use lina_cpx.Core.Flags.Words.{ends_in_bar, words, unwords, sanitize_frame_text_plain}
use lina_cpx.Core.Flags.Repeats.{is_flagged_response_repeat}

kitten : distance (codes "kitten") (codes "sitting") ≡ 3
unfolding distance next_row first_row
kitten = refl

-- the token is still there
token_stays : sanitize_frame_text (codes "<|im_start|>  hi ") ≡ codes "<|im_start|> hi"
unfolding sanitize_frame_text bytes_eq is_white
token_stays = refl

-- only at the very end is it taken out
token_ends : sanitize_frame_text (codes "hi <|im_") ≡ codes "hi"
unfolding sanitize_frame_text bytes_eq is_white find
token_ends = refl

sanitize_frame_text_plain_example :
    sanitize_frame_text (codes "<|im_start|>  hi ") ≡ unwords (words (codes "<|im_start|>  hi "))
sanitize_frame_text_plain_example =
    sanitize_frame_text_plain (codes "<|im_start|>  hi ") (unfold ends_in_bar in refl)

distance-Edits_example :
    Edits (codes "ab") (codes "b") (distance (codes "ab") (codes "b"))
    × (distance (codes "ab") (codes "b") ≤ 1)
distance-Edits_example = distance-Edits (codes "ab") (codes "b") 1 (delete (pair nothing refl))

abbrev magnitude : ℤ → ℕ
magnitude (pos n) = n
magnitude (negsuc n) = suc n

-- doubles in thousandths, none below 0
abbrev thousandths : Doubles ℕ
thousandths = record {
  below = λ a b. ltb a b;
  at_most = λ a b. not (ltb b a);
  add = λ a b. a + b;
  sub = λ a b. a - b;
  mul = λ a b. a * b / 1000;
  div = λ a b. a * 1000 / b;
  abs = λ a. a;
  sqrt = λ a. a;
  is_finite = λ a. true;
  literal = λ q. magnitude q.num * 1000 / q.den;
  of_mpq = λ q. magnitude q.num * 1000 / q.den;
  exact = λ v. record { numerators = []; denominator = 1 };
}

abbrev mind : Mind ℕ (List ℕ)
mind = record {
  evaluate = λ text context. record {
    zone = aligned;
    violations = [];
    was_corrected = false;
    decision_vector = [];
    correction_vector = [];
  };
  similar = λ a b. ltb 900 (string_similarity thousandths a b);
  near = λ a b. false;
  far = λ a b. false;
  connected = λ s. true;
  generate_raw = λ s frame history. ([], s);
  system_prompt = [];
  coordinates = λ v. [];
}

is_flagged_response_repeat_example :
    is_flagged_response mind (codes "no") [] ((codes "yes", []) ∷ (codes "no", []) ∷ []) [] ≡ true
is_flagged_response_repeat_example =
    is_flagged_response_repeat thousandths mind (codes "no") [] [] [] ((codes "yes", []) ∷ []) []
      refl (λ n. ground arith) (λ a b. refl)
