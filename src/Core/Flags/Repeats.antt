-- ===== src/Core/Flags/Repeats.antt =====
-- `is_flagged_response` of src/lina_core.cpp with its comparison of texts.
use Prim.Native.Nat.{max}
use lina_cpx.Prelude.{ℕ, suc, ◌≡◌, ap₂, ◌∙◌, Bool, true, List, [], ◌∷◌, ◌++◌, Bytes, length, arith}
use lina_cpx.Value.Seasons.{mpq}
use lina_cpx.Value.Project.{Doubles}
use lina_cpx.Core.Gate.{Mind, is_flagged_response}
use lina_cpx.Core.Flags.{of_count, string_similarity}
use lina_cpx.Core.Flags.Distance.{distance_self}

module _ {D S : Type 0} (ds : Doubles D) (m : Mind S (List D)) where
  -- `string_similarity(a, b) > 0.90`
  abbrev pub repeats : Bytes → Bytes → Bool
  repeats a b = ds.below (ds.literal (mpq 9 10)) (string_similarity ds a b)

  repeats_self :
      (a : Bytes)
      → ds.below (ds.literal (mpq 9 10)) (ds.literal (mpq 1 1)) ≡ true
      → ((n : ℕ)
          → ds.below
              (ds.literal (mpq 9 10))
              (ds.sub (ds.literal (mpq 1 1)) (ds.div (of_count ds 0) (of_count ds (suc n))))
            ≡ true)
      → repeats a a ≡ true
  unfolding string_similarity
  repeats_self [] one whole = one
  repeats_self (x ∷ xs) one whole =
      let size : max (suc (length xs)) (suc (length xs)) ≡ suc (length xs) = omega arith in
      ap₂
        (λ (d n : ℕ).
          ds.below (ds.literal (mpq 9 10))
            (ds.sub (ds.literal (mpq 1 1)) (ds.div (of_count ds d) (of_count ds n))))
        (distance_self (x ∷ xs)) size
      ∙ whole (length xs)

  -- Where 0.9 is below 1.0, and below 1.0 - 0.0 / n for a length n, and the texts are compared by
  -- `string_similarity`: an answer that was given before, word for word, is flagged, whatever the coordinates are.
  pub is_flagged_response_repeat :
      (text : Bytes) (coords old_coords anchor : List D) (before after : List (Bytes × List D))
      → ds.below (ds.literal (mpq 9 10)) (ds.literal (mpq 1 1)) ≡ true
      → ((n : ℕ)
          → ds.below
              (ds.literal (mpq 9 10))
              (ds.sub (ds.literal (mpq 1 1)) (ds.div (of_count ds 0) (of_count ds (suc n))))
            ≡ true)
      → ((a b : Bytes) → m.similar a b ≡ repeats a b)
      → is_flagged_response m text coords (before ++ (text, old_coords) ∷ after) anchor ≡ true
  unfolding is_flagged_response
  is_flagged_response_repeat text coords old_coords anchor [] after one whole compared =
      let same : m.similar text text ≡ true = compared text text ∙ repeats_self text one whole in
      ground arith
  is_flagged_response_repeat text coords old_coords anchor ((old, c) ∷ before) after one whole
        compared =
      let later =
        is_flagged_response_repeat text coords old_coords anchor before after one whole compared in
      ground arith
