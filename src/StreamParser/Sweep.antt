-- ===== src/StreamParser/Sweep.antt =====
-- The loop of src/stream_parser.cpp ends with no block left, and does not depend on how the stream
-- is cut into pieces.
use lina_cpx.Prelude.{
  ℕ, zero, suc, ◌≤◌, ◌<◌, ◌≡◌, refl, sym, ◌∙◌, List, [], ◌∷◌, ◌++◌, append_assoc, Option, none,
  some, Option-cases, inl, inr, Bytes, length, length-append, arith,
}
use lina_cpx.StreamParser.{thought_open, thought_close, sweep}
use lina_cpx.StreamParser.Blocks.{Block, block, sweep-block, sweep_stop, block-length, block-append}

abbrev thoughts_in : Bytes → Option Block
thoughts_in = block thought_open thought_close

shorter :
    (text : Bytes) (b : Block)
    → thoughts_in text ≡ some b
    → length (b.before ++ b.behind) < length text
shorter text b h =
    omega (arith, block-length thought_open thought_close text b h, length-append b.before b.behind)

-- With a fuel that covers the text the loop ends because no block is left.
pub sweep_done :
    (fuel : ℕ) (text : Bytes) (out : List Bytes)
    → length text ≤ fuel
    → thoughts_in (sweep fuel text out).0 ≡ none
sweep_done zero text out h = elim (Option-cases (thoughts_in text)) [
  | inl e ↦ rw (sweep_stop zero text out e) e
  | inr (b, e) ↦ absurd (omega (arith, shorter text b e))
]
sweep_done (suc fuel) text out h = elim (Option-cases (thoughts_in text)) [
  | inl e ↦ rw (sweep_stop (suc fuel) text out e) e
  | inr (b, e) ↦ rw (sweep-block fuel text out b e) (
      sweep_done fuel (b.before ++ b.behind) (out ++ b.between ∷ [])
        (omega (arith, shorter text b e)))
]

-- More fuel changes nothing.
pub sweep_fuel :
    (f g : ℕ) (text : Bytes) (out : List Bytes)
    → length text ≤ f
    → length text ≤ g
    → sweep f text out ≡ sweep g text out
sweep_fuel zero g text out h k = elim (Option-cases (thoughts_in text)) [
  | inl e ↦ sweep_stop zero text out e ∙ sym (sweep_stop g text out e)
  | inr (b, e) ↦ absurd (omega (arith, shorter text b e))
]
sweep_fuel (suc f) zero text out h k = elim (Option-cases (thoughts_in text)) [
  | inl e ↦ sweep_stop (suc f) text out e ∙ sym (sweep_stop zero text out e)
  | inr (b, e) ↦ absurd (omega (arith, shorter text b e))
]
sweep_fuel (suc f) (suc g) text out h k = elim (Option-cases (thoughts_in text)) [
  | inl e ↦ sweep_stop (suc f) text out e ∙ sym (sweep_stop (suc g) text out e)
  | inr (b, e) ↦
      let less = shorter text b e in
      sweep-block f text out b e
      ∙ (sweep_fuel f g (b.before ++ b.behind) (out ++ b.between ∷ []) (omega (arith, less))
            (omega (arith, less))
          ∙ sym (sweep-block g text out b e))
]

-- Thoughts already out stay in front.
pub sweep_out :
    (fuel : ℕ) (text : Bytes) (xs out : List Bytes)
    → sweep fuel text (xs ++ out) ≡ ((sweep fuel text out).0, xs ++ (sweep fuel text out).1)
sweep_out zero text xs out = unfold sweep in refl
sweep_out (suc fuel) text xs out = elim (Option-cases (thoughts_in text)) [
  | inl e ↦ rw (sweep_stop (suc fuel) text out e, sweep_stop (suc fuel) text (xs ++ out) e)
  | inr (b, e) ↦
      rw
        (
          sweep-block fuel text out b e,
          sweep-block fuel text (xs ++ out) b e,
          append_assoc xs out (b.between ∷ []),
        )
        (sweep_out fuel (b.before ++ b.behind) xs (out ++ b.between ∷ []))
]

-- Sweeping a piece first and going on with the next gives what sweeping both at once gives.
pub sweep_pieces :
    (k f g : ℕ) (text more : Bytes) (out : List Bytes)
    → length text ≤ k
    → length (text ++ more) ≤ f
    → length ((sweep k text out).0 ++ more) ≤ g
    → sweep f (text ++ more) out ≡ sweep g ((sweep k text out).0 ++ more) (sweep k text out).1
sweep_pieces zero f g text more out hk hf hg = elim (Option-cases (thoughts_in text)) [
  | inl e ↦
      let stop = sweep_stop zero text out e in
      rw stop (sweep_fuel f g (text ++ more) out hf (rw stop at hg))
  | inr (b, e) ↦ absurd (omega (arith, shorter text b e))
]
sweep_pieces (suc k) zero g text more out hk hf hg = elim (Option-cases (thoughts_in text)) [
  | inl e ↦
      let stop = sweep_stop (suc k) text out e in
      rw stop (sweep_fuel zero g (text ++ more) out hf (rw stop at hg))
  | inr (b, e) ↦ absurd (omega (arith, shorter text b e, length-append text more))
]
sweep_pieces (suc k) (suc f) g text more out hk hf hg = elim (Option-cases (thoughts_in text)) [
  | inl e ↦
      let stop = sweep_stop (suc k) text out e in
      rw stop (sweep_fuel (suc f) g (text ++ more) out hf (rw stop at hg))
  | inr (b, e) ↦
      let less = shorter text b e in
      let round = sweep-block k text out b e in
      let joined = append_assoc b.before b.behind more in
      let fits = length-append (b.before ++ b.behind) more in
      let rest =
        sweep_pieces k f g (b.before ++ b.behind) more (out ++ b.between ∷ []) (omega (arith, less))
          (omega (arith, less, fits, length-append text more)) (rw round at hg) in
      rw
        (
          round,
          sweep-block f (text ++ more) out _
              (block-append thought_open thought_close text more b e),
          ← joined,
        )
        rest
]
