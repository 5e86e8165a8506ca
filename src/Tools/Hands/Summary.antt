-- ===== src/Tools/Hands/Summary.antt =====
-- The summaries of src/tool_engine.cpp, which a voice reads in place of a long output.
use lina_cpx.Prelude.{
  ℕ, zero, suc, ◌≤◌, ◌<◌, ◌≡◌, ◌⊎◌, inl, inr, refl, ap, [], ◌∷◌, ◌++◌, Bool-cases, Bytes, length,
  take, leb, leb→le, arith,
}
use lina_cpx.Tools.Engine.{truncate}

take-take_front :
    (n : ℕ) (text more : Bytes) → n ≤ length text → take n (take n text ++ more) ≡ take n text
take-take_front zero text more h = refl
take-take_front (suc n) [] more h = absurd (omega arith)
take-take_front (suc n) (x ∷ text) more h =
    ap (λ t. x ∷ t) (take-take_front n text more (omega arith))

-- A summary is the text itself if it fits, and if not it starts with as much of the text as fits.
pub take-truncate :
    (text : Bytes) (limit : ℕ)
    → ((length text ≤ limit) × (truncate text limit ≡ text))
      ⊎ ((limit < length text) × (take limit (truncate text limit) ≡ take limit text))
unfolding truncate
take-truncate text limit = elim (Bool-cases (leb (length text) limit)) [
  | inl e ↦ inl (leb→le (length text) limit e, rw e refl)
  | inr e ↦ inr (ground arith, rw e (take-take_front limit text _ (ground arith)))
]
