-- ===== src/Value/Feedback/Biases.antt =====
-- The bounds of what the corrections of src/value_engine.cpp leave behind.
use lina_cpx.Prelude.{
  ℕ, ◌≡◌, refl, guarded, subst, Bool, true, false, List, [], ◌∷◌, some, Bytes, All, if◌then◌else◌,
}
use lina_cpx.Value.Seasons.{mpq}
use lina_cpx.Value.Feedback.{
  Floats, Feedback, PendingCorrection, EncoderCorrection, clamp, max_weight, min_weight,
  adjustment_delta, apply_correction, apply_biases, confirm_correction,
}

-- what the bounds rely on: no double is below itself, and of the literals the smaller ones are not above the
-- greater ones
pub record OrderedFloats {D : Type 0} (fs : Floats D) : Type 0 where
  pub irreflexive : (x : D) → fs.below x x ≡ false
  pub unit_ordered : fs.below (fs.literal (mpq 1 1)) (fs.literal (mpq 0 1)) ≡ false
  pub weights_ordered : fs.below (max_weight fs) (min_weight fs) ≡ false

module _ {D : Type 0} (fs : Floats D) where
  -- `v` is neither below `lo` nor above `hi`
  abbrev pub Between : D → D → D → Type 0
  Between lo hi v = (fs.below v lo ≡ false) × (fs.below hi v ≡ false)

  -- the unit interval, and the interval of the biases
  abbrev pub InUnit : D → Type 0
  InUnit = Between (fs.literal (mpq 0 1)) (fs.literal (mpq 1 1))

  abbrev pub IsBias : D → Type 0
  IsBias = Between (min_weight fs) (max_weight fs)

  module _ (o : OrderedFloats fs) where
    clamp-Between : (v lo hi : D) → fs.below hi lo ≡ false → Between lo hi (clamp fs v lo hi)
    unfolding clamp
    clamp-Between v lo hi ordered = pick (fs.below v lo) (fs.below hi v) refl refl
      where
        pick :
            (l h : Bool)
            → fs.below v lo ≡ l
            → fs.below hi v ≡ h
            → Between lo hi (if l then lo else if h then hi else v)
        pick true h el eh = (o.irreflexive lo, ordered)
        pick false true el eh = (ordered, o.irreflexive hi)
        pick false false el eh = (el, eh)

    apply_correction-IsBias :
        (bs ds : List D) → All IsBias bs → All IsBias (apply_correction fs bs ds)
    unfolding apply_correction
    apply_correction-IsBias [] ds h = tt
    apply_correction-IsBias (b ∷ bs) [] h = h
    apply_correction-IsBias (b ∷ bs) (d ∷ ds) (h, hs) =
        (clamp-Between _ _ _ o.weights_ordered, apply_correction-IsBias bs ds hs)

    apply_biases-InUnit : (xs bs : List D) → All InUnit (apply_biases fs xs bs)
    unfolding apply_biases
    apply_biases-InUnit [] bs = tt
    apply_biases-InUnit (x ∷ xs) [] = tt
    apply_biases-InUnit (x ∷ xs) (b ∷ bs) =
        (clamp-Between _ _ _ o.unit_ordered, apply_biases-InUnit xs bs)

    -- For doubles of which none is below itself, and whose literals are in order: a confirmed correction keeps every
    -- bias within its limits, and any vector with the biases that result put on it has its coordinates between 0 and 1.
    pub confirm_correction-IsBias :
        (now : ℕ) (p : PendingCorrection D) (who : Bytes) (f f' : Feedback D)
        (c : EncoderCorrection D) (raw : List D)
        → All IsBias f.dimension_biases
        → confirm_correction fs now p who f ≡ some (c, f')
        → All IsBias f'.dimension_biases × All InUnit (apply_biases fs raw f'.dimension_biases)
    unfolding confirm_correction
    confirm_correction-IsBias now p who f f' c raw h e =
        let delta = adjustment_delta fs p.corrected_vector p.original_vector in
        let kept = apply_correction-IsBias f.dimension_biases delta h in
        let same = (guarded _ _ _ e).1 in
        (
          subst (λ r. All IsBias r.1.dimension_biases) same kept,
          apply_biases-InUnit raw f'.dimension_biases,
        )
