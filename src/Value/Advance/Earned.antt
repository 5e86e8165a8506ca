-- ===== src/Value/Advance/Earned.antt =====
-- When a season has been earned, and where the seasons lead: src/value_engine.cpp.
use lina_cpx.Prelude.{
  ℕ, ◌≤◌, ◌≡◌, ◌≢◌, refl, ◌↔◌, Bool, true, false, List, [], ◌∷◌, ◌++◌, Option, none, some, Bytes,
  is_empty, ltb, ltb→le, le→ltb, if◌then◌else◌,
}
use lina_cpx.Value.Advance.{
  Rates, SeasonRequirements, Reason, requirements, unmet, judge, can_advance, next_season,
}

module _ {D : Type 0} (rates : Rates D) where
  -- every threshold of the requirements is met
  abbrev pub Meets : SeasonRequirements D → ℕ → ℕ → D → ℕ → Type 0
  Meets reqs sessions evaluations rate memories =
      (reqs.min_sessions ≤ sessions)
      × (reqs.min_evaluations ≤ evaluations)
      × (reqs.min_qualifying_memories ≤ memories)
      × (rates.below rate reqs.alignment_rate_threshold ≡ false)

  none_short :
      (b c d e : Bool) (r1 r2 r3 r4 : Reason D)
      → is_empty (
          (if b then r1 ∷ [] else [])
          ++ (if c then r2 ∷ [] else [])
          ++ (if d then r3 ∷ [] else [])
          ++ (if e then r4 ∷ [] else []))
        ≡ true
      → (b ≡ false) × (c ≡ false) × (d ≡ false) × (e ≡ false)
  none_short true c d e r1 r2 r3 r4 h = cc
  none_short false true d e r1 r2 r3 r4 h = cc
  none_short false false true e r1 r2 r3 r4 h = cc
  none_short false false false true r1 r2 r3 r4 h = cc
  none_short false false false false r1 r2 r3 r4 h = (refl, refl, refl, refl)

  unmet_iff :
      (reqs : SeasonRequirements D) (sessions evaluations : ℕ) (rate : D) (memories : ℕ)
      → (is_empty (unmet rates reqs sessions evaluations rate memories) ≡ true)
        ↔ Meets reqs sessions evaluations rate memories
  unmet_iff reqs sessions evaluations rate memories = (
    λ h.
        let (a, b, c, d) =
          none_short (ltb sessions reqs.min_sessions) (ltb evaluations reqs.min_evaluations)
            (ltb memories reqs.min_qualifying_memories)
            (rates.below rate reqs.alignment_rate_threshold) _ _ _ _ h in
        (ltb→le _ _ a, ltb→le _ _ b, ltb→le _ _ c, d),
    λ (a, b, c, d).
        rw
          (
            le→ltb sessions reqs.min_sessions a,
            le→ltb evaluations reqs.min_evaluations b,
            le→ltb memories reqs.min_qualifying_memories c,
            d,
          )
          refl,
  )

  judge_iff :
      (next : Option Bytes) (reasons : List (Reason D)) {A : Type 0}
      → (is_empty reasons ≡ true) ↔ A
      → ((judge rates next reasons).0 ≡ true) ↔ ((next ≢ none) × A)
  judge_iff none reasons a = (λ h. cc, λ (h, m). absurd (h refl))
  judge_iff (some next) reasons a = (λ h. (λ e. cc, a.0 h), λ (h, m). a.1 m)

  -- A season is earned just when there is one to follow it and all four thresholds of its requirements are met.
  pub can_advance_iff :
      (sessions evaluations : ℕ) (rate : D) (memories : ℕ) (season : Bytes)
      → ((can_advance rates sessions evaluations rate memories season).0 ≡ true) ↔ (
          (next_season rates season ≢ none)
          × Meets (requirements rates season) sessions evaluations rate memories)
  unfolding can_advance next_season
  can_advance_iff sessions evaluations rate memories season =
      judge_iff (requirements rates season).advances_to
        (unmet rates (requirements rates season) sessions evaluations rate memories)
        (unmet_iff (requirements rates season) sessions evaluations rate memories)
