-- ===== src/Memory/Sweep/Grace.antt =====
-- The second chance that the sweep of src/memory_module.cpp gives to what has fallen out.
use lina_cpx.Prelude.{
  ◌≡◌, ◌⊎◌, inl, inr, refl, ap, ◌∙◌, true, false, List, [], ◌∷◌, ◌++◌, none, some, Bool-cases, All,
}
use lina_cpx.Memory.Sweep.{
  t1, t2, t3, fallout, Item, Banks, Setting, failed_gate_of, sweep_tier, second_chance,
  sweep_fallout, run_sweep,
}
use lina_cpx.Memory.Sweep.Fates.{Apart, Alike, itself, sweep_tier-Alike, sweep_fallout-Alike}

module _ {D : Type 0} (x : Item D) where
  -- From the banks `b` to `b'`: the item rests while its grace lasts; after that it goes back to the
  -- first tier if its score reaches the gate that it failed, and is gone if not.
  abbrev pub IsJudged : Setting D → Banks D → Banks D → Type 0
  IsJudged st b b' =
      ((st.in_grace x.entered_fallout_at ≡ true) × Alike x b b')
      ⊎ ((st.in_grace x.entered_fallout_at ≡ false)
          × (b'.tier fallout x.item_id ≡ none)
          × (((st.geb x.importance_score (failed_gate_of st x) ≡ true)
                × (b'.tier t1 x.item_id ≡ some x))
              ⊎ ((st.geb x.importance_score (failed_gate_of st x) ≡ false)
                  × (b'.tier t1 x.item_id ≡ b.tier t1 x.item_id))))

  second_chance-IsJudged : (st : Setting D) (b : Banks D) → IsJudged st b (second_chance st x b)
  unfolding second_chance
  second_chance-IsJudged st b = elim (Bool-cases (st.in_grace x.entered_fallout_at)) [
    | inl g ↦ inl (g, λ t. rw g refl)
    | inr late ↦ elim (Bool-cases (st.geb x.importance_score (failed_gate_of st x))) [
      | inl g ↦ inr (late, rw (late, g, itself x) refl, inl (g, rw (late, g, itself x) refl))
      | inr g ↦ inr (late, rw (late, g, itself x) refl, inr (g, rw (late, g) refl))
    ]
  ]

  IsJudged-Alike :
      (st : Setting D) (a b c d : Banks D)
      → Alike x a b
      → IsJudged st b c
      → Alike x c d
      → IsJudged st a d
  IsJudged-Alike st a b c d before (inl (g, same)) after =
      inl (g, λ t. after t ∙ (same t ∙ before t))
  IsJudged-Alike st a b c d before (inr (g, gone, inl (h, there))) after =
      inr (g, after fallout ∙ gone, inl (h, after t1 ∙ there))
  IsJudged-Alike st a b c d before (inr (g, gone, inr (h, same))) after =
      inr (g, after fallout ∙ gone, inr (h, after t1 ∙ (same ∙ before t1)))

  sweep_fallout-append :
      (st : Setting D) (pre post : List (Item D)) (b : Banks D)
      → sweep_fallout st (pre ++ x ∷ post) b
        ≡ sweep_fallout st post (second_chance st x (sweep_fallout st pre b))
  unfolding sweep_fallout
  sweep_fallout-append st [] post b = refl
  sweep_fallout-append st (i ∷ pre) post b = sweep_fallout-append st pre post (second_chance st i b)

  -- An item that was in the fallout when the sweep began, and whose id no other scanned item has,
  -- rests while its grace lasts; after that it leaves the fallout, for the first tier if its score
  -- reaches the gate that it failed, and for good if not.
  pub run_sweep-IsJudged :
      (st : Setting D) (b : Banks D) (pre post : List (Item D))
      → st.scan fallout ≡ pre ++ x ∷ post
      → All (Apart x) pre
      → All (Apart x) post
      → All (Apart x) (st.scan t1)
      → All (Apart x) (st.scan t2)
      → All (Apart x) (st.scan t3)
      → IsJudged st b (run_sweep st b)
  unfolding run_sweep
  run_sweep-IsJudged st b pre post here hpre hpost h1 h2 h3 =
      let swept1 = sweep_tier st t1 st.gate_t1_to_t2 (st.scan t1) b in
      let swept2 = sweep_tier st t2 st.gate_t2_to_t3 (st.scan t2) swept1 in
      let swept3 = sweep_tier st t3 st.gate_to_long_term (st.scan t3) swept2 in
      let reached = sweep_fallout st pre swept3 in
      let judged = second_chance st x reached in
      let same =
        ap (λ items. sweep_fallout st items swept3) here
        ∙ sweep_fallout-append st pre post swept3 in
      IsJudged-Alike st b reached judged (run_sweep st b)
        (λ t.
          sweep_fallout-Alike x st pre swept3 hpre t
          ∙ (sweep_tier-Alike x st t3 st.gate_to_long_term (st.scan t3) swept2 h3 t
              ∙ (sweep_tier-Alike x st t2 st.gate_t2_to_t3 (st.scan t2) swept1 h2 t
                  ∙ sweep_tier-Alike x st t1 st.gate_t1_to_t2 (st.scan t1) b h1 t)))
        (second_chance-IsJudged st reached)
        (λ t. ap (λ w. w.tier t x.item_id) same ∙ sweep_fallout-Alike x st post judged hpost t)
