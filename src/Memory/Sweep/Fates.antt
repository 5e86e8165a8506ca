-- ===== src/Memory/Sweep/Fates.antt =====
-- What the sweep of src/memory_module.cpp does to one item.
use lina_cpx.Prelude.{
  ◌≡◌, ◌⊎◌, inl, inr, refl, ap, ◌∙◌, Bool, true, false, ◌&&◌, List, [], ◌∷◌, ◌++◌, none, some,
  bytes_eq, bytes_eq_iff, if◌then◌else◌, Bool-cases, All,
}
use lina_cpx.Memory.Sweep.{
  Tier, t1, t2, t3, fallout, same_tier, Item, Banks, Setting, earn, climb, fall, promote,
  fallen_item, failed_gate_of, sweep_item, sweep_tier, second_chance, sweep_fallout, run_sweep,
}

module _ {D : Type 0} (x : Item D) where
  -- Another item, by its id.
  abbrev pub Apart : Item D → Type 0
  Apart i = bytes_eq x.item_id i.item_id ≡ false

  -- `b'` has the item where `b` has it.
  abbrev pub Alike : Banks D → Banks D → Type 0
  Alike b b' = (t : Tier) → b'.tier t x.item_id ≡ b.tier t x.item_id

  either_way : {A : Type 0} (c d : Bool) (u v : A) → d ≡ false → (if c && d then u else v) ≡ v
  either_way true d u v e = rw e refl
  either_way false d u v e = refl

  climb-Alike :
      (st : Setting D) (t next : Tier) (gate : D) (i : Item D) (b : Banks D)
      → Apart i
      → Alike b (climb st t next gate i b)
  unfolding climb
  climb-Alike st t next gate i b e t' =
      either_way (same_tier t t') _ none _ e ∙ either_way (same_tier next t') _ (some i) _ e

  fall-Alike :
      (st : Setting D) (t : Tier) (gate : D) (i : Item D) (b : Banks D)
      → Apart i
      → Alike b (fall st t gate i b)
  unfolding fall
  fall-Alike st t gate i b e t' =
      either_way (same_tier t t') _ none _ e
      ∙ either_way (same_tier fallout t') _ (some (fallen_item st gate i)) _ e

  earn-Alike : (st : Setting D) (i : Item D) (b : Banks D) → Apart i → Alike b (earn st i b)
  unfolding earn
  earn-Alike st i b e t' = elim (Bool-cases (st.stores i)) [
    | inl s ↦ elim (Bool-cases (st.logs i)) [
      | inl l ↦ rw (s, l) (either_way (same_tier t3 t') _ none _ e)
      | inr l ↦ rw (s, l) (either_way (same_tier t3 t') _ none _ e)
    ]
    | inr s ↦ rw s (either_way (same_tier t3 t') _ none _ e)
  ]

  promote-Alike :
      (st : Setting D) (t : Tier) (gate : D) (i : Item D) (b : Banks D)
      → Apart i
      → Alike b (promote st t gate i b)
  unfolding promote
  promote-Alike st t1 gate i b e t' = climb-Alike st t1 t2 gate i b e t'
  promote-Alike st t2 gate i b e t' = climb-Alike st t2 t3 gate i b e t'
  promote-Alike st t3 gate i b e t' = earn-Alike st i b e t'
  promote-Alike st fallout gate i b e t' = refl

  sweep_item-Alike :
      (st : Setting D) (t : Tier) (gate : D) (i : Item D) (b : Banks D)
      → Apart i
      → Alike b (sweep_item st t gate i b)
  unfolding sweep_item
  sweep_item-Alike st t gate i b e t' = elim (Bool-cases (st.geb i.importance_score gate)) [
    | inl g ↦ rw g (promote-Alike st t gate i b e t')
    | inr g ↦ rw g (fall-Alike st t gate i b e t')
  ]

  pub sweep_tier-Alike :
      (st : Setting D) (t : Tier) (gate : D) (items : List (Item D)) (b : Banks D)
      → All Apart items
      → Alike b (sweep_tier st t gate items b)
  unfolding sweep_tier
  sweep_tier-Alike st t gate [] b h t' = refl
  sweep_tier-Alike st t gate (i ∷ items) b h t' =
      sweep_tier-Alike st t gate items (sweep_item st t gate i b) h.1 t'
      ∙ sweep_item-Alike st t gate i b h.0 t'

  second_chance-Alike :
      (st : Setting D) (i : Item D) (b : Banks D) → Apart i → Alike b (second_chance st i b)
  unfolding second_chance
  second_chance-Alike st i b e t' = elim (Bool-cases (st.in_grace i.entered_fallout_at)) [
    | inl g ↦ rw g refl
    | inr late ↦ elim (Bool-cases (st.geb i.importance_score (failed_gate_of st i))) [
      | inl g ↦
          rw (late, g)
            (either_way (same_tier fallout t') _ none _ e
              ∙ either_way (same_tier t1 t') _ (some i) _ e)
      | inr g ↦ rw (late, g) (either_way (same_tier fallout t') _ none _ e)
    ]
  ]

  pub sweep_fallout-Alike :
      (st : Setting D) (items : List (Item D)) (b : Banks D)
      → All Apart items
      → Alike b (sweep_fallout st items b)
  unfolding sweep_fallout
  sweep_fallout-Alike st [] b h t' = refl
  sweep_fallout-Alike st (i ∷ items) b h t' =
      sweep_fallout-Alike st items (second_chance st i b) h.1 t' ∙ second_chance-Alike st i b h.0 t'

  -- The item has left a tier, for the next one if it reaches the gate and for the fallout if not.
  abbrev pub HasMoved : Setting D → Tier → Tier → D → Banks D → Type 0
  HasMoved st t next gate b =
      ((st.geb x.importance_score gate ≡ true)
        × (b.tier t x.item_id ≡ none)
        × (b.tier next x.item_id ≡ some x))
      ⊎ ((st.geb x.importance_score gate ≡ false)
          × (b.tier t x.item_id ≡ none)
          × (b.tier fallout x.item_id ≡ some (fallen_item st gate x)))

  HasMoved-Alike :
      (st : Setting D) (t next : Tier) (gate : D) (b b' : Banks D)
      → Alike b b'
      → HasMoved st t next gate b
      → HasMoved st t next gate b'
  HasMoved-Alike st t next gate b b' e (inl (g, gone, there)) = inl (g, e t ∙ gone, e next ∙ there)
  HasMoved-Alike st t next gate b b' e (inr (g, gone, there)) =
      inr (g, e t ∙ gone, e fallout ∙ there)

  pub itself : bytes_eq x.item_id x.item_id ≡ true
  itself = (bytes_eq_iff x.item_id x.item_id).1 refl

  sweep_item-HasMoved :
      (st : Setting D) (gate : D) (b : Banks D) → HasMoved st t1 t2 gate (sweep_item st t1 gate x b)
  unfolding sweep_item promote climb fall
  sweep_item-HasMoved st gate b = elim (Bool-cases (st.geb x.importance_score gate)) [
    | inl g ↦ inl (g, rw (g, itself) refl, rw (g, itself) refl)
    | inr g ↦ inr (g, rw (g, itself) refl, rw (g, itself) refl)
  ]

  sweep_tier-append :
      (st : Setting D) (t : Tier) (gate : D) (pre post : List (Item D)) (b : Banks D)
      → sweep_tier st t gate (pre ++ x ∷ post) b
        ≡ sweep_tier st t gate post (sweep_item st t gate x (sweep_tier st t gate pre b))
  unfolding sweep_tier
  sweep_tier-append st t gate [] post b = refl
  sweep_tier-append st t gate (i ∷ pre) post b =
      sweep_tier-append st t gate pre post (sweep_item st t gate i b)

  -- An item of the first tier, whose id no later item of that scan and no item of the other scans has,
  -- moves once: it is in the second tier after the sweep if its score reaches the gate, and else in the
  -- fallout, with the gate that it failed and the time; and it is no longer in the first.
  pub run_sweep-HasMoved :
      (st : Setting D) (b : Banks D) (pre post : List (Item D))
      → st.scan t1 ≡ pre ++ x ∷ post
      → All Apart post
      → All Apart (st.scan t2)
      → All Apart (st.scan t3)
      → All Apart (st.scan fallout)
      → HasMoved st t1 t2 st.gate_t1_to_t2 (run_sweep st b)
  unfolding run_sweep
  run_sweep-HasMoved st b pre post here h1 h2 h3 h4 =
      let g = st.gate_t1_to_t2 in
      let reached = sweep_item st t1 g x (sweep_tier st t1 g pre b) in
      let swept1 = sweep_tier st t1 g (st.scan t1) b in
      let swept2 = sweep_tier st t2 st.gate_t2_to_t3 (st.scan t2) swept1 in
      let swept3 = sweep_tier st t3 st.gate_to_long_term (st.scan t3) swept2 in
      let same =
        ap (λ items. sweep_tier st t1 g items b) here ∙ sweep_tier-append st t1 g pre post b in
      HasMoved-Alike st t1 t2 g reached (run_sweep st b)
        (λ t.
          sweep_fallout-Alike st (st.scan fallout) swept3 h4 t
          ∙ (sweep_tier-Alike st t3 st.gate_to_long_term (st.scan t3) swept2 h3 t
              ∙ (sweep_tier-Alike st t2 st.gate_t2_to_t3 (st.scan t2) swept1 h2 t
                  ∙ (ap (λ w. w.tier t x.item_id) same
                      ∙ sweep_tier-Alike st t1 g post reached h1 t))))
        (sweep_item-HasMoved st g (sweep_tier st t1 g pre b))
