-- ===== src/Core/Gate/Safety.antt =====
-- What comes out of the gate of src/lina_core.cpp.
use lina_cpx.Prelude.{
  ℕ, zero, suc, ◌+◌, ◌≡◌, ◌⊎◌, inl, inr, refl, Bool, true, false, not, ◌&&◌, List, [], ◌∷◌, ◌++◌,
  Option, none, some, Bytes, codes, Bool-cases, arith,
}
use lina_cpx.Core.Gate.{
  violation, is_violation, Evaluation, History, Mind, Event, withheld, is_flagged_response,
  end_pass, reflect, reflection_prompt, settle, reconsider, apply_gate,
}

module _ {S V : Type 0} (m : Mind S V) where
  open m use {evaluate, connected}

  -- The verdict that goes with an accepted answer is the engine's own on that answer.
  abbrev pub Accepted : Option Bytes → Option Bytes → Evaluation V → Type 0
  Accepted context none verdict = Unit
  Accepted context (some text) verdict =
      (verdict ≡ evaluate text context) × (is_violation verdict.zone ≡ false)

  clash : (bad flagged : Bool) → not bad && not flagged ≡ true → bad ≡ true → ⊥
  clash bad flagged h b = ground arith

  end_pass-Accepted :
      (context : Option Bytes) (text : Bytes) (s : S) (pass : ℕ) (flagged : Bool)
      (rest : Option Bytes × Evaluation V × S × List (Event V))
      → Accepted context rest.0 rest.1
      → let r = end_pass m text (evaluate text context) s pass flagged rest in
        Accepted context r.0 r.1
  unfolding end_pass
  end_pass-Accepted context text s pass flagged rest h =
      let bad = is_violation (evaluate text context).zone in
      elim (Bool-cases (not bad && not flagged)) [
        | inl yes' ↦
            rw (yes') (
              refl,
              elim (Bool-cases bad) [ inl b ↦ absurd (clash bad flagged yes' b) | inr b ↦ b ],
            )
        | inr no' ↦ rw (no') h
      ]

  reflect-Accepted :
      (left pass : ℕ) (s : S) (history : History) (context : Option Bytes) (anchor : V)
      (current : Bytes) (verdict : Evaluation V) (previous : List (Bytes × V))
      → let r = reflect m left pass s history context anchor current verdict previous in
        Accepted context r.0 r.1
  unfolding reflect
  reflect-Accepted zero pass s history context anchor current verdict previous = tt
  reflect-Accepted (suc left) pass s history context anchor current verdict previous =
      let drafted =
        (codes "assistant", current) ∷ (codes "user", reflection_prompt m current verdict) ∷ [] in
      let (current', s') = m.generate_raw s m.system_prompt (history ++ drafted) in
      let verdict' = evaluate current' context in
      end_pass-Accepted context current' s' pass
        (is_flagged_response m current' verdict'.decision_vector previous anchor) _
        (reflect-Accepted left (pass + 1) s' history context anchor current' verdict'
          (previous ++ (current', verdict'.decision_vector) ∷ []))

  both : (a b : Bool) → a && b ≡ true → (a ≡ true) × (b ≡ true)
  both true b h = (refl, h)
  both false b h = ground arith

  reconsider_kept :
      (s : S) (history : History) (draft : Bytes) (context : Option Bytes) (verdict : Evaluation V)
      → is_violation verdict.zone && connected s ≡ false
      → reconsider m s history draft context verdict ≡ (draft, verdict, s, [])
  unfolding reconsider
  reconsider_kept s history draft context verdict kept = rw kept refl

  pub reconsider_bad :
      (s : S) (history : History) (draft : Bytes) (context : Option Bytes) (verdict : Evaluation V)
      → is_violation verdict.zone ≡ true
      → connected s ≡ true
      → reconsider m s history draft context verdict
        ≡ settle m (
            reflect m 3 1 s history context verdict.correction_vector draft verdict
              ((draft, verdict.decision_vector) ∷ []))
  unfolding reconsider
  reconsider_bad s history draft context verdict bad on = rw (bad, on) refl

  pub reconsider_fine :
      (s : S) (history : History) (draft : Bytes) (context : Option Bytes) (verdict : Evaluation V)
      → is_violation verdict.zone ≡ false
      → reconsider m s history draft context verdict ≡ (draft, verdict, s, [])
  unfolding reconsider
  reconsider_fine s history draft context verdict fine = rw (fine) refl

  reconsider_off :
      (s : S) (history : History) (draft : Bytes) (context : Option Bytes) (verdict : Evaluation V)
      → connected s ≡ false
      → reconsider m s history draft context verdict ≡ (draft, verdict, s, [])
  unfolding reconsider
  reconsider_off s history draft context verdict off =
      elim (Bool-cases (is_violation verdict.zone)) [
        | inl bad ↦ rw (bad, off) refl
        | inr fine ↦ rw (fine) refl
      ]

  abbrev pub IsSafe : Option Bytes → Bytes → Evaluation V → Type 0
  IsSafe context text verdict =
      ((verdict ≡ evaluate text context) × (is_violation verdict.zone ≡ false))
      ⊎ ((text ≡ withheld) × (verdict.zone ≡ violation))

  settle-IsSafe :
      (context : Option Bytes) (r : Option Bytes × Evaluation V × S × List (Event V))
      → Accepted context r.0 r.1
      → IsSafe context (settle m r).0 (settle m r).1
  unfolding settle
  settle-IsSafe context (some text, verdict, s, events) h = inl h
  settle-IsSafe context (none, verdict, s, events) h = inr (refl, refl)

  -- With a voice attached, what the gate lets out either was judged by the engine, in the turn's
  -- context, to lie outside Violation, and carries that verdict; or it is the fixed refusal, and is
  -- marked a violation.
  pub apply_gate_safe :
      (s : S) (history : History) (draft : Bytes) (context : Option Bytes)
      → connected s ≡ true
      → let g = apply_gate m s history draft context in
        ((g.verdict ≡ evaluate g.text context) × (is_violation g.verdict.zone ≡ false))
        ⊎ ((g.text ≡ withheld) × (g.verdict.zone ≡ violation))
  unfolding apply_gate
  apply_gate_safe s history draft context on =
      let verdict = evaluate draft context in
      elim (Bool-cases (is_violation verdict.zone)) [
        | inl bad ↦ rw (reconsider_bad s history draft context verdict bad on) (
            settle-IsSafe context _
              (reflect-Accepted 3 1 s history context verdict.correction_vector draft verdict _))
        | inr fine ↦ rw (reconsider_fine s history draft context verdict fine) (inl (refl, fine))
      ]

  -- With no voice attached the gate lets the draft out as it is, whatever the verdict on it.
  pub apply_gate_no_voice :
      (s : S) (history : History) (draft : Bytes) (context : Option Bytes)
      → connected s ≡ false
      → let g = apply_gate m s history draft context in
        (g.text ≡ draft) × (g.verdict ≡ evaluate draft context)
  unfolding apply_gate
  apply_gate_no_voice s history draft context off =
      rw (reconsider_off s history draft context (evaluate draft context) off) (refl, refl)

  -- A draft outside Violation passes unchanged, and the voice is not called again.
  pub apply_gate_passes :
      (s : S) (history : History) (draft : Bytes) (context : Option Bytes)
      → is_violation (evaluate draft context).zone ≡ false
      → let g = apply_gate m s history draft context in
        (g.text ≡ draft) × (g.verdict ≡ evaluate draft context) × (g.voice ≡ s)
  unfolding apply_gate
  apply_gate_passes s history draft context fine =
      rw (reconsider_fine s history draft context (evaluate draft context) fine) (refl, refl, refl)

  settle-judged :
      (context : Option Bytes) (r : Option Bytes × Evaluation V × S × List (Event V))
      → Accepted context r.0 r.1
      → is_violation (settle m r).1.zone ≡ false
      → (settle m r).1 ≡ evaluate (settle m r).0 context
  unfolding settle
  settle-judged context (some text, verdict, s, events) h fine = h.0
  settle-judged context (none, verdict, s, events) h fine = ground arith

  -- Voice or none: a text that leaves the gate with a verdict outside Violation has the engine's own.
  pub apply_gate-judged :
      (s : S) (history : History) (draft : Bytes) (context : Option Bytes)
      → let g = apply_gate m s history draft context in
        is_violation g.verdict.zone ≡ false → g.verdict ≡ evaluate g.text context
  unfolding apply_gate
  apply_gate-judged s history draft context =
      let verdict = evaluate draft context in
      elim (Bool-cases (is_violation verdict.zone && connected s)) [
        | inl bad ↦
            let (violates, on) = both (is_violation verdict.zone) (connected s) bad in
            rw (reconsider_bad s history draft context verdict violates on) (
              settle-judged context _
                (reflect-Accepted 3 1 s history context verdict.correction_vector draft verdict _))
        | inr fine ↦ rw (reconsider_kept s history draft context verdict fine) (λ h. refl)
      ]
