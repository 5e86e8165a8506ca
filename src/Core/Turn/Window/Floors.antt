-- ===== src/Core/Turn/Window/Floors.antt =====
-- What taking the floor in src/lina_core.cpp does to it: voluntary turns and the turns that are begun.
use lina_cpx.Prelude.{
  ◌≡◌, refl, sym, subst, ◌⊎◌, inl, inr, Bool, true, false, [], ◌∷◌, Option, none, Bytes, codes,
  is_empty, Bool-cases, arith,
}
use lina_cpx.Core.Gate.{History, is_violation}
use lina_cpx.Core.Turn.{
  Stage, Floor, log, remember, trim_start, imprint, pass_gate, context_of, finalize_turn, telemetry,
}
use lina_cpx.Core.Turn.Delivery.{pass_gate-judged}
use lina_cpx.Core.Turn.Window.{is_greeting_only, utterance, release, run_voluntary_turn}

module _ {S V W : Type 0} (st : Stage S V W) where
  -- the conversation stays, or gains an answer in which the engine finds no violation
  abbrev pub Continues : Option Bytes → History → History → Type 0
  Continues context old new =
      (new ≡ old)
      ⊎ ((text : Bytes) × (new ≡ remember old (codes "assistant", text))
          × (is_violation (st.mind.evaluate text context).zone ≡ false))

  -- what `finalize_turn` does to the floor
  record Settles (m : Bytes) (f f' : Floor S V W) : Type 0 where
    holds : f'.is_active ≡ f.is_active
    continues : Continues (context_of m) f.conversation f'.conversation

  finalize_turn-Settles :
      (text m : Bytes) (f : Floor S V W) → Settles m f (finalize_turn st text m f)
  unfolding finalize_turn imprint pass_gate
  finalize_turn-Settles text m f = elim (Bool-cases (is_empty (trim_start text))) [
    | inl e ↦ record { holds = ground arith; continues = inl (ground arith) }
    | inr e ↦
        let zone = (pass_gate st (trim_start text) (context_of m) f).1 in
        elim (Bool-cases (is_violation zone)) [
          | inl bad ↦ record { holds = ground arith; continues = inl (ground arith) }
          | inr fine ↦ record {
            holds = ground arith;
            continues = inr (
              (pass_gate st (trim_start text) (context_of m) f).0,
              ground arith,
              pass_gate-judged st (trim_start text) (context_of m) f fine,
            );
          }
        ]
  ]

  -- the floor after a voluntary turn that found it free
  record Freed (f f' : Floor S V W) : Type 0 where
    free : f'.is_active ≡ false
    continues : Continues none f.conversation f'.conversation

  taken_up :
      (pure_greeting : Bytes → Bool) (f : Floor S V W)
      → f.is_active ≡ false
      → Freed f (run_voluntary_turn pure_greeting st f)
  unfolding run_voluntary_turn utterance
  taken_up pure_greeting f off =
      let (text, f') = utterance st (record f { is_active = true }) in
      elim (Bool-cases (st.mind.connected f.voice)) [
        | inr mute ↦ record { free = ground arith; continues = inl (ground arith) }
        | inl on ↦ elim (Bool-cases (is_empty text)) [
          | inl silent ↦ record { free = ground arith; continues = inl (ground arith) }
          | inr words ↦ elim (Bool-cases (is_greeting_only pure_greeting text)) [
            | inl canned ↦ record { free = ground arith; continues = inl (ground arith) }
            | inr says ↦
                let speaks = log f' (telemetry (codes "voluntary utterance") ∷ []) in
                let said = finalize_turn-Settles text [] speaks in
                let ends : run_voluntary_turn pure_greeting st f
                    ≡ release (finalize_turn st text [] speaks) =
                  ground arith in
                subst (Freed f) (sym ends) (record { free = refl; continues = said.continues })
          ]
        ]
      ]

  -- Where somebody holds the floor, a voluntary turn changes nothing. Otherwise it leaves the floor free, and the
  -- conversation as it was or with one more answer, in which the engine finds no violation.
  pub run_voluntary_turn_yields :
      (pure_greeting : Bytes → Bool) (f : Floor S V W)
      → let f' = run_voluntary_turn pure_greeting st f in
        ((f.is_active ≡ true) × (f' ≡ f))
        ⊎ ((f.is_active ≡ false)
            × (f'.is_active ≡ false)
            × Continues none f.conversation f'.conversation)
  unfolding run_voluntary_turn
  run_voluntary_turn_yields pure_greeting f = elim (Bool-cases f.is_active) [
    | inl on ↦ inl (on, ground arith)
    | inr off ↦ let freed = taken_up pure_greeting f off in inr (off, freed.free, freed.continues)
  ]
