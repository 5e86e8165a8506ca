-- ===== src/Core/Turn/Leaks.antt =====
-- What the end of a turn delivers when the voice of src/lina_core.cpp is attached, and when it is not.
use lina_cpx.Prelude.{
  ◌≡◌, ◌⊎◌, ◌↔◌, inl, inr, sym, arith, true, false, [], ◌∷◌, ◌++◌, Bytes, codes, Bool-cases, All,
  All-append, All-append_iff, is_empty, subst,
}
use lina_cpx.Core.Gate.{is_violation}
use lina_cpx.Core.Gate.Safety.{apply_gate_no_voice}
use lina_cpx.Core.Turn.{
  Entry, complete, telemetry, imprinted, Stage, Floor, pass_gate, finalize_turn, imprint,
  trim_start, context_of, marker,
}
use lina_cpx.Core.Turn.Journal.{Harmless, All-Adds, finalize_turn-Adds}
use lina_cpx.Core.Turn.Delivery.{Sayable, Delivered, pass_gate-Sayable}

module _ {S V W : Type 0} (st : Stage S V W) where
  -- What holds of the whole journal holds of the delivery.
  delivery :
      (P : Entry V → Type 0) (response user_message : Bytes) (f : Floor S V W)
      → is_empty (trim_start response) ≡ false
      → All P (finalize_turn st response user_message f).journal
      → P (complete (pass_gate st (trim_start response) (context_of user_message) f).0)
  unfolding finalize_turn imprint
  delivery P response user_message f on =
      let (delivered, zone, f') = pass_gate st (trim_start response) (context_of user_message) f in
      elim (Bool-cases (is_violation zone)) [
        | inl bad ↦ rw (on, bad) (λ h. (All-append_iff P f'.journal _ h).1.1.0)
        | inr fine ↦
            let told = f'.journal ++ complete delivered ∷ [] in
            let kept = told ++ imprinted delivered (marker zone) ∷ [] in
            rw (on, fine)
              (λ h.
                (All-append_iff P f'.journal _
                  (All-append_iff P told _ (All-append_iff P kept _ h).0).0).1.0)
      ]

  pass_gate_off :
      (text : Bytes) (m : Bytes) (f : Floor S V W)
      → st.mind.connected f.voice ≡ false
      → (pass_gate st text (context_of m) f).0 ≡ text
  unfolding pass_gate
  pass_gate_off text m f off =
      (apply_gate_no_voice st.mind f.voice f.conversation text (context_of m) off).0

  finalize_empty :
      (P : Entry V → Type 0) (response user_message : Bytes) (f : Floor S V W)
      → ((t : Bytes) → P (telemetry t))
      → is_empty (trim_start response) ≡ true
      → All P f.journal
      → All P (finalize_turn st response user_message f).journal
  unfolding finalize_turn
  finalize_empty P response user_message f lines e h =
      rw e (All-append P f.journal _ h (lines (codes "turn finalized empty"), tt))

  -- Where the deliveries of a turn so far are sayable (no violation in the turn's context, or the
  -- fixed refusal): they all still are at the turn's end if and only if nothing is left of the
  -- response without its leading blanks, or the voice is attached, or what is left is sayable
  -- itself. So the end of a turn shows a violation just when the voice is lost while the response
  -- is one.
  pub finalize_turn_delivers_iff :
      (response user_message : Bytes) (f : Floor S V W)
      → All (Delivered st (context_of user_message)) f.journal
      → All
          (Delivered st (context_of user_message))
          (finalize_turn st response user_message f).journal
        ↔ ((is_empty (trim_start response) ≡ true)
            ⊎ ((st.mind.connected f.voice ≡ true)
                ⊎ Sayable st (context_of user_message) (trim_start response)))
  finalize_turn_delivers_iff response m f v =
      let text = trim_start response in
      let P : Entry V → Type 0 = Delivered st (context_of m) in
      let harmless : Harmless P = record {
        on_thought = λ t. tt;
        on_score = λ t. tt;
        on_telemetry = λ t. tt;
        on_gate = λ e. tt;
        on_imprinted = λ t k. tt;
      } in
      let ends : P (complete (pass_gate st text (context_of m) f).0)
          → All P (finalize_turn st response m f).journal =
        λ p. All-Adds P _ _ (finalize_turn-Adds st m P harmless response f p) v in
      elim (Bool-cases (is_empty text)) [
        | inl e ↦ (λ h. inl e, λ h. finalize_empty P response m f (λ t. tt) e v)
        | inr some_text ↦ elim (Bool-cases (st.mind.connected f.voice)) [
          | inl on ↦ (λ h. inr (inl on), λ h. ends (pass_gate-Sayable st text (context_of m) f on))
          | inr off ↦
              let same = pass_gate_off text m f off in
              (
                λ h. inr (
                    inr (
                      subst (Sayable st (context_of m)) same
                        (delivery P response m f some_text h))),
                λ h. ends (
                    subst (Sayable st (context_of m)) (sym same) (elim h [
                      | inl e ↦ absurd (ground arith)
                      | inr (inl on) ↦ absurd (ground arith)
                      | inr (inr s) ↦ s
                    ])),
              )
        ]
      ]
