-- ===== src/Core/Turn/Delivery.antt =====
-- What a turn and a chat of src/lina_core.cpp deliver, and what they remember.
use lina_cpx.Prelude.{
  ◌≤◌, ◌≡◌, ◌⊎◌, inl, inr, refl, sym, ap, ◌∙◌, true, false, List, [], ◌∷◌, ◌++◌, map, Option, some,
  Bytes, codes, arith, Bool-cases, All, All-append, length, length-append, length-drop, ltb, ltb→le,
}
use lina_cpx.Core.Gate.{Event, is_violation, Message, History, withheld}
use lina_cpx.Core.Gate.Safety.{apply_gate_safe, apply_gate-judged}
use lina_cpx.Core.Turn.{
  Entry, acted, thought, score, tool_call, tool_result, complete, window, telemetry, gate,
  imprinted, Stage, Floor, pass_gate, imprint, trim_start, context_of, remember,
}
use lina_cpx.Core.Turn.Loop.{run_turn_loop}
use lina_cpx.Core.Turn.Chat.{chat, voiced, gate_answer, ask}
use lina_cpx.Core.Turn.Journal.{
  Adds, Adds-append, Adds-trans, All-Adds, Harmless, HarmlessTools, hear-Adds, use_tool-Adds,
  finalize_turn-Adds,
}
use lina_cpx.Core.Turn.Rounds.{turn_ends}

module _ {S V W : Type 0} (st : Stage S V W) where
  -- A text that may be shown: the engine finds no violation in it, or it is the fixed refusal.
  abbrev pub Sayable : Option Bytes → Bytes → Type 0
  Sayable context text =
      (is_violation (st.mind.evaluate text context).zone ≡ false) ⊎ (text ≡ withheld)

  -- A delivery is sayable; the other entries are free.
  abbrev pub Delivered : Option Bytes → Entry V → Type 0
  Delivered context (complete text) = Sayable context text
  Delivered context _ = Unit

  pub pass_gate-Sayable :
      (text : Bytes) (context : Option Bytes) (f : Floor S V W)
      → st.mind.connected f.voice ≡ true
      → Sayable context (pass_gate st text context f).0
  unfolding pass_gate
  pass_gate-Sayable text context f on =
      elim (apply_gate_safe st.mind f.voice f.conversation text context on) [
        | inl (same, fine) ↦ inl (ap (λ v. is_violation v.zone) (sym same) ∙ fine)
        | inr (fixed, bad) ↦ inr fixed
      ]

  -- With a voice that stays attached, and a journal whose deliveries are already so: every text
  -- that a turn delivers is one in which the engine finds no violation in the turn's context, or
  -- the fixed refusal.
  pub run_turn_loop_delivers :
      (user_message : Bytes) (f : Floor S V W)
      → ((s : S) → st.mind.connected s ≡ true)
      → All (Delivered (context_of user_message)) f.journal
      → (f' : Floor S V W) × (run_turn_loop 9 st user_message f ≡ some f')
        × All (Delivered (context_of user_message)) f'.journal
  unfolding run_turn_loop
  run_turn_loop_delivers m f on v =
      let frame = st.turn_frame m f.conversation in
      let P : Entry V → Type 0 = Delivered (context_of m) in
      let harmless : Harmless P = record {
        on_thought = λ t. tt;
        on_score = λ t. tt;
        on_telemetry = λ t. tt;
        on_gate = λ e. tt;
        on_imprinted = λ t k. tt;
      } in
      let tools : HarmlessTools P = record {
        on_call = λ t. tt;
        on_result = λ t. tt;
        on_acted = λ a. tt;
        on_line = λ t. tt;
      } in
      let (f', e, off, (n, low, h)) =
        turn_ends st m frame (λ n g. All P g.journal) f f.conversation
          record {
            on_hear = λ l n h. All-Adds P _ _ (hear-Adds st m P harmless frame l) h;
            on_tool = λ json l g n h. All-Adds P _ _ (use_tool-Adds st P tools json l g) h;
            on_finalize = λ text g n h.
                All-Adds P _ _
                  (finalize_turn-Adds st m P harmless text g
                    (pass_gate-Sayable (trim_start text) (context_of m) g (on g.voice)))
                  h;
            on_end = λ line g n h. All-append P g.journal (telemetry line ∷ []) h (tt, tt);
          }
          v in
      (f', e, h)

  remember-length :
      (h : History) (message : Message) → length h ≤ 21 → length (remember h message) ≤ 20
  unfolding remember
  remember-length h message short =
      let longer = h ++ message ∷ [] in
      elim (Bool-cases (ltb 20 (length longer))) [
        | inl e ↦ rw e (omega (arith, length-drop 2 longer, length-append h (message ∷ [])))
        | inr e ↦ rw e (ltb→le 20 (length longer) e)
      ]

  -- entries that are no memory, or only the memory of a text
  abbrev pub Forgets : Entry V → Type 0
  Forgets (imprinted text m) = ⊥
  Forgets _ = Unit

  abbrev pub Imprints : Bytes → Entry V → Type 0
  Imprints text (imprinted t m) = t ≡ text
  Imprints text _ = Unit

  pub pass_gate-judged :
      (text : Bytes) (context : Option Bytes) (f : Floor S V W)
      → is_violation (pass_gate st text context f).1 ≡ false
      → is_violation (st.mind.evaluate (pass_gate st text context f).0 context).zone ≡ false
  unfolding pass_gate
  pass_gate-judged text context f fine =
      ap (λ v. is_violation v.zone)
        (sym (apply_gate-judged st.mind f.voice f.conversation text context fine))
      ∙ fine

  pass_gate-Forgets :
      (text : Bytes) (context : Option Bytes) (f : Floor S V W)
      → Adds Forgets f.journal (pass_gate st text context f).2.journal
  unfolding pass_gate
  pass_gate-Forgets text context f = Adds-append Forgets f.journal _ (gates_forget _)
    where
      gates_forget : (es : List (Event V)) → All Forgets (map gate es)
      gates_forget [] = tt
      gates_forget (e ∷ es) = (tt, gates_forget es)

  -- What becomes of an answer: nothing is remembered, or a text in which the engine finds no
  -- violation is, as a memory and in the conversation.
  abbrev pub Remembered : Bytes → History → List (Entry V) → Bytes → Floor S V W → Type 0
  Remembered user_message asked j text f' =
      ((f'.conversation ≡ asked) × Adds Forgets j f'.journal)
      ⊎ ((is_violation (st.mind.evaluate text (some user_message)).zone ≡ false)
          × (f'.conversation ≡ remember asked (codes "assistant", text))
          × Adds (Imprints text) j f'.journal)

  Imprints-any : (text : Bytes) (es : List (Entry V)) → All Forgets es → All (Imprints text) es
  Imprints-any text [] h = tt
  Imprints-any text (imprinted t m ∷ es) h = absurd h.0
  Imprints-any text (thought t ∷ es) h = (tt, Imprints-any text es h.1)
  Imprints-any text (score t ∷ es) h = (tt, Imprints-any text es h.1)
  Imprints-any text (tool_call t ∷ es) h = (tt, Imprints-any text es h.1)
  Imprints-any text (tool_result t ∷ es) h = (tt, Imprints-any text es h.1)
  Imprints-any text (complete t ∷ es) h = (tt, Imprints-any text es h.1)
  Imprints-any text (window t ∷ es) h = (tt, Imprints-any text es h.1)
  Imprints-any text (telemetry t ∷ es) h = (tt, Imprints-any text es h.1)
  Imprints-any text (gate e ∷ es) h = (tt, Imprints-any text es h.1)
  Imprints-any text (acted a ∷ es) h = (tt, Imprints-any text es h.1)

  gate_answer-Remembered :
      (raw user_message : Bytes) (f : Floor S V W)
      → let (text, f') = gate_answer st raw user_message f in
        Remembered user_message f.conversation f.journal text f'
  unfolding gate_answer imprint
  gate_answer-Remembered raw user_message f =
      let (final, zone, f') = pass_gate st raw (some user_message) f in
      let gated = pass_gate-Forgets raw (some user_message) f in
      elim (Bool-cases (is_violation zone)) [
        | inl bad ↦ rw bad (
            inl (
              unfold pass_gate in refl,
              Adds-trans Forgets f.journal f'.journal _ gated
                  (Adds-append Forgets f'.journal _ (tt, tt)),
            ))
        | inr fine ↦ rw fine (
            inr (
              pass_gate-judged raw (some user_message) f fine,
              unfold pass_gate in refl,
              Adds-trans (Imprints final) f.journal f'.journal _
                  (record {
                    entries = gated.entries;
                    added = gated.added;
                    kind = Imprints-any final gated.entries gated.kind;
                  })
                  (Adds-append (Imprints final) f'.journal _ (refl, tt)),
            ))
      ]

  -- Voice or none: a chat, once the core is ready, adds the user's message to the conversation,
  -- and remembers either nothing more, or the answer that it returns, in which the engine finds no
  -- violation.
  pub chat_remembers :
      (user_message image_path : Bytes) (f : Floor S V W)
      → let (text, f') = chat st true user_message image_path f in
        Remembered user_message (ask user_message image_path f).conversation f.journal text f'
  unfolding chat ask
  chat_remembers user_message image_path f =
      let asked = ask user_message image_path f in
      let (raw, s') = voiced st asked in
      gate_answer-Remembered raw user_message (record asked { voice = s' })
