-- ===== src/Core/Turn/Bounds.antt =====
-- How long a turn of src/lina_core.cpp can go on, how often it can act, and on what.
use lina_cpx.Prelude.{
  ℕ, suc, ◌+◌, ◌≤◌, ◌≡◌, ◌≢◌, inl, inr, refl, ap, ◌∙◌, false, List, [], ◌∷◌, ◌++◌, some, Bytes,
  codes, arith, Bool-cases, is_empty, All, map, Option, none,
}
use lina_cpx.Tools.Json.{json_string}
use mathlib.Core.Option.{some-injective}
use lina_cpx.Tools.Engine.{
  ToolRequest, ApprovalHandler, ApprovalRequest, approved, execute, approval_of, set_approver,
}
use lina_cpx.Tools.Engine.Gate.{execute_gated}
use lina_cpx.Core.Turn.{
  Entry, acted, thought, score, tool_call, tool_result, complete, window, telemetry, gate,
  imprinted, Stage, Floor, log, finalize_turn, pass_gate, imprint, trim_start, context_of,
}
use lina_cpx.Core.Turn.Loop.{
  Loop, execute_tool, use_tool, hear, run_turn_loop, tool_request, identified, approval_lines,
  wired, request_approval,
}
use lina_cpx.Core.Gate.{is_violation}
use lina_cpx.Core.Turn.Journal.{Adds, Harmless, hear-Adds, finalize_turn-Adds}
use lina_cpx.Core.Turn.Rounds.{Kept, turn_ends}

-- how many actions the journal's ledger holds
unfoldable pub actions : {V : Type 0} → List (Entry V) → ℕ
actions [] = 0
actions (acted a ∷ es) = suc (actions es)
actions (_ ∷ es) = actions es

abbrev NotActed : {V : Type 0} → Entry V → Type 0
NotActed (acted a) = ⊥
NotActed _ = Unit

actions-append :
    {V : Type 0} (es fs : List (Entry V)) → actions (es ++ fs) ≡ actions es + actions fs
unfolding actions
actions-append [] fs = omega arith
actions-append (acted a ∷ es) fs = omega (arith, actions-append es fs)
actions-append (thought t ∷ es) fs = actions-append es fs
actions-append (score t ∷ es) fs = actions-append es fs
actions-append (tool_call t ∷ es) fs = actions-append es fs
actions-append (tool_result t ∷ es) fs = actions-append es fs
actions-append (complete t ∷ es) fs = actions-append es fs
actions-append (window t ∷ es) fs = actions-append es fs
actions-append (telemetry t ∷ es) fs = actions-append es fs
actions-append (gate e ∷ es) fs = actions-append es fs
actions-append (imprinted t m ∷ es) fs = actions-append es fs

no_actions : {V : Type 0} (es : List (Entry V)) → All NotActed es → actions es ≡ 0
unfolding actions
no_actions [] h = refl
no_actions (acted a ∷ es) h = absurd h.0
no_actions (thought t ∷ es) h = no_actions es h.1
no_actions (score t ∷ es) h = no_actions es h.1
no_actions (tool_call t ∷ es) h = no_actions es h.1
no_actions (tool_result t ∷ es) h = no_actions es h.1
no_actions (complete t ∷ es) h = no_actions es h.1
no_actions (window t ∷ es) h = no_actions es h.1
no_actions (telemetry t ∷ es) h = no_actions es h.1
no_actions (gate e ∷ es) h = no_actions es h.1
no_actions (imprinted t m ∷ es) h = no_actions es h.1

actions-Adds : {V : Type 0} (j k : List (Entry V)) → Adds NotActed j k → actions k ≡ actions j
actions-Adds j k a =
    ap actions a.added ∙ (actions-append j a.entries ∙ omega (arith, no_actions a.entries a.kind))

harmless : (V : Type 0) → Harmless {V = V} NotActed
harmless V = record {
  on_thought = λ t. tt;
  on_score = λ t. tt;
  on_telemetry = λ t. tt;
  on_gate = λ e. tt;
  on_imprinted = λ t m. tt;
}

module _ {S V W : Type 0} (st : Stage S V W) where
  actions-execute_tool :
      (now : ℕ) (request : ToolRequest) (f : Floor S V W)
      → actions (execute_tool st now request f).1.journal ≡ actions f.journal + 1
  unfolding execute_tool actions
  actions-execute_tool now request f =
      let said = approval_lines st.tools (st.stamp now) (identified (st.stamp now) request) in
      actions-append f.journal _ ∙ ap (λ n. actions f.journal + n) (lines said _)
    where
      lines :
          (ls : List Bytes) (es : List (Entry V)) → actions (map telemetry ls ++ es) ≡ actions es
      lines [] es = refl
      lines (l ∷ ls) es = lines ls es

  actions-use_tool :
      (json : Bytes) (l : Loop S V W) (f : Floor S V W)
      → actions (use_tool st json l f).floor.journal ≤ actions f.journal + 1
  unfolding use_tool actions
  actions-use_tool json l f =
      let name = json_string json (codes "name") in
      let called = log f (tool_call json ∷ []) in
      let first = actions-append f.journal (tool_call json ∷ []) in
      elim (Bool-cases (is_empty name)) [
        | inl e ↦ rw e (
            omega (
              arith,
              first,
              actions-append called.journal
                  (tool_result (codes "error: tool call missing name") ∷ []),
            ))
        | inr e ↦
            let ran = (execute_tool st l.round (tool_request name json) called).1.journal in
            rw e (
              omega (
                arith,
                first,
                actions-execute_tool l.round (tool_request name json) called,
                actions-append ran (tool_result _ ∷ []),
              ))
      ]

  actions-Kept :
      (m frame : Bytes) (base : ℕ) → Kept st m frame (λ n f. actions f.journal ≤ base + n)
  unfolding actions
  actions-Kept m frame base = record {
    on_hear =
        λ l n h. omega (arith, h, actions-Adds _ _ (hear-Adds st m NotActed (harmless V) frame l));
    on_tool = λ json l f n h. omega (arith, h, actions-use_tool json l f);
    on_finalize = λ text f n h.
        omega
          (arith, h, actions-Adds _ _ (finalize_turn-Adds st m NotActed (harmless V) text f tt));
    on_end = λ line f n h. omega (arith, h, actions-append f.journal (telemetry line ∷ []));
  }

  -- A turn ends within nine rounds, gives the floor back, and enters at most eight actions in the
  -- ledger, whatever the voice says and whenever it is stopped.
  pub run_turn_loop_ends :
      (user_message : Bytes) (f : Floor S V W)
      → (f' : Floor S V W) × (run_turn_loop 9 st user_message f ≡ some f')
        × (f'.is_active ≡ false)
        × (actions f'.journal ≤ actions f.journal + 8)
  unfolding run_turn_loop
  run_turn_loop_ends m f =
      let (f', e, off, (n, low, h)) =
        turn_ends st m (st.turn_frame m f.conversation) _ f f.conversation
          (actions-Kept m (st.turn_frame m f.conversation) (actions f.journal)) (omega arith) in
      (f', e, off, omega arith)

  -- No handler that is registered ever says yes.
  abbrev pub NeverApproves : Type 0
  NeverApproves =
      (handler : ApprovalHandler) (card : ApprovalRequest)
      → st.tools.approver ≡ some handler
      → handler card ≢ approved

  execute_refused :
      NeverApproves
      → (now : Bytes) (request : ToolRequest) (w : W)
      → (execute (wired st.tools) now request w).1 ≡ w
  unfolding wired set_approver request_approval
  execute_refused never now request w = elim (execute_gated (wired st.tools) now request w) [
    | inl (tool, yes', e) ↦ absurd (
        refused st.tools.approver refl _ (
          ap (λ h. h (approval_of now request tool)) (some-injective _ _ yes'.registered)
          ∙ yes'.says_yes))
    | inr (failed, code, same) ↦ same
  ]
    where
      refused :
          (a : Option ApprovalHandler)
          → st.tools.approver ≡ a
          → (card : ApprovalRequest) → (request_approval a card).0 ≡ approved
          → ⊥
      refused none e card h = ground arith
      refused (some handler) e card h = never handler card e h

  machine-use_tool :
      NeverApproves
      → (json : Bytes) (l : Loop S V W) (f : Floor S V W)
      → (use_tool st json l f).floor.machine ≡ f.machine
  unfolding use_tool execute_tool
  machine-use_tool never json l f =
      let name = json_string json (codes "name") in
      elim (Bool-cases (is_empty name)) [
        | inl e ↦ rw e refl
        | inr e ↦ rw e (execute_refused never (st.stamp l.round) _ f.machine)
      ]

  machine-finalize_turn :
      (m text : Bytes) (f : Floor S V W) → (finalize_turn st text m f).machine ≡ f.machine
  unfolding finalize_turn pass_gate imprint
  machine-finalize_turn m text f = elim (Bool-cases (is_empty (trim_start text))) [
    | inl e ↦ rw e refl
    | inr on ↦
        elim (Bool-cases (is_violation (pass_gate st (trim_start text) (context_of m) f).1)) [
          | inl bad ↦ rw (on, bad) refl
          | inr fine ↦ rw (on, fine) refl
        ]
  ]

  -- As long as the human approves nothing, a whole turn leaves the machine as it was, whatever the
  -- voice asks for.
  pub run_turn_loop_untouched :
      (user_message : Bytes) (f : Floor S V W)
      → NeverApproves
      → (f' : Floor S V W) × (run_turn_loop 9 st user_message f ≡ some f')
        × (f'.machine ≡ f.machine)
  unfolding run_turn_loop hear
  run_turn_loop_untouched m f never =
      let frame = st.turn_frame m f.conversation in
      let (f', e, off, (n, low, h)) =
        turn_ends st m frame (λ n g. g.machine ≡ f.machine) f f.conversation
          record {
            on_hear = λ l n h. h;
            on_tool = λ json l g n h. machine-use_tool never json l g ∙ h;
            on_finalize = λ text g n h. machine-finalize_turn m text g ∙ h;
            on_end = λ line g n h. h;
          }
          refl in
      (f', e, h)
