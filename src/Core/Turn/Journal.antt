-- ===== src/Core/Turn/Journal.antt =====
-- What the operations of a turn in src/lina_core.cpp add to its journal.
use lina_cpx.Prelude.{
  ℕ, ◌+◌, ◌≡◌, refl, sym, inl, inr, ap, ◌∙◌, Bool, true, false, List, [], ◌∷◌, ◌++◌, append_assoc,
  map, Option, some, Bytes, codes, Bool-cases, is_empty, if◌then◌else◌, leb, All, All-append, subst,
}
use lina_cpx.StreamParser.{StreamParser, fresh, feed, take_completed_thoughts}
use lina_cpx.Tools.Json.{json_string}
use lina_cpx.Tools.Engine.{ToolRequest}
use lina_cpx.Core.Gate.{Event, is_violation, apply_gate}
use lina_cpx.Core.Turn.{
  Entry, acted, thought, score, tool_call, tool_result, complete, telemetry, gate, imprinted, Stage,
  Floor, log, finalize_turn, pass_gate, imprint, trim_start, context_of, marker, ActionRecord,
}
use lina_cpx.Core.Turn.Loop.{
  Loop, listen, execute_tool, use_tool, hear, tool_request, identified, approval_lines,
}

-- `j'` is `j` with entries of a kind behind it.
pub record Adds {V : Type 0} (P : Entry V → Type 0) (j j' : List (Entry V)) : Type 0 where
  pub entries : List (Entry V)
  pub added : j' ≡ j ++ entries
  pub kind : All P entries

module _ {V : Type 0} (P : Entry V → Type 0) where
  pub Adds-append : (j es : List (Entry V)) → All P es → Adds P j (j ++ es)
  Adds-append j es h = record { entries = es; added = refl; kind = h }

  pub Adds-trans : (i j k : List (Entry V)) → Adds P i j → Adds P j k → Adds P i k
  Adds-trans i j k a b = record {
    entries = a.entries ++ b.entries;
    added = b.added ∙ (ap (λ x. x ++ b.entries) a.added ∙ append_assoc i a.entries b.entries);
    kind = All-append P a.entries b.entries a.kind b.kind;
  }

  pub All-Adds : (j k : List (Entry V)) → Adds P j k → All P j → All P k
  All-Adds j k a h = subst (All P) (sym a.added) (All-append P j a.entries h a.kind)

  All-map : {A : Type 0} (f : A → Entry V) (xs : List A) → ((x : A) → P (f x)) → All P (map f xs)
  All-map f [] h = tt
  All-map f (x ∷ xs) h = (h x, All-map f xs h)

-- The kinds that every operation but a tool call adds.
pub record Harmless {V : Type 0} (P : Entry V → Type 0) : Type 0 where
  pub on_thought : (t : Bytes) → P (thought t)
  pub on_score : (t : Bytes) → P (score t)
  pub on_telemetry : (t : Bytes) → P (telemetry t)
  pub on_gate : (e : Event V) → P (gate e)
  pub on_imprinted : (t m : Bytes) → P (imprinted t m)

module _ {S V W : Type 0} (st : Stage S V W) (user_message : Bytes) (P : Entry V → Type 0)
    (h : Harmless P) where
  pub listen-All :
      (pieces : List Bytes) (parser : StreamParser) (full : Bytes) (since : ℕ)
      → All P (listen st user_message pieces parser full since).0
  unfolding listen
  listen-All [] parser full since = tt
  listen-All (piece ∷ pieces) parser full since =
      let (thoughts, parser') = take_completed_thoughts (feed parser piece) in
      let is_due = leb 8 (since + 1) in
      let scored : List (Entry V) =
        if is_due then score (st.score_of (full ++ piece) (some user_message)) ∷ [] else [] in
      All-append P (map thought thoughts) _ (All-map P thought thoughts h.on_thought) (
        All-append P scored _ (scored-All is_due (st.score_of (full ++ piece) (some user_message)))
          (listen-All pieces parser' (full ++ piece) (if is_due then 0 else since + 1)))
    where
      scored-All : (b : Bool) (t : Bytes) → All P (if b then score t ∷ [] else [])
      scored-All true t = (h.on_score t, tt)
      scored-All false t = tt

  pub hear-Adds :
      (frame : Bytes) (l : Loop S V W)
      → Adds P l.floor.journal (hear st user_message frame l).1.journal
  unfolding hear
  hear-Adds frame l =
      Adds-append P l.floor.journal _
        (listen-All (st.generate_stream l.floor.voice frame l.turn_history).0 fresh [] 0)

  pub pass_gate-Adds :
      (text : Bytes) (context : Option Bytes) (f : Floor S V W)
      → Adds P f.journal (pass_gate st text context f).2.journal
  unfolding pass_gate
  pass_gate-Adds text context f =
      let events = (apply_gate st.mind f.voice f.conversation text context).events in
      Adds-append P f.journal (map gate events) (All-map P gate events h.on_gate)

  -- A turn's end adds the delivered text, if any.
  pub finalize_turn-Adds :
      (text : Bytes) (f : Floor S V W)
      → P (complete (pass_gate st (trim_start text) (context_of user_message) f).0)
      → Adds P f.journal (finalize_turn st text user_message f).journal
  unfolding finalize_turn imprint
  finalize_turn-Adds text f p = elim (Bool-cases (is_empty (trim_start text))) [
    | inl e ↦ rw e (
        Adds-append P f.journal (telemetry (codes "turn finalized empty") ∷ [])
          (h.on_telemetry _, tt))
    | inr on ↦
        let (delivered, zone, f') = pass_gate st (trim_start text) (context_of user_message) f in
        let gated = pass_gate-Adds (trim_start text) (context_of user_message) f in
        elim (Bool-cases (is_violation zone)) [
          | inl bad ↦
              rw (on, bad)
                (Adds-trans P f.journal f'.journal _ gated
                  (Adds-append P f'.journal _ (h.on_telemetry _, (p, tt))))
          | inr fine ↦
              let told = f'.journal ++ complete delivered ∷ [] in
              let kept = told ++ imprinted delivered (marker zone) ∷ [] in
              rw (on, fine)
                (Adds-trans P f.journal f'.journal _ gated (
                  Adds-trans P f'.journal told _ (Adds-append P f'.journal _ (p, tt)) (
                    Adds-trans P told kept _ (Adds-append P told _ (h.on_imprinted _ _, tt))
                      (Adds-append P kept _ (h.on_telemetry _, tt)))))
        ]
  ]

-- What a tool call adds as well.
pub record HarmlessTools {V : Type 0} (P : Entry V → Type 0) : Type 0 where
  pub on_call : (t : Bytes) → P (tool_call t)
  pub on_result : (t : Bytes) → P (tool_result t)
  pub on_acted : (a : ActionRecord) → P (acted a)
  pub on_line : (t : Bytes) → P (telemetry t)

module _ {S V W : Type 0} (st : Stage S V W) (P : Entry V → Type 0) (h : HarmlessTools P) where
  execute_tool-Adds :
      (now : ℕ) (request : ToolRequest) (f : Floor S V W)
      → Adds P f.journal (execute_tool st now request f).1.journal
  unfolding execute_tool
  execute_tool-Adds now request f =
      let said = approval_lines st.tools (st.stamp now) (identified (st.stamp now) request) in
      Adds-append P f.journal _
        (All-append P (map telemetry said) _ (lines said) (h.on_acted _, (h.on_line _, tt)))
    where
      lines : (ls : List Bytes) → All P (map telemetry ls)
      lines [] = tt
      lines (l ∷ ls) = (h.on_line l, lines ls)

  pub use_tool-Adds :
      (json : Bytes) (l : Loop S V W) (f : Floor S V W)
      → Adds P f.journal (use_tool st json l f).floor.journal
  unfolding use_tool
  use_tool-Adds json l f =
      let called = f.journal ++ tool_call json ∷ [] in
      let name = json_string json (codes "name") in
      let first = Adds-append P f.journal (tool_call json ∷ []) (h.on_call json, tt) in
      elim (Bool-cases (is_empty name)) [
        | inl e ↦
            rw e
              (Adds-trans P f.journal called _ first (Adds-append P called _ (h.on_result _, tt)))
        | inr e ↦
            let ran =
              (execute_tool st l.round (tool_request name json)
                (log f (tool_call json ∷ []))).1.journal in
            rw e (
              Adds-trans P f.journal called _ first (
                Adds-trans P called ran _
                  (execute_tool-Adds l.round (tool_request name json) (log f (tool_call json ∷ [])))
                  (Adds-append P ran _ (h.on_result _, tt))))
      ]
