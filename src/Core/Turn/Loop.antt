-- ===== src/Core/Turn/Loop.antt =====
-- The loop of a turn, `run_turn_loop` of src/lina_core.cpp: the stream of the voice is parsed, and tool
-- calls are executed and fed back.
use lina_cpx.Prelude.{
  ℕ, zero, suc, ◌+◌, ◌*◌, false, not, ◌&&◌, List, [], ◌∷◌, ◌++◌, map, Option, none, some, Bytes,
  codes, is_empty, ltb, leb, if◌then◌else◌,
}
use lina_cpx.StreamParser.{StreamParser, ParsedTurn, fresh, feed, take_completed_thoughts, result}
use lina_cpx.Tools.Json.{json_string, json_object}
use lina_cpx.Tools.Engine.{
  ToolRequest, ToolResult, ToolEngine, ApprovalRequest, ApprovalHandler, ApprovalDecision, approved,
  denied, timed_out, find_tool, approval_of, set_approver, execute,
}
use lina_cpx.Core.Gate.{History}
use lina_cpx.Core.Turn.{
  ActionRecord, Entry, thought, score, tool_call, tool_result, telemetry, acted, Stage, Floor, log,
  finalize_turn,
}

-- the variables of the loop; `round` counts its rounds
pub record Loop (S V W : Type 0) : Type 0 where
  pub floor : Floor S V W
  pub turn_history : History
  pub tool_calls : ℕ
  pub round : ℕ

pub data Step (S V W : Type 0) : Type 0 where
  finished : Floor S V W → Step S V W
  going : Loop S V W → Step S V W

abbrev pub max_tool_calls : ℕ
max_tool_calls = 8

abbrev pub tool_request : Bytes → Bytes → ToolRequest
tool_request name json = record {
  name = name;
  arguments_json = json_object json (codes "arguments");
  description = json;
  action_id = [];
}

abbrev pub outcome : ToolResult → Bytes
outcome r = if r.is_ok then r.summary else r.error

abbrev pub decision_label : ApprovalDecision → Bytes
decision_label approved = codes "approved"
decision_label denied = codes "denied"
decision_label timed_out = codes "timed-out"

-- a line about a card
abbrev pub card_line : ApprovalRequest → Bytes → Bytes
card_line card text =
    codes "approval id="
    ++ (card.action_id ++ (codes " tool=" ++ (card.tool_name ++ (codes " " ++ text))))

-- `request_approval`: the decision of the handler, if there is one, and the lines for the telemetry
unfoldable pub request_approval :
    Option ApprovalHandler → ApprovalRequest → ApprovalDecision × List Bytes
request_approval none card = (denied, card_line card (codes "no-handler -> denied") ∷ [])
request_approval (some handler) card = (
  handler card,
  card_line card (codes "waiting")
      ∷ (codes "approval id="
          ++ (card.action_id ++ (codes " resolved=" ++ decision_label (handler card))))
      ∷ [],
)

-- The engine as the core wires it at its boot: it asks `request_approval`, here of its handler.
unfoldable pub wired : {W : Type 0} → ToolEngine W → ToolEngine W
unfolding request_approval set_approver
wired e = set_approver e (some (λ card. (request_approval e.approver card).0))

-- the lines of the approval that `execute` asks for, if it comes to that
unfoldable pub approval_lines : {W : Type 0} → ToolEngine W → Bytes → ToolRequest → List Bytes
unfolding request_approval find_tool approval_of
approval_lines e stamp request = elim (find_tool request.name e.tools) [
  | none ↦ []
  | some tool ↦ (request_approval e.approver (approval_of stamp request tool)).1
]

-- a request with an id of its own
abbrev pub identified : Bytes → ToolRequest → ToolRequest
identified stamp request = record request {
  action_id = if is_empty request.action_id then codes "act_" ++ stamp else request.action_id;
}

module _ {S V W : Type 0} where
  -- what the callback does with the pieces: the text so far, and the pieces since the last score
  unfoldable pub listen :
      Stage S V W → Bytes → List Bytes → StreamParser → Bytes → ℕ → List (Entry V) × StreamParser
  listen st user_message [] parser full since = ([], parser)
  listen st user_message (piece ∷ pieces) parser full since =
      let full' = full ++ piece in
      let (thoughts, parser') = take_completed_thoughts (feed parser piece) in
      let is_due = leb 8 (since + 1) in
      let (entries, last) =
        listen st user_message pieces parser' full' (if is_due then 0 else since + 1) in
      let scored : List (Entry V) =
        if is_due then score (st.score_of full' (some user_message)) ∷ [] else [] in
      (map thought thoughts ++ (scored ++ entries), last)

  -- `execute_tool`: the action is entered in the ledger
  unfoldable pub execute_tool :
      Stage S V W → ℕ → ToolRequest → Floor S V W → ToolResult × Floor S V W
  unfolding wired approval_lines
  execute_tool st now request f =
      let with_id = identified (st.stamp now) request in
      let (r, machine') = execute (wired st.tools) (st.stamp now) with_id f.machine in
      let action : ActionRecord = record {
        id = with_id.action_id;
        tool_name = with_id.name;
        params_json = with_id.arguments_json;
        state = if r.is_ok then codes "executed" else codes "denied";
        result = if r.is_ok then r.summary else [];
        error = r.error;
      } in
      (
        r,
        record f {
          machine = machine';
          journal =
              f.journal
              ++ (map telemetry (approval_lines st.tools (st.stamp now) with_id)
                  ++ acted action
                    ∷ telemetry (
                        codes "tool id="
                        ++ (with_id.action_id
                            ++ (codes " name="
                                ++ (with_id.name ++ (codes " state=" ++ action.state)))))
                    ∷ []);
        },
      )

  abbrev pub end_turn : Bytes → Floor S V W → Floor S V W
  end_turn line f = log (record f { is_active = false }) (telemetry line ∷ [])

  -- a completed tool call: execute it and feed the result back
  unfoldable pub use_tool : Stage S V W → Bytes → Loop S V W → Floor S V W → Loop S V W
  use_tool st json l f =
      let called = log f (tool_call json ∷ []) in
      let name = json_string json (codes "name") in
      let asked =
        l.turn_history
        ++ (codes "assistant", codes "<tool_call>" ++ (json ++ codes "</tool_call>")) ∷ [] in
      let answered : Bytes → Floor S V W → Loop S V W = λ answer f'. record {
        floor = f';
        turn_history = asked ++ (codes "user", answer) ∷ [];
        tool_calls = l.tool_calls + 1;
        round = l.round + 1;
      } in
      if is_empty name
      then answered (codes "[tool_result error] tool call missing name")
          (log called (tool_result (codes "error: tool call missing name") ∷ []))
      else let (r, f') = execute_tool st l.round (tool_request name json) called in
        answered
          (codes "[tool_result name="
            ++ (name
                ++ (codes " ok="
                    ++ ((if r.is_ok then codes "true" else codes "false")
                        ++ (codes "]" ++ 10 ∷ outcome r)))))
          (log f' (
            tool_result (
              name
              ++ (codes "|"
                  ++ ((if r.is_ok then codes "1" else codes "0") ++ (codes "|" ++ outcome r))))
            ∷ []))

  -- the stream of a round, classified
  unfoldable pub hear : Stage S V W → Bytes → Bytes → Loop S V W → ParsedTurn × Floor S V W
  hear st user_message system_frame l =
      let (pieces, s') = st.generate_stream l.floor.voice system_frame l.turn_history in
      let (entries, parser) = listen st user_message pieces fresh [] 0 in
      (result parser, log (record (l.floor) { voice = s' }) entries)

  -- one round of the loop of `run_turn_loop`
  unfoldable pub turn_round : Stage S V W → Bytes → Bytes → Loop S V W → Step S V W
  turn_round st user_message system_frame l =
      if st.stop (2 * l.round)
      then finished (end_turn (codes "turn end stopped") l.floor)
      else let (parsed, f) = hear st user_message system_frame l in
        if st.stop (2 * l.round + 1)
        then finished
            (end_turn (codes "turn end stopped") (finalize_turn st parsed.response user_message f))
        else if parsed.has_tool_call
            && not (is_empty parsed.tool_call_json)
            && ltb l.tool_calls max_tool_calls
        then going (use_tool st parsed.tool_call_json l f)
        else finished
            (end_turn (codes "turn end") (finalize_turn st parsed.response user_message f))

  -- The loop, with fuel for its rounds; `none` when the fuel is spent.
  unfoldable pub turn_rounds : ℕ → Stage S V W → Bytes → Bytes → Step S V W → Option (Floor S V W)
  turn_rounds fuel st user_message system_frame (finished f) = some f
  turn_rounds zero st user_message system_frame (going l) = none
  turn_rounds (suc fuel) st user_message system_frame (going l) =
      turn_rounds fuel st user_message system_frame (turn_round st user_message system_frame l)

  unfoldable pub run_turn_loop : ℕ → Stage S V W → Bytes → Floor S V W → Option (Floor S V W)
  run_turn_loop fuel st user_message f =
      turn_rounds fuel st user_message (st.turn_frame user_message f.conversation)
        (going record { floor = f; turn_history = f.conversation; tool_calls = 0; round = 0 })
