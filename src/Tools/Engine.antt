-- ===== src/Tools/Engine.antt =====
-- The tool engine of src/tool_engine.cpp. A tool acts on the state of the machine, a type `W` of
-- which the engine knows nothing; the approval handler (include/approval_gate.hpp) is a function
-- that the core registers, and a time stamp that names an action is an argument.
pub mod Gate
use lina_cpx.Prelude.{
  ℕ, ◌+◌, ◌-◌, Bool, true, false, List, [], ◌∷◌, ◌++◌, map, Option, none, some, Bytes, codes,
  length, take, bytes_eq, is_empty, leb, if◌then◌else◌,
}
use lina_cpx.Prelude.Decimal.{to_string}

pub record ToolResult : Type 0 where
  pub is_ok : Bool
  pub output : Bytes
  pub error : Bytes
  pub exit_code : ℕ
  pub summary : Bytes
  pub action_id : Bytes

-- `ToolResult result;`
abbrev pub no_result : ToolResult
no_result = record {
  is_ok = false;
  output = [];
  error = [];
  exit_code = 0;
  summary = [];
  action_id = [];
}

pub record ToolRequest : Type 0 where
  pub name : Bytes
  pub arguments_json : Bytes
  pub description : Bytes
  pub action_id : Bytes

pub record ApprovalRequest : Type 0 where
  pub action_id : Bytes
  pub tool_name : Bytes
  pub description : Bytes
  pub timeout_ms : ℕ

pub data ApprovalDecision : Type 0 where
  approved denied timed_out : ApprovalDecision

abbrev pub ApprovalHandler : Type 0
ApprovalHandler = ApprovalRequest → ApprovalDecision

abbrev pub summary_limit : ℕ
summary_limit = 400

unfoldable pub truncate : Bytes → ℕ → Bytes
unfolding to_string
truncate text limit =
    if leb (length text) limit
    then text
    else take limit text
      ++ (codes "...[" ++ (to_string (length text - limit) ++ codes " bytes more]"))

pub record Tool (W : Type 0) : Type 0 where
  pub name : Bytes
  pub description : Bytes
  pub run : W → Bytes → ToolResult × W

pub record ToolEngine (W : Type 0) : Type 0 where
  pub workspace_dir : Bytes
  pub tools : List (Tool W)
  pub approver : Option ApprovalHandler

-- a result that has an error alone
abbrev pub fails : Bytes → ToolResult
fails error = record no_result { error = error; exit_code = 1 }

module _ {W : Type 0} where
  unfoldable pub register_tool : ToolEngine W → Tool W → ToolEngine W
  register_tool e tool = record e { tools = e.tools ++ tool ∷ [] }

  unfoldable pub set_approver : ToolEngine W → Option ApprovalHandler → ToolEngine W
  set_approver e handler = record e { approver = handler }

  unfoldable pub tool_names : ToolEngine W → List Bytes
  tool_names e = map (λ t. t.name) e.tools

  registry_lines : List (Tool W) → Bytes
  registry_lines [] = []
  registry_lines (t ∷ ts) =
      codes "- " ++ (t.name ++ (codes ": " ++ (t.description ++ 10 ∷ registry_lines ts)))

  unfoldable pub registry_block : ToolEngine W → Bytes
  unfolding registry_lines
  registry_block e =
      codes "[TOOL REGISTRY]"
      ++ 10
        ∷ (registry_lines e.tools
            ++ codes
                "To call a tool, emit: <tool_call>{\"name\":\"<tool>\",\"arguments\":{...}}</tool_call>")

  -- the loop that looks for the tool: the first of that name
  unfoldable pub find_tool : Bytes → List (Tool W) → Option (Tool W)
  find_tool name [] = none
  find_tool name (t ∷ ts) = if bytes_eq t.name name then some t else find_tool name ts

  -- the card that the human sees
  unfoldable pub approval_of : Bytes → ToolRequest → Tool W → ApprovalRequest
  approval_of stamp request tool = record {
    action_id = if is_empty request.action_id then codes "act_" ++ stamp else request.action_id;
    tool_name = request.name;
    description =
        if is_empty request.description
        then tool.description ++ (codes " args=" ++ request.arguments_json)
        else request.description;
    timeout_ms = 30000;
  }

  -- what the decision leads to
  unfoldable pub decided :
      W → ToolRequest → Tool W → ApprovalRequest → ApprovalDecision → ToolResult × W
  decided w request tool approval approved =
      let (result, w') = tool.run w request.arguments_json in
      (record result { action_id = approval.action_id }, w')
  decided w request tool approval denied =
      (record (fails (codes "denied by human")) { action_id = approval.action_id }, w)
  decided w request tool approval timed_out =
      (record (fails (codes "approval timed out")) { action_id = approval.action_id }, w)

  unfoldable pub execute : ToolEngine W → Bytes → ToolRequest → W → ToolResult × W
  execute e stamp request w = elim (find_tool request.name e.tools) [
    | none ↦ (fails (codes "unknown tool: " ++ request.name), w)
    | some tool ↦ elim e.approver [
      | none ↦ (fails (codes "denied: no approval handler registered"), w)
      | some handler ↦
          let approval = approval_of stamp request tool in
          decided w request tool approval (handler approval)
    ]
  ]
