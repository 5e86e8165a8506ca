-- ===== src/Tools/Tests.antt =====
-- The tool engine and its JSON at concrete requests.
use lina_cpx.Prelude.{ℕ, ◌+◌, ◌≡◌, ◌⊎◌, refl, bytes_eq, false, [], ◌∷◌, some, Bytes, codes, arith}
use lina_cpx.Tools.Json.Objects.{Pieces, plain, quoted, object, nil, cons}
use lina_cpx.Tools.Engine.{
  ToolRequest, approved, denied, Tool, ToolEngine, no_result, approval_of, execute, find_tool,
  decided,
}
use lina_cpx.Tools.Engine.Gate.{IsApproved, execute_gated}

-- an object in an object, with a brace in a string
abbrev nested : Pieces
nested =
    cons (quoted (codes "a}"))
      (cons (plain 58 (omega arith) (omega arith) (omega arith)) (cons (object nil) nil))

-- a call as the voice writes it: the name first, and spaces
abbrev call : Bytes
call = codes "{\"name\": \"count\", \"arguments\" : {\"a}\":{}} }"

-- the machine is a number, and the only tool counts it up
abbrev count_up : Tool ℕ
count_up = record {
  name = codes "count";
  description = codes "counts";
  run = λ n arguments. (no_result, n + 1);
}

abbrev careful : ToolEngine ℕ
careful = record {
  workspace_dir = codes "/tmp";
  tools = count_up ∷ [];
  approver = some (λ card. elim card.action_id [ [] ↦ denied | c ∷ cs ↦ approved ]);
}

abbrev count_request : ToolRequest
count_request = record {
  name = codes "count";
  arguments_json = codes "{}";
  description = codes "count once";
  action_id = [];
}

execute_gated_example :
    ((tool : Tool ℕ) × IsApproved careful (codes "7") count_request tool
      × (execute careful (codes "7") count_request 4 ≡ (
        record ((tool.run 4 (codes "{}")).0) {
          action_id = (approval_of (codes "7") count_request tool).action_id;
        },
        (tool.run 4 (codes "{}")).1,
      )))
    ⊎ (((execute careful (codes "7") count_request 4).0.is_ok ≡ false)
        × ((execute careful (codes "7") count_request 4).0.exit_code ≡ 1)
        × ((execute careful (codes "7") count_request 4).1 ≡ 4))
execute_gated_example = execute_gated careful (codes "7") count_request 4

counted : (execute careful (codes "7") count_request 4).1 ≡ 5
unfolding execute find_tool approval_of decided bytes_eq
counted = refl
