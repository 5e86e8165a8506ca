-- ===== src/Tools/Engine/Gate.antt =====
-- The approval gate of src/tool_engine.cpp: nothing touches the machine without the handler's yes.
use lina_cpx.Prelude.{
  ◌≡◌, refl, false, List, [], ◌∷◌, ◌++◌, some, Option-cases, inl, inr, ◌⊎◌, Bytes, arith,
}
use lina_cpx.Tools.Engine.{
  ToolRequest, ApprovalDecision, approved, denied, timed_out, ApprovalHandler, Tool, ToolEngine,
  find_tool, approval_of, decided, execute, register_tool,
}

decision_cases : (d : ApprovalDecision) → (d ≡ approved) ⊎ ((d ≡ denied) ⊎ (d ≡ timed_out))
decision_cases approved = inl refl
decision_cases denied = inr (inl refl)
decision_cases timed_out = inr (inr refl)

module _ {W : Type 0} where
  -- The request reaches a registered tool of its name, and the handler approves its card.
  pub record IsApproved (e : ToolEngine W) (stamp : Bytes) (request : ToolRequest) (tool : Tool W)
      : Type 0 where
    pub found : find_tool request.name e.tools ≡ some tool
    pub handler : ApprovalHandler
    pub registered : e.approver ≡ some handler
    pub says_yes : handler (approval_of stamp request tool) ≡ approved

  -- A request either is approved, and then the tool runs once on its arguments and the result
  -- carries the id of the card; or it fails with exit code 1 and the machine is as it was.
  pub execute_gated :
      (e : ToolEngine W) (stamp : Bytes) (request : ToolRequest) (w : W)
      → ((tool : Tool W) × IsApproved e stamp request tool
          × (execute e stamp request w ≡ (
            record ((tool.run w request.arguments_json).0) {
              action_id = (approval_of stamp request tool).action_id;
            },
            (tool.run w request.arguments_json).1,
          )))
        ⊎ (((execute e stamp request w).0.is_ok ≡ false)
            × ((execute e stamp request w).0.exit_code ≡ 1)
            × ((execute e stamp request w).1 ≡ w))
  unfolding execute decided
  execute_gated e stamp request w = elim (Option-cases (find_tool request.name e.tools)) [
    | inl f ↦ inr (rw (f, execute) (refl, refl, refl))
    | inr (tool, f) ↦ elim (Option-cases e.approver) [
      | inl a ↦ inr (rw (f, execute, a) (refl, refl, refl))
      | inr (handler, a) ↦ elim (decision_cases (handler (approval_of stamp request tool))) [
        | inl yes' ↦ inl (
          tool,
          record { found = f; handler = handler; registered = a; says_yes = yes' },
          rw (f, execute, a, yes', decided),
        )
        | inr (inl d) ↦ inr (rw (f, execute, a, d, decided) (refl, refl, refl))
        | inr (inr d) ↦ inr (rw (f, execute, a, d, decided) (refl, refl, refl))
      ]
    ]
  ]

  find_tool-append :
      (name : Bytes) (ts us : List (Tool W)) (t : Tool W)
      → find_tool name ts ≡ some t
      → find_tool name (ts ++ us) ≡ some t
  unfolding find_tool
  find_tool-append name [] us t h = cc
  find_tool-append name (x ∷ ts) us t h = ground (arith, find_tool-append name ts us t)

  -- Registering a tool never changes which tool an earlier name reaches.
  pub find_tool-register :
      (name : Bytes) (e : ToolEngine W) (new t : Tool W)
      → find_tool name e.tools ≡ some t
      → find_tool name (register_tool e new).tools ≡ some t
  unfolding register_tool
  find_tool-register name e new t h = find_tool-append name e.tools (new ∷ []) t h
