-- ===== src/Core/Turn/Rounds.antt =====
-- The rounds of a turn's loop in src/lina_core.cpp: what one can do, and what holds of all.
use lina_cpx.Prelude.{
  ℕ, zero, suc, ◌+◌, ◌*◌, ◌≤◌, ◌<◌, ◌≡◌, inl, inr, refl, sym, Bool, true, false, not, ◌&&◌, Option,
  some, Bytes, codes, arith, Bool-cases, ltb, is_empty, subst,
}
use lina_cpx.Tools.Json.{json_string}
use lina_cpx.Core.Gate.{History}
use lina_cpx.Core.Turn.{Stage, Floor, finalize_turn}
use lina_cpx.Core.Turn.Loop.{
  Loop, Step, finished, going, max_tool_calls, hear, use_tool, turn_round, turn_rounds, end_turn,
}

module _ {S V W : Type 0} (st : Stage S V W) (user_message system_frame : Bytes) where
  -- What a round leads to.
  pub data Round (l : Loop S V W) : Type 0 where
    stopped :
        turn_round st user_message system_frame l
          ≡ finished (end_turn (codes "turn end stopped") l.floor)
        → Round l
    ended :
        (line : Bytes)
        → turn_round st user_message system_frame l
          ≡ finished (
              end_turn line (
                finalize_turn st
                  (hear st user_message system_frame l).0.response
                  user_message
                  (hear st user_message system_frame l).1))
        → Round l
    called :
        turn_round st user_message system_frame l
          ≡ going (
              use_tool st
                (hear st user_message system_frame l).0.tool_call_json
                l
                (hear st user_message system_frame l).1)
        → l.tool_calls < max_tool_calls
        → Round l

  bound_of : (a b : Bool) (n : ℕ) → a && b && ltb n max_tool_calls ≡ true → n < max_tool_calls
  bound_of a b n h = ground arith

  what_happens : (l : Loop S V W) → Round l
  unfolding turn_round
  what_happens l = elim (Bool-cases (st.stop (2 * l.round))) [
    | inl e ↦ stopped (rw e refl)
    | inr go ↦ elim (Bool-cases (st.stop (2 * l.round + 1))) [
      | inl e ↦ ended (codes "turn end stopped") (rw (go, e) refl)
      | inr on ↦
          let parsed = (hear st user_message system_frame l).0 in
          elim (Bool-cases (
            parsed.has_tool_call
            && not (is_empty parsed.tool_call_json)
            && ltb l.tool_calls max_tool_calls)) [
              | inl e ↦ called (rw (go, on, e) refl) (
                  bound_of parsed.has_tool_call (not (is_empty parsed.tool_call_json)) l.tool_calls
                    e)
              | inr e ↦ ended (codes "turn end") (rw (go, on, e) refl)
            ]
    ]
  ]

  calls_counted :
      (json : Bytes) (l : Loop S V W) (f : Floor S V W)
      → (use_tool st json l f).tool_calls ≡ l.tool_calls + 1
  unfolding use_tool
  calls_counted json l f = elim (Bool-cases (is_empty (json_string json (codes "name")))) [
    | inl e ↦ rw e refl
    | inr e ↦ rw e refl
  ]

  -- A property of the floor, after so many tool calls, that each thing a turn does keeps.
  pub record Kept (Inv : ℕ → Floor S V W → Type 0) : Type 0 where
    pub on_hear :
        (l : Loop S V W) (n : ℕ) → Inv n l.floor → Inv n (hear st user_message system_frame l).1
    pub on_tool :
        (json : Bytes) (l : Loop S V W) (f : Floor S V W) (n : ℕ)
        → Inv n f
        → Inv (n + 1) (use_tool st json l f).floor
    pub on_finalize :
        (text : Bytes) (f : Floor S V W) (n : ℕ)
        → Inv n f
        → Inv n (finalize_turn st text user_message f)
    pub on_end : (line : Bytes) (f : Floor S V W) (n : ℕ) → Inv n f → Inv n (end_turn line f)

  -- The turn ends, nobody has the floor, and the property holds after at most eight calls.
  abbrev pub Ended : (ℕ → Floor S V W → Type 0) → Option (Floor S V W) → Type 0
  Ended Inv outcome =
      (f : Floor S V W) × (outcome ≡ some f)
      × (f.is_active ≡ false)
      × ((n : ℕ) × (n ≤ max_tool_calls) × Inv n f)

  finished-Ended :
      (Inv : ℕ → Floor S V W → Type 0) (fuel n : ℕ) (step : Step S V W) (f : Floor S V W)
      → n ≤ max_tool_calls
      → step ≡ finished f
      → f.is_active ≡ false
      → Inv n f
      → Ended Inv (turn_rounds fuel st user_message system_frame step)
  unfolding turn_rounds
  finished-Ended Inv fuel n step f low e off v = rw e (f, refl, off, (n, low, v))

  pub rounds_end :
      (Inv : ℕ → Floor S V W → Type 0)
      → Kept Inv
      → (fuel : ℕ) (l : Loop S V W) → l.tool_calls ≤ max_tool_calls
      → max_tool_calls < fuel + l.tool_calls
      → Inv l.tool_calls l.floor
      → Ended Inv (turn_rounds fuel st user_message system_frame (going l))
  unfolding turn_rounds
  rounds_end Inv kept zero l low high v = absurd (omega arith)
  rounds_end Inv kept (suc fuel) l low high v =
      let (parsed, f) = hear st user_message system_frame l in
      let heard = kept.on_hear l l.tool_calls v in
      elim (what_happens l) [
        | stopped e ↦
            finished-Ended Inv fuel l.tool_calls _ _ low e refl
              (kept.on_end (codes "turn end stopped") l.floor l.tool_calls v)
        | ended line e ↦ finished-Ended Inv fuel l.tool_calls _ _ low e refl (
            kept.on_end line (finalize_turn st parsed.response user_message f) l.tool_calls
              (kept.on_finalize parsed.response f l.tool_calls heard))
        | called e below ↦
            let l' = use_tool st parsed.tool_call_json l f in
            let one_more = calls_counted parsed.tool_call_json l f in
            subst (λ step. Ended Inv (turn_rounds fuel st user_message system_frame step)) (sym e)
              (rounds_end Inv kept fuel l' (omega (arith, one_more)) (omega (arith, one_more)) (
                subst (λ n. Inv n l'.floor) (sym one_more)
                  (kept.on_tool parsed.tool_call_json l f l.tool_calls heard)))
      ]

  -- Nine rounds of fuel are enough for the turn.
  pub turn_ends :
      (Inv : ℕ → Floor S V W → Type 0) (f : Floor S V W) (history : History)
      → Kept Inv
      → Inv 0 f
      → Ended Inv (
          turn_rounds 9 st user_message system_frame
            (going record { floor = f; turn_history = history; tool_calls = 0; round = 0 }))
  turn_ends Inv f history kept v =
      rounds_end Inv kept 9 record { floor = f; turn_history = history; tool_calls = 0; round = 0 }
        (omega arith) (omega arith) v
