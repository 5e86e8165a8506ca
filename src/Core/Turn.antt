-- ===== src/Core/Turn.antt =====
-- What a turn of src/lina_core.cpp is given, changes and leaves behind, and how it ends: its text goes
-- through the gate, is delivered, and is remembered. The flag that stops a turn is set by another
-- thread: `stop k` is what the k-th reading of it finds. The two clocks that name an action are `stamp`.
pub mod Loop
pub mod Chat
mod Rounds
mod Journal
pub mod Bounds
pub mod Delivery
pub mod Leaks
pub mod Window
mod Tests
use lina_cpx.Prelude.{
  ℕ, zero, suc, ◌+◌, ◌*◌, Bool, true, false, not, ◌&&◌, ◌||◌, List, [], ◌∷◌, ◌++◌, map, Option,
  none, some, Bytes, codes, length, drop, is_empty, ltb, leb, ◌==◌, if◌then◌else◌,
}
use lina_cpx.StreamParser.{StreamParser, ParsedTurn, fresh, feed, take_completed_thoughts, result}
use lina_cpx.Tools.Json.{json_string, json_object}
use lina_cpx.Tools.Engine.{ToolEngine, ToolRequest, ToolResult, execute}
use lina_cpx.Core.Gate.{
  Zone, aligned, acceptable_variance, violation, is_violation, Message, History, Mind, Event,
  apply_gate,
}

-- `storage::ActionRecord`, without its two times
pub record ActionRecord : Type 0 where
  pub id : Bytes
  pub tool_name : Bytes
  pub params_json : Bytes
  pub state : Bytes
  pub result : Bytes
  pub error : Bytes

-- What a turn leaves behind, in order: the events that the listener gets, what the gate writes, the
-- memories stored, the actions in the ledger and the lines of telemetry.
pub data Entry (V : Type 0) : Type 0 where
  thought score tool_call tool_result complete window telemetry : Bytes → Entry V
  gate : Event V → Entry V
  imprinted : Bytes → Bytes → Entry V
  acted : ActionRecord → Entry V

-- what a turn is given
pub record Stage (S V W : Type 0) : Type 0 where
  pub mind : Mind S V
  pub generate_stream : S → Bytes → History → List Bytes × S
  -- `format_score` of the alignment of a text in a context
  pub score_of : Bytes → Option Bytes → Bytes
  pub turn_frame : Bytes → History → Bytes
  -- the hands; the `approver` is the core's own approval handler, if one is set
  pub tools : ToolEngine W
  pub stop : ℕ → Bool
  pub stamp : ℕ → Bytes

-- what a turn changes
pub record Floor (S V W : Type 0) : Type 0 where
  pub voice : S
  pub machine : W
  pub conversation : History
  pub is_active : Bool
  pub journal : List (Entry V)

abbrev pub zone_name : Zone → Bytes
zone_name aligned = codes "aligned"
zone_name acceptable_variance = codes "variance"
zone_name violation = codes "violation"

-- ` \t\r\n`
abbrev pub is_blank : ℕ → Bool
is_blank c = c == 32 || c == 9 || c == 13 || c == 10

-- `find_first_not_of` and the `erase` behind it: empty if all is blank
unfoldable pub trim_start : Bytes → Bytes
trim_start [] = []
trim_start (c ∷ cs) = if is_blank c then trim_start cs else c ∷ cs

-- the history with one more message, cut by two in front when it is longer than 20
unfoldable pub remember : History → Message → History
remember h message =
    let longer = h ++ message ∷ [] in if ltb 20 (length longer) then drop 2 longer else longer

abbrev pub marker : Zone → Bytes
marker acceptable_variance = codes "wary"
marker aligned = codes "warm"
marker violation = codes "warm"

-- an empty message is no context
abbrev pub context_of : Bytes → Option Bytes
context_of user_message = if is_empty user_message then none else some user_message

module _ {S V W : Type 0} where
  abbrev pub log : Floor S V W → List (Entry V) → Floor S V W
  log f entries = record f { journal = f.journal ++ entries }

  -- a delivered answer becomes a memory and a part of the conversation
  unfoldable pub imprint : Bytes → Zone → Floor S V W → Floor S V W
  imprint delivered zone f = record f {
    conversation = remember f.conversation (codes "assistant", delivered);
    journal = f.journal ++ imprinted delivered (marker zone) ∷ [];
  }

  -- the gate on a text, with what it writes
  unfoldable pub pass_gate :
      Stage S V W → Bytes → Option Bytes → Floor S V W → Bytes × Zone × Floor S V W
  pass_gate st text context f =
      let g = apply_gate st.mind f.voice f.conversation text context in
      (
        g.text,
        g.verdict.zone,
        record f { voice = g.voice; journal = f.journal ++ map gate g.events },
      )

  unfoldable pub finalize_turn : Stage S V W → Bytes → Bytes → Floor S V W → Floor S V W
  unfolding trim_start
  finalize_turn st response_text user_message f =
      let text = trim_start response_text in
      if is_empty text
      then log f (telemetry (codes "turn finalized empty") ∷ [])
      else let (delivered, zone, f') = pass_gate st text (context_of user_message) f in
        if is_violation zone
        then log f' (telemetry (codes "turn withheld (polytope)") ∷ complete delivered ∷ [])
        else log (imprint delivered zone (log f' (complete delivered ∷ [])))
            (telemetry (codes "turn finalized zone=" ++ zone_name zone) ∷ [])
