-- ===== src/StreamParser.antt =====
-- src/stream_parser.cpp: the classifier of the model's token stream. `buffer_` and the thoughts
-- are byte lists; a loop `for (;;)` takes fuel, the length of the text that it erases from.
pub mod Blocks
pub mod Sweep
pub mod Stream
mod Tests
use lina_cpx.Prelude.{
  ℕ, zero, suc, ◌+◌, ◌-◌, Bool, true, false, ◌||◌, List, [], ◌∷◌, ◌++◌, Option, none, some, Bytes,
  codes, length,
}
use lina_cpx.Text.{find, substr, erase}

abbrev pub thought_open : Bytes
thought_open = codes "[thought]"

abbrev pub thought_close : Bytes
thought_close = codes "[/thought]"

abbrev pub tool_call_open : Bytes
tool_call_open = codes "<tool_call>"

abbrev pub tool_call_close : Bytes
tool_call_close = codes "</tool_call>"

abbrev pub thought_open_len : ℕ
thought_open_len = 9

abbrev pub thought_close_len : ℕ
thought_close_len = 10

abbrev pub tool_call_open_len : ℕ
tool_call_open_len = 11

abbrev pub tool_call_close_len : ℕ
tool_call_close_len = 12

pub record ParsedTurn : Type 0 where
  pub response : Bytes
  pub thoughts : List Bytes
  pub tool_call_json : Bytes
  pub has_tool_call : Bool

pub record StreamParser : Type 0 where
  pub buffer : Bytes
  pub completed_thoughts : List Bytes
  pub is_tool_call_complete : Bool

pub contains_closing : Bytes → Bytes → Bytes → Bool
contains_closing text open_tag close_tag = elim (find text open_tag 0) [
  | none ↦ false
  | some open_pos ↦ elim (find text close_tag (open_pos + length open_tag)) [
    | none ↦ false
    | some close_pos ↦ true
  ]
]

-- The loop that `feed` and `result` both hold: it moves each complete thought block out of the
-- text, oldest first.
pub sweep : ℕ → Bytes → List Bytes → Bytes × List Bytes
sweep zero text out = (text, out)
sweep (suc fuel) text out = elim (find text thought_open 0) [
  | none ↦ (text, out)
  | some open_pos ↦ elim (find text thought_close (open_pos + thought_open_len)) [
    | none ↦ (text, out)
    | some close_pos ↦ sweep fuel (erase text open_pos (close_pos + thought_close_len - open_pos)) (
        out
        ++ substr text (open_pos + thought_open_len) (close_pos - open_pos - thought_open_len) ∷ [])
  ]
]

pub feed : StreamParser → Bytes → StreamParser
feed p piece =
    let text = p.buffer ++ piece in
    let (rest, thoughts) = sweep (length text) text p.completed_thoughts in
    record {
      buffer = rest;
      completed_thoughts = thoughts;
      is_tool_call_complete =
          contains_closing text tool_call_open tool_call_close || p.is_tool_call_complete;
    }

pub tool_call_complete : StreamParser → Bool
tool_call_complete p = p.is_tool_call_complete

pub take_completed_thoughts : StreamParser → List Bytes × StreamParser
take_completed_thoughts p = (p.completed_thoughts, record p { completed_thoughts = [] })

-- The tool call's JSON and the text without its block, if there is a complete one. The guard
-- `contains_closing` of the code makes the same two searches as the branch that it guards.
pub extract_tool_call : Bytes → Option (Bytes × Bytes)
extract_tool_call text = elim (find text tool_call_open 0) [
  | none ↦ none
  | some open_pos ↦ elim (find text tool_call_close (open_pos + tool_call_open_len)) [
    | none ↦ none
    | some close_pos ↦ some (
      substr text (open_pos + tool_call_open_len) (close_pos - open_pos - tool_call_open_len),
      erase text open_pos (close_pos + tool_call_close_len - open_pos),
    )
  ]
]

pub result : StreamParser → ParsedTurn
result p = elim (extract_tool_call p.buffer) [
  | none ↦
      let (response, thoughts) = sweep (length p.buffer) p.buffer [] in
      record {
        response = response;
        thoughts = thoughts;
        tool_call_json = [];
        has_tool_call = false;
      }
  | some (json, text) ↦
      let (response, thoughts) = sweep (length text) text [] in
      record {
        response = response;
        thoughts = thoughts;
        tool_call_json = json;
        has_tool_call = true;
      }
]

pub reset : StreamParser → StreamParser
reset p = record { buffer = []; completed_thoughts = []; is_tool_call_complete = false }

abbrev pub fresh : StreamParser
fresh = record { buffer = []; completed_thoughts = []; is_tool_call_complete = false }
