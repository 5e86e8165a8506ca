-- ===== src/StreamParser/Stream.antt =====
-- What src/stream_parser.cpp promises of a stream: private thoughts never reach the response,
-- nothing depends on how the stream is cut into pieces, and a written tool call is read back.
use lina_cpx.Prelude.{
  ◌≡◌, sym, ap, ◌∙◌, true, false, List, [], ◌∷◌, ◌++◌, append_assoc, append-nil, none, some,
  Option-cases, inl, inr, Bytes, codes, length, arith,
}
use lina_cpx.Text.Search.{cut, cut_written}
use lina_cpx.StreamParser.{
  StreamParser, fresh, thought_open, thought_close, tool_call_open, tool_call_close, sweep,
  contains_closing, feed, result, extract_tool_call, take_completed_thoughts, tool_call_complete,
}
use lina_cpx.StreamParser.Blocks.{block, contains_closing-block, block-Located, sweep_stop}
use lina_cpx.StreamParser.Sweep.{sweep_done, sweep_out, sweep_pieces}

-- Whatever was fed, the response of a turn holds no complete thought block.
pub response_private :
    (p : StreamParser) → contains_closing (result p).response thought_open thought_close ≡ false
unfolding result
response_private p = elim (Option-cases (extract_tool_call p.buffer)) [
  | inl e ↦
      rw (e, result)
        (closed (sweep (length p.buffer) p.buffer []).0 (sweep_done _ p.buffer [] (omega arith)))
  | inr ((json, text), e) ↦
      rw (e, result) (closed (sweep (length text) text []).0 (sweep_done _ text [] (omega arith)))
]
  where
    closed :
        (text : Bytes)
        → block thought_open thought_close text ≡ none
        → contains_closing text thought_open thought_close ≡ false
    closed text e = rw (contains_closing-block text thought_open thought_close, e)

-- The text and the thoughts of a parser, without the flag.
abbrev pub seen : StreamParser → Bytes × List Bytes
seen p = (p.buffer, p.completed_thoughts)

-- Feeding two pieces, or both as one, leaves the same text and the same thoughts.
pub feed-feed : (p : StreamParser) (a b : Bytes) → seen (feed (feed p a) b) ≡ seen (feed p (a ++ b))
unfolding feed
feed-feed p a b = sym (
    rw (← append_assoc p.buffer a b) (
      sweep_pieces (length (p.buffer ++ a)) (length ((p.buffer ++ a) ++ b)) _ (p.buffer ++ a) b
        p.completed_thoughts (omega arith) (omega arith) (omega arith)))

-- What the driver does with a parser: it feeds a piece, or takes the thoughts out.
pub data Event : Type 0 where
  piece : Bytes → Event
  take : Event

-- The thoughts taken, in order, and the parser at the end.
unfoldable pub run : StreamParser → List Event → List Bytes × StreamParser
unfolding take_completed_thoughts
run p [] = ([], p)
run p (piece a ∷ es) = run (feed p a) es
run p (take ∷ es) =
    let (out, q) = take_completed_thoughts p in let (taken, r) = run q es in (out ++ taken, r)

abbrev pub text_of : List Event → Bytes
text_of [] = []
text_of (piece a ∷ es) = a ++ text_of es
text_of (take ∷ es) = text_of es

-- No complete block is left in the text.
abbrev pub IsSwept : StreamParser → Type 0
IsSwept p = block thought_open thought_close p.buffer ≡ none

pub feed-IsSwept : (p : StreamParser) (a : Bytes) → IsSwept (feed p a)
unfolding feed
feed-IsSwept p a = sweep_done _ (p.buffer ++ a) p.completed_thoughts (omega arith)

seen_after_take :
    (p : StreamParser) (t : Bytes)
    → seen (feed p t) ≡ (
      (feed (take_completed_thoughts p).1 t).buffer,
      p.completed_thoughts ++ (feed (take_completed_thoughts p).1 t).completed_thoughts,
    )
unfolding feed take_completed_thoughts
seen_after_take p t =
    ap (λ out. sweep (length (p.buffer ++ t)) (p.buffer ++ t) out)
      (sym (append-nil p.completed_thoughts))
    ∙ sweep_out (length (p.buffer ++ t)) (p.buffer ++ t) p.completed_thoughts []

feed_nothing : (p : StreamParser) → IsSwept p → seen p ≡ seen (feed p [])
unfolding feed
feed_nothing p v =
    rw (append-nil p.buffer, sweep_stop (length p.buffer) p.buffer p.completed_thoughts v)

-- From a parser with no complete thought left in its text: however the stream is cut into pieces,
-- and whenever the thoughts are taken, the thoughts taken and those still held, in order, are
-- those of the whole text fed at once, and so is the text left.
pub run_whole :
    (p : StreamParser) (es : List Event)
    → IsSwept p
    → let (taken, q) = run p es in
      (q.buffer, taken ++ q.completed_thoughts) ≡ seen (feed p (text_of es))
unfolding run
run_whole p [] v = feed_nothing p v
run_whole p (piece a ∷ es) v =
    run_whole (feed p a) es (feed-IsSwept p a) ∙ feed-feed p a (text_of es)
run_whole p (take ∷ es) v =
    let held = record p { completed_thoughts = [] } in
    (λ i. (
      (run held es).1.buffer,
      append_assoc p.completed_thoughts (run held es).0 (run held es).1.completed_thoughts i,
    ))
    ∙ ap (λ s. (s.0, p.completed_thoughts ++ s.1)) (run_whole held es v)
    ∙ sym (seen_after_take p (text_of es))

-- Feeding never lowers the flag for a complete tool call.
pub tool_call_complete-feed :
    (p : StreamParser) (a : Bytes)
    → tool_call_complete p ≡ true
    → tool_call_complete (feed p a) ≡ true
unfolding tool_call_complete feed
tool_call_complete-feed p a h = ground arith

extract_written :
    (pre json post : Bytes)
    → cut tool_call_open pre ≡ none
    → cut tool_call_close json ≡ none
    → extract_tool_call (pre ++ (tool_call_open ++ (json ++ (tool_call_close ++ post))))
      ≡ some (json, pre ++ post)
unfolding extract_tool_call
extract_written pre json post h k =
    let rest = json ++ (tool_call_close ++ post) in
    let opened = cut_written b'<' (codes "tool_call>") pre rest (omega arith) h in
    let closed = cut_written b'<' (codes "/tool_call>") json post (omega arith) k in
    let l = block-Located tool_call_open tool_call_close _ pre rest json post opened closed in
    rw (l.opens, extract_tool_call, l.closes, l.inner, l.outer)

-- A tool call written as the protocol says, with no opening tag in front of it and no closing tag
-- in the JSON: the turn holds exactly that JSON, and its response and thoughts are those of the
-- text around the call.
pub result_tool_call :
    (pre json post : Bytes)
    → cut tool_call_open pre ≡ none
    → cut tool_call_close json ≡ none
    → let p = record fresh {
      buffer = pre ++ (tool_call_open ++ (json ++ (tool_call_close ++ post)));
    } in
      let (response, thoughts) = sweep (length (pre ++ post)) (pre ++ post) [] in
      result p ≡ record {
        response = response;
        thoughts = thoughts;
        tool_call_json = json;
        has_tool_call = true;
      }
unfolding result
result_tool_call pre json post h k = rw (extract_written pre json post h k, result)
