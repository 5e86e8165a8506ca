-- ===== src/StreamParser/Tests.antt =====
-- Runs of the stream parser at concrete streams, the theorems at those among them.
use lina_cpx.Prelude.{◌≡◌, refl, true, false, List, [], ◌∷◌, ◌++◌, codes}
use lina_cpx.Text.{is_prefix, find}
use lina_cpx.Text.Search.{cut}
use lina_cpx.StreamParser.{
  StreamParser, fresh, thought_open, thought_close, contains_closing, sweep, feed, result,
  tool_call_complete, extract_tool_call,
}
use lina_cpx.StreamParser.Stream.{
  Event, piece, take, run, seen, response_private, run_whole, text_of,
}

abbrev turn : StreamParser
turn = record fresh { buffer = codes "hi [thought]a[/thought]<tool_call>{}</tool_call> there" }

response_private_example :
    contains_closing (result turn).response thought_open thought_close ≡ false
response_private_example = response_private turn

abbrev events : List Event
events = piece (codes "a[thought]b[/tho") ∷ take ∷ piece (codes "ught]c") ∷ take ∷ []

run_whole_example :
    let (taken, q) = run fresh events in
    (q.buffer, taken ++ q.completed_thoughts) ≡ seen (feed fresh (text_of events))
unfolding cut is_prefix
run_whole_example = run_whole fresh events refl

events_run : (run fresh events).0 ≡ codes "b" ∷ []
unfolding run feed sweep find
events_run = refl

-- A tool call inside a thought is reported when it comes in one piece, and is not part of the
-- result; cut in two behind the thought, it is not reported.
call_in_thought :
    let p = feed fresh (codes "[thought]<tool_call>{}</tool_call>[/thought]") in
    (tool_call_complete p ≡ true) × ((result p).has_tool_call ≡ false)
unfolding feed tool_call_complete contains_closing find sweep result extract_tool_call
call_in_thought = (refl, refl)

pieces_matter :
    (tool_call_complete (feed fresh (codes "[thought]<tool_call>[/thought]</tool_call>")) ≡ true)
    × (tool_call_complete
          (feed (feed fresh (codes "[thought]<tool_call>[/thought]")) (codes "</tool_call>"))
        ≡ false)
unfolding feed tool_call_complete contains_closing find sweep
pieces_matter = (refl, refl)
