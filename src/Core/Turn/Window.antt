-- ===== src/Core/Turn/Window.antt =====
-- `begin_turn` and `run_voluntary_turn` of src/lina_core.cpp: who takes the floor. A voluntary turn is the one
-- that the end of a window opens, with nobody having said anything.
pub mod Floors
use lina_cpx.Prelude.{
  ℕ, ◌+◌, Bool, true, false, not, ◌&&◌, ◌||◌, List, [], ◌∷◌, ◌++◌, map, Option, none, some, Bytes,
  codes, length, is_empty, ltb, leb, if◌then◌else◌,
}
use lina_cpx.Browser.Handshake.{has}
use lina_cpx.StreamParser.{StreamParser, fresh, feed, result}
use lina_cpx.Core.Turn.{Entry, telemetry, window, Stage, Floor, log, finalize_turn, trim_start}
use lina_cpx.Core.Turn.Chat.{ask}

-- `std::tolower`
abbrev pub lower : ℕ → ℕ
lower c = if leb b'A' c && leb c b'Z' then c + 32 else c

-- `pure_greeting` is whether the regular expression of the greetings matches.
unfoldable pub is_greeting_only : (Bytes → Bool) → Bytes → Bool
is_greeting_only pure_greeting text =
    let low = map lower text in
    pure_greeting low
    || (ltb (length text) 160
        && (has (codes "how can i assist") low
            || (has (codes "how can i help") low
                || (has (codes "how may i assist") low
                    || (has (codes "how may i help") low
                        || has (codes "what can i do for you") low)))))

unfoldable pub feed_pieces : StreamParser → List Bytes → StreamParser
feed_pieces parser [] = parser
feed_pieces parser (piece ∷ pieces) = feed_pieces (feed parser piece) pieces

abbrev pub open_floor : Bytes
open_floor =
    codes "[Your floor is open. You may speak if you have something to say, or remain silent.]"

module _ {S V W : Type 0} where
  -- what is said on an open floor, without the blanks in front
  unfoldable pub utterance : Stage S V W → Floor S V W → Bytes × Floor S V W
  unfolding feed_pieces
  utterance st f =
      let frame = st.turn_frame [] f.conversation ++ open_floor in
      let (pieces, s') = st.generate_stream f.voice frame f.conversation in
      (trim_start (result (feed_pieces fresh pieces)).response, record f { voice = s' })

  abbrev pub release : Floor S V W → Floor S V W
  release f = record f { is_active = false }

  -- The compare-and-exchange of `turn_active_` is one step.
  unfoldable pub run_voluntary_turn : (Bytes → Bool) → Stage S V W → Floor S V W → Floor S V W
  unfolding utterance
  run_voluntary_turn pure_greeting st f =
      let (text, f') = utterance st (record f { is_active = true }) in
      if f.is_active
      then f
      else if not (st.mind.connected f.voice)
      then release f
      else if is_empty text
      then release f'
      else if is_greeting_only pure_greeting text
      then release (log f' (telemetry (codes "voluntary silence (greeting only)") ∷ []))
      else release
          (finalize_turn st text [] (log f' (telemetry (codes "voluntary utterance") ∷ [])))

  -- `begin_turn` up to the start of the thread, for a core that no window thread interrupts: the error, if any,
  -- and the floor. `crossed` is whether the window is over.
  unfoldable pub begin_turn :
      Stage S V W → Bool → Bool → Bytes → Bytes → Floor S V W → Option Bytes × Floor S V W
  begin_turn st is_ready crossed user_message image_path f =
      let asked = ask user_message image_path f in
      let opened =
        if crossed then log asked (window (codes "[cycle_reset] fresh window") ∷ []) else asked in
      if f.is_active
      then (some (codes "a turn is already active"), f)
      else if not is_ready
      then (some (codes "core not ready"), f)
      else if not (st.mind.connected f.voice)
      then (some (codes "no voice attached (D-033)"), f)
      else (none, log (record opened { is_active = true }) (telemetry (codes "turn begin") ∷ []))
