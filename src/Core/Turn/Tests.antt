-- ===== src/Core/Turn/Tests.antt =====
-- Turns at a small stage: the voice asks for a tool, and then answers.
use lina_cpx.Prelude.{
  ℕ, zero, suc, ◌+◌, ◌≤◌, ◌≡◌, ◌≢◌, refl, true, false, List, [], ◌∷◌, Option, none, some, Bytes,
  codes, length, leb, bytes_eq, ltb, if◌then◌else◌, ◌==◌, ◌⊎◌, inl, inr, ◌↔◌, All, is_empty, arith,
}
use lina_cpx.Tools.Engine.{Tool, no_result, ApprovalHandler, ApprovalRequest, approved}
use lina_cpx.Core.Gate.{aligned, violation, Evaluation, Mind}
use lina_cpx.Core.Turn.{Stage, Floor, finalize_turn, trim_start, context_of}
use lina_cpx.Core.Turn.Leaks.{finalize_turn_delivers_iff}
use lina_cpx.Core.Turn.Loop.{run_turn_loop}
use lina_cpx.Core.Turn.Chat.{chat, ask}
use lina_cpx.Core.Turn.Window.{run_voluntary_turn}
use lina_cpx.Core.Turn.Window.Floors.{Continues, run_voluntary_turn_yields}
use lina_cpx.Core.Turn.Bounds.{actions, run_turn_loop_ends, run_turn_loop_untouched}
use lina_cpx.Core.Turn.Delivery.{
  Sayable, Delivered, Remembered, run_turn_loop_delivers, chat_remembers,
}

abbrev short_is_right : Bytes → Option Bytes → Evaluation ℕ
short_is_right text context = record {
  zone = if leb (length text) 5 then aligned else violation;
  violations = codes "brevity" ∷ [];
  was_corrected = false;
  decision_vector = length text;
  correction_vector = 5;
}

-- what it says to a conversation of so many generations
abbrev says : ℕ → List Bytes
says zero = codes "[thought]hm[/thought]<tool_call>{\"name\":\"cou" ∷ codes "nt\"}</tool_call>" ∷ []
says (suc n) = codes " ok" ∷ []

abbrev talker : Mind ℕ ℕ
talker = record {
  evaluate = short_is_right;
  similar = bytes_eq;
  near = λ a b. a == b;
  far = λ a b. ltb (a + 10) b;
  connected = λ s. true;
  generate_raw = λ s prompt history. (codes "far too long", s + 1);
  system_prompt = codes "Be terse.";
  coordinates = λ v. [];
}

abbrev count_up : Tool ℕ
count_up = record {
  name = codes "count";
  description = codes "counts";
  run = λ n arguments. (record no_result { is_ok = true }, n + 1);
}

abbrev yes_man : Option ApprovalHandler
yes_man = some (λ card. approved)

abbrev stage_with : Option ApprovalHandler → Stage ℕ ℕ ℕ
stage_with approver = record {
  mind = talker;
  generate_stream = λ s frame history. (says s, s + 1);
  score_of = λ text context. codes "1";
  turn_frame = λ message history. codes "frame";
  tools = record { workspace_dir = []; tools = count_up ∷ []; approver = approver };
  stop = λ k. false;
  stamp = λ k. codes "7";
}

abbrev start : Floor ℕ ℕ ℕ
start = record { voice = 0; machine = 4; conversation = []; is_active = true; journal = [] }

run_turn_loop_ends_example :
    (f' : Floor ℕ ℕ ℕ) × (run_turn_loop 9 (stage_with yes_man) (codes "hi") start ≡ some f')
    × (f'.is_active ≡ false)
    × (actions f'.journal ≤ actions start.journal + 8)
run_turn_loop_ends_example = run_turn_loop_ends (stage_with yes_man) (codes "hi") start

deaf_never :
    (handler : ApprovalHandler) (card : ApprovalRequest)
    → (stage_with none).tools.approver ≡ some handler
    → handler card ≢ approved
deaf_never handler card e = cc

run_turn_loop_untouched_example :
    (f' : Floor ℕ ℕ ℕ) × (run_turn_loop 9 (stage_with none) (codes "hi") start ≡ some f')
    × (f'.machine ≡ 4)
run_turn_loop_untouched_example =
    run_turn_loop_untouched (stage_with none) (codes "hi") start deaf_never

run_turn_loop_delivers_example :
    (f' : Floor ℕ ℕ ℕ) × (run_turn_loop 9 (stage_with yes_man) (codes "hi") start ≡ some f')
    × All (Delivered (stage_with yes_man) (context_of (codes "hi"))) f'.journal
run_turn_loop_delivers_example =
    run_turn_loop_delivers (stage_with yes_man) (codes "hi") start (λ s. refl) tt

chat_remembers_example :
    let (text, f') = chat (stage_with yes_man) true (codes "hi") (codes "/tmp/a.png") start in
    Remembered
      (stage_with yes_man)
      (codes "hi")
      (ask (codes "hi") (codes "/tmp/a.png") start).conversation
      []
      text
      f'
chat_remembers_example = chat_remembers (stage_with yes_man) (codes "hi") (codes "/tmp/a.png") start

-- a floor that nobody holds, before the second thing that the voice says
abbrev free : Floor ℕ ℕ ℕ
free = record start { voice = 1; is_active = false }

run_voluntary_turn_yields_example :
    let f' = run_voluntary_turn (λ text. false) (stage_with none) free in
    ((false ≡ true) × (f' ≡ free))
    ⊎ ((false ≡ false)
        × (f'.is_active ≡ false)
        × Continues (stage_with none) none [] f'.conversation)
run_voluntary_turn_yields_example = run_voluntary_turn_yields (stage_with none) (λ text. false) free

-- the same stage, with a voice that is lost after one generation
abbrev losing : Stage ℕ ℕ ℕ
losing = record (stage_with none) { mind = record talker { connected = λ s. s == 0 } }

abbrev spoken : Floor ℕ ℕ ℕ
spoken = record start { voice = 1 }

finalize_turn_delivers_iff_example :
    All
      (Delivered losing (context_of (codes "hi")))
      (finalize_turn losing (codes " far too long") (codes "hi") spoken).journal
    ↔ ((is_empty (trim_start (codes " far too long")) ≡ true)
        ⊎ ((losing.mind.connected 1 ≡ true)
            ⊎ Sayable losing (context_of (codes "hi")) (trim_start (codes " far too long"))))
finalize_turn_delivers_iff_example =
    finalize_turn_delivers_iff losing (codes " far too long") (codes "hi") spoken tt

-- No violation may be shown, and yet this one is.
leak_shown :
    All
      (Delivered losing (context_of (codes "hi")))
      (finalize_turn losing (codes " far too long") (codes "hi") spoken).journal
    → ⊥
unfolding trim_start
leak_shown h =
    elim ((finalize_turn_delivers_iff losing (codes " far too long") (codes "hi") spoken tt).0 h) [
      | inl e ↦ ground arith
      | inr (inl e) ↦ ground arith
      | inr (inr (inl e)) ↦ ground arith
      | inr (inr (inr e)) ↦ ground arith
    ]
