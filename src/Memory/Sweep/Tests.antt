-- ===== src/Memory/Sweep/Tests.antt =====
-- The sweep at two items, with scores in tenths.
use lina_cpx.Prelude.{
  ℕ, refl, true, false, [], ◌∷◌, none, some, codes, leb, bytes_eq, if◌then◌else◌,
}
use lina_cpx.Memory.Sweep.{t1, t2, fallout, Item, Banks, Setting, run_sweep}
use lina_cpx.Memory.Sweep.Fates.{HasMoved, run_sweep-HasMoved}
use lina_cpx.Memory.Sweep.Grace.{IsJudged, run_sweep-IsJudged}

abbrev walk : Item ℕ
walk = record {
  item_id = codes "m-1";
  narrative = codes "a walk";
  importance_score = 34;
  failed_gate = none;
  entered_fallout_at = none;
}

abbrev rain : Item ℕ
rain = record {
  item_id = codes "m-2";
  narrative = codes "rain";
  importance_score = 31;
  failed_gate = some 35;
  entered_fallout_at = some (codes "2026-01-01T00:00:00Z");
}

abbrev two_days_later : Setting ℕ
two_days_later = record {
  geb = λ a b. leb b a;
  gate_t1_to_t2 = 30;
  gate_t2_to_t3 = 35;
  gate_to_long_term = 50;
  to_text = λ d. [];
  now = codes "2026-01-04T00:00:00Z";
  in_grace = λ entered. false;
  stores = λ i. true;
  logs = λ i. true;
  scan = λ t. elim t [ t1 ↦ walk ∷ [] | fallout ↦ rain ∷ [] | _ ↦ [] ];
}

abbrev before : Banks ℕ
before = record {
  tier = λ t id. elim t [
    | t1 ↦ if bytes_eq id (codes "m-1") then some walk else none
    | fallout ↦ if bytes_eq id (codes "m-2") then some rain else none
    | _ ↦ none
  ];
  long_term = [];
  promotions = [];
  counts = record {
    t1_to_t2 = 0;
    t2_to_t3 = 0;
    to_long_term = 0;
    fallen = 0;
    repurposed = 0;
    purged = 0;
  };
}

run_sweep-HasMoved_example : HasMoved walk two_days_later t1 t2 30 (run_sweep two_days_later before)
unfolding bytes_eq
run_sweep-HasMoved_example =
    run_sweep-HasMoved walk two_days_later before [] [] refl tt tt tt (refl, tt)

run_sweep-IsJudged_example : IsJudged rain two_days_later before (run_sweep two_days_later before)
unfolding bytes_eq
run_sweep-IsJudged_example =
    run_sweep-IsJudged rain two_days_later before [] [] refl tt tt (refl, tt) tt tt
