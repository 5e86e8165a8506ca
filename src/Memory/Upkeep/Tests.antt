-- ===== src/Memory/Upkeep/Tests.antt =====
-- The upkeep with scores in tenths, written above 1000 so that there is room below zero.
use lina_cpx.Prelude.{
  length, [], ◌∷◌, ℕ, ◌+◌, ◌-◌, ◌*◌, ◌≡◌, ◌≢◌, ◌⊎◌, refl, true, false, none, some, codes, ltb,
  arith,
}
use lina_cpx.Memory.Upkeep.{Doubles, Row, apply_monthly, apply_legacy_review}
use lina_cpx.Memory.Upkeep.Floors.{
  IsOrdered, HasPenalty, apply_monthly_keeps, apply_legacy_review_slips,
}
use lina_cpx.Memory.Upkeep.Run.{Archive, no_counts, run_maintenance, monthly, fetch_by_status}
use lina_cpx.Memory.Upkeep.Run.Counts.{run_maintenance_counts}

abbrev tenths_from_1000 : Doubles ℕ ℕ
tenths_from_1000 = record {
  ltb = ltb;
  add = λ a b. a + b - 1000;
  neg = λ a. 2000 - a;
  tenths = λ n. 1000 + n;
  decay = λ score days. score;
  parse_iso = λ ts. some 0;
  later = λ a b. ltb b a;
  days_between = λ a b. 1000 + 10 * (a - b);
  now = 365;
  now_iso = codes "2026-01-01T00:00:00Z";
}

in_order : IsOrdered tenths_from_1000
in_order = record {
  irreflexive = λ a. ground arith;
  asymmetric = λ a b h. ground arith;
  transitive = λ a b c h k. ground arith;
  limits = refl;
}

-- a legacy row of five points, never referenced, a year old
abbrev old_row : Row ℕ
old_row = record {
  item_id = codes "m-1";
  status = codes "active";
  narrative = codes "a walk";
  importance_score = 1050;
  floor = some 1020;
  must_keep = true;
  protected_flag = false;
  reference_count = 0;
  last_referenced_at = none;
  created_at = some (codes "2025-01-01T00:00:00Z");
  decay_started_at = none;
}

apply_monthly_keeps_example :
    let d = apply_monthly tenths_from_1000 old_row in
    (ltb d.score 1050 ≡ false) × ((d.status ≡ codes "legacy") ⊎ (d.status ≡ codes "active"))
apply_monthly_keeps_example = apply_monthly_keeps tenths_from_1000 in_order old_row refl refl

penalised : HasPenalty tenths_from_1000
penalised = record { below = refl; above_low = refl; under_high = refl }

apply_legacy_review_slips_example :
    let bare = apply_legacy_review tenths_from_1000 (record old_row { protected_flag = false }) in
    let crowned = apply_legacy_review tenths_from_1000 (record old_row { protected_flag = true }) in
    (bare.score ≡ 1030)
    × (bare.status ≡ codes "subconscious")
    × (bare.log_entry ≢ none)
    × (crowned.status ≡ codes "legacy")
    × (ltb crowned.score 1050 ≡ false)
apply_legacy_review_slips_example =
    apply_legacy_review_slips tenths_from_1000 in_order penalised old_row
      (codes "2025-01-01T00:00:00Z") 0 refl (omega arith) refl refl refl refl refl refl

abbrev one_row : Archive ℕ
one_row = record { rows = old_row ∷ []; promotions = []; counts = no_counts }

run_maintenance_counts_example :
    let b = run_maintenance tenths_from_1000 one_row in
    (b.counts.adjusted ≡ length (fetch_by_status tenths_from_1000 (codes "active") one_row.rows))
    × (b.counts.decayed + b.counts.forgotten
        ≡ length (
            fetch_by_status tenths_from_1000
              (codes "subconscious")
              (monthly tenths_from_1000 one_row).rows))
    × (length b.promotions ≡ 0 + (b.counts.to_subconscious + b.counts.to_legacy))
run_maintenance_counts_example = run_maintenance_counts tenths_from_1000 one_row
