-- ===== src/Memory/Upkeep/Run.antt =====
-- The loops of src/memory_module.cpp that apply the upkeep to the store: `run_maintenance` and
-- `run_legacy_review`. The store is a list of rows.
pub mod Counts
use lina_cpx.Prelude.{
  ℕ, ◌+◌, Bool, true, false, List, [], ◌∷◌, ◌++◌, map, Option, none, some, Bytes, codes, bytes_eq,
  if◌then◌else◌,
}
use lina_cpx.Memory.Upkeep.{
  Doubles, Row, MaintenanceDecision, apply_monthly, apply_legacy_review, slope_effective,
}

-- `MaintenanceCounts` and `ReviewCounts`
pub record UpkeepCounts : Type 0 where
  pub adjusted : ℕ
  pub to_subconscious : ℕ
  pub to_legacy : ℕ
  pub decayed : ℕ
  pub forgotten : ℕ
  pub reviewed : ℕ
  pub demoted : ℕ

abbrev pub no_counts : UpkeepCounts
no_counts = record {
  adjusted = 0;
  to_subconscious = 0;
  to_legacy = 0;
  decayed = 0;
  forgotten = 0;
  reviewed = 0;
  demoted = 0;
}

-- an id, the stages, the score and the reason
abbrev pub Promoted : Type 0 → Type 0
Promoted D = Bytes × Bytes × Bytes × D × Bytes

pub record Archive (D : Type 0) : Type 0 where
  pub rows : List (Row D)
  pub promotions : List (Promoted D)
  pub counts : UpkeepCounts

module _ {D T : Type 0} (ds : Doubles D T) where
  unfoldable pub fetch_by_status : Bytes → List (Row D) → List (Row D)
  fetch_by_status status [] = []
  fetch_by_status status (row ∷ rows) =
      let rest = fetch_by_status status rows in
      if bytes_eq row.status status then row ∷ rest else rest

  unfoldable pub update_item : Row D → List (Row D) → List (Row D)
  update_item new rows = map (λ row. if bytes_eq row.item_id new.item_id then new else row) rows

  unfoldable pub delete_item : Bytes → List (Row D) → List (Row D)
  delete_item item_id [] = []
  delete_item item_id (row ∷ rows) =
      let rest = delete_item item_id rows in
      if bytes_eq row.item_id item_id then rest else row ∷ rest

  abbrev pub decided_row : Row D → MaintenanceDecision D → Row D
  decided_row row decision = record row {
    importance_score = decision.score;
    status = decision.status;
    decay_started_at = decision.decay_started_at;
  }

  -- the log entry of a decision, and where it is counted
  unfoldable pub enter :
      (Bytes → UpkeepCounts → UpkeepCounts) → Row D → MaintenanceDecision D → Archive D → Archive D
  enter counted row decision a = elim decision.log_entry [
    | none ↦ a
    | some (from_s, to_s, reason) ↦ record a {
      promotions = a.promotions ++ (row.item_id, from_s, to_s, decision.score, reason) ∷ [];
      counts = counted to_s a.counts;
    }
  ]

  abbrev pub count_move : Bytes → UpkeepCounts → UpkeepCounts
  count_move to_s c =
      if bytes_eq to_s (codes "subconscious")
      then record c { to_subconscious = c.to_subconscious + 1 }
      else record c { to_legacy = c.to_legacy + 1 }

  abbrev pub count_demotion : Bytes → UpkeepCounts → UpkeepCounts
  count_demotion to_s c = record c { demoted = c.demoted + 1 }

  unfoldable pub monthly_row : Row D → Archive D → Archive D
  monthly_row row a =
      let decision = apply_monthly ds row in
      let a' = enter count_move row decision a in
      record a' {
        rows = update_item (decided_row row decision) a'.rows;
        counts = record (a'.counts) { adjusted = a'.counts.adjusted + 1 };
      }

  unfoldable pub slope_row : Row D → Archive D → Archive D
  slope_row row a =
      let (effective, gone) = slope_effective ds row in
      if gone
      then record a {
        rows = delete_item row.item_id a.rows;
        counts = record (a.counts) { forgotten = a.counts.forgotten + 1 };
      }
      else record a {
        rows = update_item (record row { importance_score = effective }) a.rows;
        counts = record (a.counts) { decayed = a.counts.decayed + 1 };
      }

  unfoldable pub review_row : Row D → Archive D → Archive D
  review_row row a =
      let decision = apply_legacy_review ds row in
      let a' = enter count_demotion row decision a in
      record a' {
        rows = update_item (decided_row row decision) a'.rows;
        counts = record (a'.counts) { reviewed = a'.counts.reviewed + 1 };
      }

  -- the rows of a fetch, one after the other
  unfoldable pub for_each : (Row D → Archive D → Archive D) → List (Row D) → Archive D → Archive D
  for_each step [] a = a
  for_each step (row ∷ rows) a = for_each step rows (step row a)

  -- the first half of the maintenance
  unfoldable pub monthly : Archive D → Archive D
  monthly a =
      for_each monthly_row (fetch_by_status (codes "active") a.rows)
        (record a { counts = no_counts })

  -- The second fetch sees what the first half has changed.
  unfoldable pub run_maintenance : Archive D → Archive D
  run_maintenance a =
      let a' = monthly a in for_each slope_row (fetch_by_status (codes "subconscious") a'.rows) a'

  unfoldable pub run_legacy_review : Archive D → Archive D
  run_legacy_review a =
      for_each review_row (fetch_by_status (codes "legacy") a.rows)
        (record a { counts = no_counts })
