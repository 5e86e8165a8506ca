-- ===== src/Memory/Upkeep/Run/Counts.antt =====
-- What the counts of the upkeep loops in src/memory_module.cpp say.
use lina_cpx.Prelude.{
  ℕ, ◌+◌, ◌≡◌, inl, inr, refl, ap, ◌∙◌, List, [], ◌∷◌, codes, arith, length, length-append,
  Bool-cases, Option-cases, bytes_eq,
}
use lina_cpx.Memory.Upkeep.{Doubles, Row, MaintenanceDecision, apply_monthly, slope_effective}
use lina_cpx.Memory.Upkeep.Run.{
  Archive, enter, count_move, monthly_row, slope_row, for_each, monthly, run_maintenance,
  fetch_by_status, no_counts,
}

module _ {D T : Type 0} (ds : Doubles D T) where
  -- A quantity that each step changes by one changes by the number of rows.
  for_each-length :
      (q : Archive D → ℕ) (step : Row D → Archive D → Archive D)
      → ((row : Row D) (a : Archive D) → q (step row a) ≡ q a + 1)
      → (rows : List (Row D)) (a : Archive D) → q (for_each ds step rows a) ≡ q a + length rows
  unfolding for_each
  for_each-length q step one [] a = omega arith
  for_each-length q step one (row ∷ rows) a =
      omega (arith, for_each-length q step one rows (step row a), one row a)

  -- A quantity that no step changes stays.
  for_each_same :
      (q : Archive D → ℕ) (step : Row D → Archive D → Archive D)
      → ((row : Row D) (a : Archive D) → q (step row a) ≡ q a)
      → (rows : List (Row D)) (a : Archive D) → q (for_each ds step rows a) ≡ q a
  unfolding for_each
  for_each_same q step same [] a = refl
  for_each_same q step same (row ∷ rows) a =
      for_each_same q step same rows (step row a) ∙ same row a

  abbrev moves : Archive D → ℕ
  moves a = a.counts.to_subconscious + a.counts.to_legacy

  abbrev ends_of_slope : Archive D → ℕ
  ends_of_slope a = a.counts.decayed + a.counts.forgotten

  -- An entry in the log is one move, and changes no other count.
  record IsOneMove (a b : Archive D) : Type 0 where
    adjusted_same : b.counts.adjusted ≡ a.counts.adjusted
    slope_same : ends_of_slope b ≡ ends_of_slope a
    logged : length b.promotions + moves a ≡ length a.promotions + moves b

  enter-IsOneMove :
      (row : Row D) (decision : MaintenanceDecision D) (a : Archive D)
      → IsOneMove a (enter ds (count_move ds) row decision a)
  unfolding enter
  enter-IsOneMove row decision a = elim (Option-cases decision.log_entry) [
    | inl e ↦ rw e (record { adjusted_same = refl; slope_same = refl; logged = refl })
    | inr ((from_s, to_s, reason), e) ↦
        let logged =
          length-append a.promotions ((row.item_id, from_s, to_s, decision.score, reason) ∷ []) in
        elim (Bool-cases (bytes_eq to_s (codes "subconscious"))) [
          | inl sub ↦
              rw (e, sub)
                (record { adjusted_same = refl; slope_same = refl; logged = omega (arith, logged) })
          | inr leg ↦
              rw (e, leg)
                (record { adjusted_same = refl; slope_same = refl; logged = omega (arith, logged) })
        ]
  ]

  monthly_row_adjusted :
      (row : Row D) (a : Archive D) → (monthly_row ds row a).counts.adjusted ≡ a.counts.adjusted + 1
  unfolding monthly_row
  monthly_row_adjusted row a =
      omega (arith, (enter-IsOneMove row (apply_monthly ds row) a).adjusted_same)

  monthly_row_slope :
      (row : Row D) (a : Archive D) → ends_of_slope (monthly_row ds row a) ≡ ends_of_slope a
  unfolding monthly_row
  monthly_row_slope row a = (enter-IsOneMove row (apply_monthly ds row) a).slope_same

  monthly_rows_logged :
      (rows : List (Row D)) (a : Archive D)
      → let b = for_each ds (monthly_row ds) rows a in
        length b.promotions + moves a ≡ length a.promotions + moves b
  unfolding for_each monthly_row
  monthly_rows_logged [] a = refl
  monthly_rows_logged (row ∷ rows) a = omega (
    arith,
    monthly_rows_logged rows (monthly_row ds row a),
    (enter-IsOneMove row (apply_monthly ds row) a).logged,
  )

  slope_row_counts :
      (row : Row D) (a : Archive D)
      → let b = slope_row ds row a in
        (ends_of_slope b ≡ ends_of_slope a + 1)
        × (b.counts.adjusted ≡ a.counts.adjusted)
        × (b.promotions ≡ a.promotions)
        × (moves b ≡ moves a)
  unfolding slope_row
  slope_row_counts row a = elim (Bool-cases (slope_effective ds row).1) [
    | inl e ↦ rw e (omega arith, refl, refl, refl)
    | inr e ↦ rw e (omega arith, refl, refl, refl)
  ]

  -- The counts of a maintenance: one adjustment for each active row, one decay or one loss for each row
  -- that is subconscious after the adjustments, and one move for each entry that is new in the log.
  pub run_maintenance_counts :
      (a : Archive D)
      → let b = run_maintenance ds a in
        (b.counts.adjusted ≡ length (fetch_by_status ds (codes "active") a.rows))
        × (b.counts.decayed + b.counts.forgotten
            ≡ length (fetch_by_status ds (codes "subconscious") (monthly ds a).rows))
        × (length b.promotions
            ≡ length a.promotions + (b.counts.to_subconscious + b.counts.to_legacy))
  unfolding run_maintenance monthly
  run_maintenance_counts a =
      let start = record a { counts = no_counts } in
      let active = fetch_by_status ds (codes "active") a.rows in
      let half = for_each ds (monthly_row ds) active start in
      let sub = fetch_by_status ds (codes "subconscious") half.rows in
      (
        for_each_same (λ c. c.counts.adjusted) (slope_row ds) (λ row c. (slope_row_counts row c).1)
              sub half
            ∙ for_each-length (λ c. c.counts.adjusted) (monthly_row ds) monthly_row_adjusted active
                start
            ∙ omega arith,
        omega (
          arith,
          for_each-length ends_of_slope (slope_row ds) (λ row c. (slope_row_counts row c).0) sub
              half,
          for_each_same ends_of_slope (monthly_row ds) monthly_row_slope active start,
        ),
        omega (
          arith,
          monthly_rows_logged active start,
          for_each_same (λ c. length c.promotions) (slope_row ds)
              (λ row c. ap length (slope_row_counts row c).2) sub half,
          for_each_same moves (slope_row ds) (λ row c. (slope_row_counts row c).3) sub half,
        ),
      )
