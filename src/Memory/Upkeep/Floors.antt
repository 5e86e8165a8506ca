-- ===== src/Memory/Upkeep/Floors.antt =====
-- What the upkeep of src/memory_module.cpp cannot do to a memory.
use lina_cpx.Prelude.{
  ℕ, ◌<◌, ◌≡◌, ◌≢◌, arith, is_empty, leb, ◌⊎◌, inl, inr, refl, true, false, Option, none, some,
  Bytes, codes, Bool-cases,
}
use lina_cpx.Memory.Upkeep.{
  Doubles, Row, clamp_delta, adjust, larger, maintenance_delta, floor_of, delta_of, apply_monthly,
  apply_legacy_review, reward_of, slope_effective, slope_from,
}

-- The comparison of doubles that are numbers.
pub record IsOrdered {D T : Type 0} (ds : Doubles D T) : Type 0 where
  pub irreflexive : (a : D) → ds.ltb a a ≡ false
  pub asymmetric : (a b : D) → ds.ltb a b ≡ true → ds.ltb b a ≡ false
  -- at least, and at least
  pub transitive : (a b c : D) → ds.ltb a b ≡ false → ds.ltb b c ≡ false → ds.ltb a c ≡ false
  pub limits : ds.ltb (ds.tenths 30) (ds.neg (ds.tenths 30)) ≡ false

module _ {D T : Type 0} (ds : Doubles D T) (o : IsOrdered ds) where
  larger_left : (a b : D) → ds.ltb (larger ds a b) a ≡ false
  larger_left a b = elim (Bool-cases (ds.ltb a b)) [
    | inl e ↦ rw e (o.asymmetric a b e)
    | inr e ↦ rw e (o.irreflexive a)
  ]

  larger_right : (a b : D) → ds.ltb (larger ds a b) b ≡ false
  larger_right a b = elim (Bool-cases (ds.ltb a b)) [
    | inl e ↦ rw e (o.irreflexive b)
    | inr e ↦ rw e e
  ]

  clamped :
      (d : D)
      → (ds.ltb (clamp_delta ds d) (ds.neg (ds.tenths 30)) ≡ false)
        × (ds.ltb (ds.tenths 30) (clamp_delta ds d) ≡ false)
  unfolding clamp_delta
  clamped d = elim (Bool-cases (ds.ltb d (ds.neg (ds.tenths 30)))) [
    | inl e ↦ rw e (o.irreflexive (ds.neg (ds.tenths 30)), o.limits)
    | inr e ↦ elim (Bool-cases (ds.ltb (ds.tenths 30) d)) [
      | inl f ↦ rw (e, f) (o.limits, o.irreflexive (ds.tenths 30))
      | inr f ↦ rw (e, f) (e, f)
    ]
  ]

  -- For doubles that are numbers: the monthly change of a score is at most three either way.
  pub maintenance_delta_within :
      (references : ℕ) (referenced created : Option Bytes)
      → let d = maintenance_delta ds references referenced created in
        (ds.ltb d (ds.neg (ds.tenths 30)) ≡ false) × (ds.ltb (ds.tenths 30) d ≡ false)
  unfolding maintenance_delta
  maintenance_delta_within references referenced created = clamped _

  adjust_floor : (score delta floor : D) → ds.ltb (adjust ds score delta floor) floor ≡ false
  unfolding adjust
  adjust_floor score delta floor = larger_left floor (ds.add score (clamp_delta ds delta))

  -- For doubles that are numbers: a row that must be kept and stands at the retention line or
  -- above it loses nothing in a month, and does not slip to the subconscious.
  pub apply_monthly_keeps :
      (row : Row D)
      → row.must_keep ≡ true
      → ds.ltb row.importance_score (ds.tenths 40) ≡ false
      → let d = apply_monthly ds row in
        (ds.ltb d.score row.importance_score ≡ false)
        × ((d.status ≡ codes "legacy") ⊎ (d.status ≡ codes "active"))
  unfolding apply_monthly
  apply_monthly_keeps row kept high =
      let score = adjust ds row.importance_score (delta_of ds row) row.importance_score in
      let floored = adjust_floor row.importance_score (delta_of ds row) row.importance_score in
      let line = o.transitive score row.importance_score (ds.tenths 40) floored high in
      elim (Bool-cases (ds.ltb score (ds.tenths 95))) [
        | inl e ↦ rw (kept, e, line) (floored, inr refl)
        | inr e ↦ rw (kept, e) (floored, inl refl)
      ]

  -- For doubles that are numbers: on the slope a memory is gone, with a score of 0, or it has the
  -- score that it had, or one of at least its floor.
  pub slope_effective_floor :
      (row : Row D)
      → ((slope_effective ds row).1 ≡ true) × ((slope_effective ds row).0 ≡ ds.tenths 0)
        ⊎ (((slope_effective ds row).0 ≡ row.importance_score)
            ⊎ (ds.ltb (slope_effective ds row).0 (floor_of ds row) ≡ false))
  unfolding slope_effective
  slope_effective_floor row = floored _
    where
      floored :
          (anchor : Option T)
          → ((slope_from ds row anchor).1 ≡ true) × ((slope_from ds row anchor).0 ≡ ds.tenths 0)
            ⊎ (((slope_from ds row anchor).0 ≡ row.importance_score)
                ⊎ (ds.ltb (slope_from ds row anchor).0 (floor_of ds row) ≡ false))
      floored none = inr (inl refl)
      floored (some a) =
          let idle = ds.days_between ds.now a in
          let effective = ds.decay row.importance_score idle in
          elim (Bool-cases (ds.ltb idle (ds.tenths 7300))) [
            | inr e ↦ rw e (inl (refl, refl))
            | inl e ↦ elim (Bool-cases (ds.ltb effective (ds.tenths 5))) [
              | inl f ↦ rw (e, f) (inl (refl, refl))
              | inr f ↦ rw (e, f) (inr (inr (larger_right effective (floor_of ds row))))
            ]
          ]

-- The comparisons of the constants that the age of a memory leads to.
pub record HasPenalty {D T : Type 0} (ds : Doubles D T) : Type 0 where
  pub below : ds.ltb (ds.neg (ds.tenths 20)) (ds.tenths 0) ≡ true
  pub above_low : ds.ltb (ds.neg (ds.tenths 20)) (ds.neg (ds.tenths 30)) ≡ false
  pub under_high : ds.ltb (ds.tenths 30) (ds.neg (ds.tenths 20)) ≡ false

leb_small : (k n : ℕ) → n < k → leb k n ≡ false
leb_small k n h = ground arith

module _ {D T : Type 0} (ds : Doubles D T) where
  reward_none : (n : ℕ) → n < 3 → reward_of ds n ≡ ds.tenths 0
  reward_none n few =
      rw (leb_small 25 n (omega arith), leb_small 10 n (omega arith), leb_small 3 n few) refl

  penalty :
      HasPenalty ds
      → (references : ℕ) (created : Bytes) (t : T) → references < 3
      → is_empty created ≡ false
      → ds.parse_iso created ≡ some t
      → ds.ltb (ds.days_between ds.now t) (ds.tenths 1800) ≡ false
      → maintenance_delta ds references none (some created) ≡ ds.neg (ds.tenths 20)
  unfolding maintenance_delta clamp_delta
  penalty p references created t few given parsed old =
      rw (reward_none references few, given, parsed, old, p.below, p.above_low, p.under_high) refl

  -- For doubles that are numbers: a legacy memory that must be kept, with fewer than three
  -- references and none of them dated, half a year old, and of less than 8.0 once it has lost 2.0
  -- (but not gone below 0). Where it is not protected, a legacy review takes the 2.0 and sends it
  -- to the subconscious, with an entry in the log; where it is protected, it stays and loses
  -- nothing.
  pub apply_legacy_review_slips :
      IsOrdered ds
      → HasPenalty ds
      → (row : Row D) (created : Bytes) (t : T) → row.must_keep ≡ true
      → row.reference_count < 3
      → row.last_referenced_at ≡ none
      → row.created_at ≡ some created
      → is_empty created ≡ false
      → ds.parse_iso created ≡ some t
      → ds.ltb (ds.days_between ds.now t) (ds.tenths 1800) ≡ false
      → let lowered =
          larger ds (ds.tenths 0) (ds.add row.importance_score (ds.neg (ds.tenths 20))) in
        let bare = apply_legacy_review ds (record row { protected_flag = false }) in
        let crowned = apply_legacy_review ds (record row { protected_flag = true }) in
        ds.ltb lowered (ds.tenths 80) ≡ true
        → (bare.score ≡ lowered)
          × (bare.status ≡ codes "subconscious")
          × (bare.log_entry ≢ none)
          × (crowned.status ≡ codes "legacy")
          × (ds.ltb crowned.score row.importance_score ≡ false)
  unfolding apply_legacy_review adjust
  apply_legacy_review_slips o p row created t kept few never born given parsed old low =
      let lost = penalty p row.reference_count created t few given parsed old in
      let clamp : clamp_delta ds (ds.neg (ds.tenths 20)) ≡ ds.neg (ds.tenths 20) =
        unfold clamp_delta in rw (p.above_low, p.under_high) refl in
      rw (never, born, lost, clamp, low, kept)
        (
          refl,
          refl,
          λ e. ground arith,
          refl,
          larger_left ds o row.importance_score
              (ds.add row.importance_score (ds.neg (ds.tenths 20))),
        )
