-- ===== src/Memory/Sweep.antt =====
-- The 48-hour sweep of src/memory_module.cpp over the store of include/memory_module.hpp. A score is of
-- any type `D` with a test; the clock's test of the grace period, the decimal form of a score and what
-- the scans return are given. A tier is a map from ids.
pub mod Fates
pub mod Grace
mod Tests
use lina_cpx.Prelude.{
  ℕ, ◌+◌, Bool, true, false, not, ◌&&◌, List, [], ◌∷◌, ◌++◌, Option, none, some, Bytes, codes,
  bytes_eq, if◌then◌else◌,
}

pub data Tier : Type 0 where
  t1 t2 t3 fallout : Tier

abbrev pub same_tier : Tier → Tier → Bool
same_tier t1 t1 = true
same_tier t2 t2 = true
same_tier t3 t3 = true
same_tier fallout fallout = true
same_tier _ _ = false

abbrev pub tier_name : Tier → Bytes
tier_name t1 = codes "t1"
tier_name t2 = codes "t2"
tier_name t3 = codes "t3"
tier_name fallout = codes "fallout"

-- `MemoryItem`, the fields that the sweep reads or writes and the narrative
pub record Item (D : Type 0) : Type 0 where
  pub item_id : Bytes
  pub narrative : Bytes
  pub importance_score : D
  pub failed_gate : Option D
  pub entered_fallout_at : Option Bytes

pub record Promotion (D : Type 0) : Type 0 where
  pub item_id : Bytes
  pub from_stage : Bytes
  pub to_stage : Bytes
  pub score : D
  pub reason : Bytes

pub record SweepCounts : Type 0 where
  pub t1_to_t2 : ℕ
  pub t2_to_t3 : ℕ
  pub to_long_term : ℕ
  pub fallen : ℕ
  pub repurposed : ℕ
  pub purged : ℕ

-- the store, and the counts of the sweep
pub record Banks (D : Type 0) : Type 0 where
  pub tier : Tier → Bytes → Option (Item D)
  pub long_term : List (Item D × Bytes)
  pub promotions : List (Promotion D)
  pub counts : SweepCounts

-- `stores` and `logs` say whether the store takes an item for good, or throws.
pub record Setting (D : Type 0) : Type 0 where
  pub geb : D → D → Bool
  pub gate_t1_to_t2 : D
  pub gate_t2_to_t3 : D
  pub gate_to_long_term : D
  pub to_text : D → Bytes
  pub now : Bytes
  pub in_grace : Option Bytes → Bool
  pub stores : Item D → Bool
  pub logs : Item D → Bool
  pub scan : Tier → List (Item D)

module _ {D : Type 0} where
  abbrev pub store_tier : Tier → Item D → Banks D → Banks D
  store_tier t item b = record b {
    tier = λ t' id. if same_tier t t' && bytes_eq id item.item_id then some item else b.tier t' id;
  }

  abbrev pub delete_tier : Tier → Item D → Banks D → Banks D
  delete_tier t item b = record b {
    tier = λ t' id. if same_tier t t' && bytes_eq id item.item_id then none else b.tier t' id;
  }

  abbrev pub store_long_term : Item D → Bytes → Banks D → Banks D
  store_long_term item status b = record b { long_term = b.long_term ++ (item, status) ∷ [] }

  abbrev pub log_promotion : Item D → Bytes → Bytes → Bytes → Banks D → Banks D
  log_promotion item from_stage to_stage reason b = record b {
    promotions =
        b.promotions
        ++ record {
          item_id = item.item_id;
          from_stage = from_stage;
          to_stage = to_stage;
          score = item.importance_score;
          reason = reason;
        }
          ∷ [];
  }

  abbrev pub count : (SweepCounts → SweepCounts) → Banks D → Banks D
  count f b = record b { counts = f b.counts }

  abbrev pub one_purged : Banks D → Banks D
  one_purged = count (λ c. record c { purged = c.purged + 1 })

  abbrev pub reason_of : Setting D → Bytes → Item D → D → Bytes
  reason_of st kind item gate =
      kind
      ++ (codes " - score "
          ++ (st.to_text item.importance_score ++ (codes " >= gate " ++ st.to_text gate)))

  -- an item of the last tier that reaches its gate
  unfoldable pub earn : Setting D → Item D → Banks D → Banks D
  earn st item b =
      if not (st.stores item)
      then one_purged (delete_tier t3 item b)
      else let stored = store_long_term item (codes "active") b in
        if not (st.logs item)
        then one_purged (delete_tier t3 item stored)
        else count (λ c. record c { to_long_term = c.to_long_term + 1 })
            (delete_tier t3 item (
              log_promotion item (codes "t3") (codes "active")
                (codes "48h sweep - score "
                  ++ (st.to_text item.importance_score ++ codes " (earned permanence)"))
                stored))

  -- an item that goes from a tier to the next
  unfoldable pub climb : Setting D → Tier → Tier → D → Item D → Banks D → Banks D
  climb st t next gate item b =
      log_promotion item (tier_name t) (tier_name next) (reason_of st (codes "Sweep") item gate)
        (delete_tier t item (store_tier next item b))

  abbrev pub fallen_item : Setting D → D → Item D → Item D
  fallen_item st gate item = record item {
    failed_gate = some gate;
    entered_fallout_at = some st.now;
  }

  -- an item that does not reach its gate
  unfoldable pub fall : Setting D → Tier → D → Item D → Banks D → Banks D
  fall st t gate item b =
      count (λ c. record c { fallen = c.fallen + 1 })
        (delete_tier t item (store_tier fallout (fallen_item st gate item) b))

  -- what reaching the gate of a tier means
  unfoldable pub promote : Setting D → Tier → D → Item D → Banks D → Banks D
  promote st t1 gate item b =
      count (λ c. record c { t1_to_t2 = c.t1_to_t2 + 1 }) (climb st t1 t2 gate item b)
  promote st t2 gate item b =
      count (λ c. record c { t2_to_t3 = c.t2_to_t3 + 1 }) (climb st t2 t3 gate item b)
  promote st t3 gate item b = earn st item b
  promote st fallout gate item b = b

  unfoldable pub sweep_item : Setting D → Tier → D → Item D → Banks D → Banks D
  sweep_item st t gate item b =
      if st.geb item.importance_score gate then promote st t gate item b else fall st t gate item b

  unfoldable pub sweep_tier : Setting D → Tier → D → List (Item D) → Banks D → Banks D
  sweep_tier st t gate [] b = b
  sweep_tier st t gate (item ∷ items) b = sweep_tier st t gate items (sweep_item st t gate item b)

  abbrev pub failed_gate_of : Setting D → Item D → D
  failed_gate_of st item = elim item.failed_gate [ none ↦ st.gate_t1_to_t2 | some gate ↦ gate ]

  -- an item that was in the fallout when the sweep began
  unfoldable pub second_chance : Setting D → Item D → Banks D → Banks D
  second_chance st item b =
      let gate = failed_gate_of st item in
      if st.in_grace item.entered_fallout_at
      then b
      else if st.geb item.importance_score gate
      then count (λ c. record c { repurposed = c.repurposed + 1 })
          (log_promotion item (codes "fallout") (codes "t1")
            (reason_of st (codes "Repurposed") item gate)
            (delete_tier fallout item (store_tier t1 item b)))
      else one_purged (delete_tier fallout item b)

  unfoldable pub sweep_fallout : Setting D → List (Item D) → Banks D → Banks D
  sweep_fallout st [] b = b
  sweep_fallout st (item ∷ items) b = sweep_fallout st items (second_chance st item b)

  -- The scans are taken before anything moves, so that no item climbs twice.
  unfoldable pub run_sweep : Setting D → Banks D → Banks D
  run_sweep st b = sweep_fallout st (st.scan fallout) (
      sweep_tier st t3 st.gate_to_long_term (st.scan t3) (
        sweep_tier st t2 st.gate_t2_to_t3 (st.scan t2)
          (sweep_tier st t1 st.gate_t1_to_t2 (st.scan t1) b)))
