-- ===== src/Memory/Upkeep.antt =====
-- The routing, the monthly upkeep and the legacy review of src/memory_module.cpp. Doubles are of a type
-- `D` with the operations that the code uses; `tenths 95` is 9.5. Times are of a type `T`.
pub mod Floors
pub mod Run
mod Tests
use lina_cpx.Prelude.{
  ℕ, ◌+◌, Bool, true, false, not, ◌&&◌, List, [], ◌∷◌, ◌++◌, Option, none, some, Bytes, codes,
  is_empty, leb, bytes_eq, if◌then◌else◌,
}

pub record Doubles (D T : Type 0) : Type 0 where
  pub ltb : D → D → Bool
  pub add : D → D → D
  pub neg : D → D
  pub tenths : ℕ → D
  -- `score * exp(-lambda * days)`
  pub decay : D → D → D
  pub parse_iso : Bytes → Option T
  pub later : T → T → Bool
  pub days_between : T → T → D
  pub now : T
  pub now_iso : Bytes

-- `MemoryItemRow`, the fields that the upkeep reads or writes and the narrative
pub record Row (D : Type 0) : Type 0 where
  pub item_id : Bytes
  pub status : Bytes
  pub narrative : Bytes
  pub importance_score : D
  pub floor : Option D
  pub must_keep : Bool
  pub protected_flag : Bool
  pub reference_count : ℕ
  pub last_referenced_at : Option Bytes
  pub created_at : Option Bytes
  pub decay_started_at : Option Bytes

pub record RouteDecision : Type 0 where
  pub stage : Bytes
  pub status : Bytes
  pub protected_flag : Bool
  pub kind : Bytes

pub record MaintenanceDecision (D : Type 0) : Type 0 where
  pub score : D
  pub status : Bytes
  pub decay_started_at : Option Bytes
  pub log_entry : Option (Bytes × Bytes × Bytes)

module _ {D T : Type 0} (ds : Doubles D T) where
  open ds use {ltb, add, neg, tenths, decay, parse_iso, later, days_between, now, now_iso}

  -- `std::max` and `std::min`
  abbrev pub larger : D → D → D
  larger a b = if ltb a b then b else a

  abbrev pub smaller : D → D → D
  smaller a b = if ltb b a then b else a

  -- `MemoryDial::clamp_delta`
  unfoldable pub clamp_delta : D → D
  clamp_delta delta =
      let low = neg (tenths 30) in
      let high = tenths 30 in if ltb delta low then low else if ltb high delta then high else delta

  -- `MemoryDial::adjust`
  unfoldable pub adjust : D → D → D → D
  unfolding clamp_delta
  adjust score delta floor = larger floor (add score (clamp_delta delta))

  unfoldable pub route_item : D → RouteDecision
  route_item score =
      if not (ltb score (tenths 80))
      then record {
        stage = codes "long_term";
        status = codes "legacy";
        protected_flag = true;
        kind = codes "identity";
      }
      else if not (ltb score (tenths 50))
      then record {
        stage = codes "long_term";
        status = codes "active";
        protected_flag = false;
        kind = codes "episodic";
      }
      else record {
        stage = codes "t1";
        status = [];
        protected_flag = false;
        kind = codes "episodic";
      }

  -- a time that is given and can be read
  abbrev pub time_of : Option Bytes → Option T
  time_of none = none
  time_of (some ts) = if is_empty ts then none else parse_iso ts

  abbrev pub is_given : Option Bytes → Bool
  is_given none = false
  is_given (some ts) = not (is_empty ts)

  abbrev pub reward_of : ℕ → D
  reward_of references =
      if leb 25 references
      then larger (tenths 0) (tenths 20)
      else if leb 10 references
      then larger (tenths 0) (tenths 15)
      else if leb 3 references
      then larger (tenths 0) (tenths 10)
      else tenths 0

  -- a reference in the last thirty days
  abbrev pub recent_reward : Option T → D → D
  recent_reward none delta = delta
  recent_reward (some t) delta =
      let days = days_between now t in
      if not (ltb days (tenths 0)) && not (ltb (tenths 300) days)
      then add delta (tenths 5)
      else delta

  -- never referenced, and old
  abbrev pub age_penalty : Option T → D → D
  age_penalty none delta = delta
  age_penalty (some t) delta =
      let age = days_between now t in
      if not (ltb age (tenths 1800))
      then smaller delta (neg (tenths 20))
      else if not (ltb age (tenths 900))
      then smaller delta (neg (tenths 10))
      else delta

  unfoldable pub maintenance_delta : ℕ → Option Bytes → Option Bytes → D
  unfolding clamp_delta
  maintenance_delta references referenced created =
      let delta = reward_of references in
      clamp_delta (
        if is_given referenced
        then recent_reward (time_of referenced) delta
        else if is_given created
        then age_penalty (time_of created) delta
        else delta)

  abbrev pub floor_of : Row D → D
  floor_of row = elim row.floor [ none ↦ tenths 0 | some f ↦ f ]

  -- the floor of a row that the human wants kept is its score
  abbrev pub kept_floor : Row D → D
  kept_floor row = if row.must_keep then row.importance_score else floor_of row

  abbrev pub delta_of : Row D → D
  delta_of row = maintenance_delta row.reference_count row.last_referenced_at row.created_at

  abbrev pub decide :
      D → Bytes → Option Bytes → Option (Bytes × Bytes × Bytes) → MaintenanceDecision D
  decide score status decaying entry = record {
    score = score;
    status = status;
    decay_started_at = decaying;
    log_entry = entry;
  }

  unfoldable pub apply_monthly : Row D → MaintenanceDecision D
  unfolding maintenance_delta adjust
  apply_monthly row =
      let score = adjust row.importance_score (delta_of row) (kept_floor row) in
      if not (ltb score (tenths 95))
      then decide score (codes "legacy") none (
          some (
            codes "active",
            codes "legacy",
            codes "Earned the crown - score rose to the legacy line",
          ))
      else if ltb score (tenths 40)
      then decide score (codes "subconscious") (some now_iso) (
          some (
            codes "active",
            codes "subconscious",
            codes "Slipped below the retention line - the subconscious slope begins",
          ))
      else decide score (codes "active") none none

  unfoldable pub apply_legacy_review : Row D → MaintenanceDecision D
  unfolding maintenance_delta adjust
  apply_legacy_review row =
      if row.protected_flag
      then decide (adjust row.importance_score (delta_of row) (kept_floor row)) (codes "legacy")
          none none
      else let score = adjust row.importance_score (delta_of row) (tenths 0) in
        if ltb score (tenths 80)
        then decide score (codes "subconscious") (some now_iso) (
            some (
              codes "legacy",
              codes "subconscious",
              codes "No longer earning the crown - slipped to the subconscious",
            ))
        else decide score (codes "legacy") none none

  -- the later of an anchor and another time
  abbrev pub anchor_at : Option T → Option T → Option T
  anchor_at anchor none = anchor
  anchor_at none (some t) = some t
  anchor_at (some a) (some t) = if later t a then some t else some a

  abbrev pub slope_from : Row D → Option T → D × Bool
  slope_from row none = (row.importance_score, false)
  slope_from row (some anchor) =
      let idle = days_between now anchor in
      let effective = decay row.importance_score idle in
      if not (ltb idle (tenths 7300))
      then (tenths 0, true)
      else if ltb effective (tenths 5)
      then (tenths 0, true)
      else (larger effective (floor_of row), false)

  unfoldable pub slope_effective : Row D → D × Bool
  slope_effective row = slope_from row (
      anchor_at (anchor_at (time_of row.decay_started_at) (time_of row.last_referenced_at))
        (time_of row.created_at))
