-- ===== src/Value/Growth.antt =====
-- The growth loop of src/lina_core.cpp, with what the value engine of src/value_engine.cpp keeps of a season.
-- The storage is its answers: the identity, the newest evaluations, the active memories. The poles are what
-- they were last clustered from.
pub mod Crossing
use lina_cpx.Prelude.{
  ℕ, zero, suc, ◌+◌, Bool, true, false, List, [], ◌∷◌, ◌++◌, Option, none, some, Bytes, codes,
  length, take, bytes_eq, is_empty, ◌==◌, if◌then◌else◌,
}
use lina_cpx.Value.Seasons.{PolytopeConstraints, from_season}
use lina_cpx.Value.Facets.{Halfspace, build_lattice}
use lina_cpx.Value.Advance.{Rates, Reason, can_advance, next_season}

-- `ValueEngine`: the poles keep the constraints that they were made with
pub record Engine : Type 0 where
  pub constraints : PolytopeConstraints
  pub lattice : List Halfspace
  pub feedback_season : Bytes
  pub pole_constraints : PolytopeConstraints
  pub pole_texts : List Bytes

unfoldable pub new_engine : PolytopeConstraints → Bytes → Engine
new_engine c season = record {
  constraints = c;
  lattice = build_lattice c;
  feedback_season = season;
  pole_constraints = c;
  pole_texts = [];
}

unfoldable pub update_constraints : PolytopeConstraints → Engine → Engine
update_constraints c e = record e { constraints = c; lattice = build_lattice c }

unfoldable pub advance_season : Bytes → Engine → Engine
unfolding update_constraints
advance_season season e = record (update_constraints (from_season season) e) {
  feedback_season = season;
}

pub record Identity (D : Type 0) : Type 0 where
  pub current_season : Bytes
  pub session_count : ℕ
  pub total_evaluations : ℕ
  pub alignment_rate : D

-- a narrative and the name of a concept
abbrev pub Memory : Type 0
Memory = Bytes × Option Bytes

pub data Line : Type 0 where
  not_yet : Bytes → ℕ → Line
  homes : ℕ → Line
  crossed : Bytes → Bytes → Line

pub record Being (D : Type 0) : Type 0 where
  pub identity : Identity D
  -- the zones of the evaluations, the newest first
  pub zones : List Bytes
  pub active : List Memory
  pub qualifying_memories : ℕ
  pub engine : Engine
  -- the memory items stored here
  pub landmarks : List Bytes
  pub telemetry : List Line

pub record SeasonAdvancementMetrics (D : Type 0) : Type 0 where
  pub season : Bytes
  pub sessions_completed : ℕ
  pub evaluations : ℕ
  pub rate : D
  pub memories : ℕ

-- the evaluations that are no violation
unfoldable pub count_aligned : List Bytes → ℕ
count_aligned [] = 0
count_aligned (z ∷ zs) =
    let rest = count_aligned zs in if bytes_eq z (codes "violation") then rest else suc rest

-- the text that a memory is encoded by, `none` when it has none
abbrev memory_text : Memory → Option Bytes
memory_text (n ∷ ns, concept) = some (n ∷ ns)
memory_text ([], none) = none
memory_text ([], some []) = none
memory_text ([], some (c ∷ cs)) = some (c ∷ cs)

unfoldable pub texts_of : List Memory → List Bytes
texts_of [] = []
texts_of (m ∷ ms) = elim (memory_text m) [ none ↦ texts_of ms | some t ↦ t ∷ texts_of ms ]

-- `ratio a n` is `a / n` in doubles
module _ {D : Type 0} (rates : Rates D) (ratio : ℕ → ℕ → D) where
  unfoldable pub season_metrics : Being D → SeasonAdvancementMetrics D
  unfolding count_aligned
  season_metrics b =
      let evals = take 100 b.zones in
      record {
        season = b.identity.current_season;
        sessions_completed = b.identity.session_count;
        evaluations = length evals;
        rate =
            if length evals == 0
            then rates.hundredths 0
            else ratio (count_aligned evals) (length evals);
        memories = b.qualifying_memories;
      }

  -- the record that the ledger makes true again, before the test
  abbrev pub refreshed : Being D → Being D
  refreshed b =
      let m = season_metrics b in
      record b {
        identity = record b.identity { total_evaluations = m.evaluations; alignment_rate = m.rate };
      }

  -- what is said of a season that is not earned
  abbrev pub noted : Bytes → Bool × List (Reason D) → Being D → Being D
  noted season (true, reasons) b = b
  noted season (false, reasons) b = record b {
    telemetry = b.telemetry ++ not_yet season (length reasons) ∷ [];
  }

  unfoldable pub check_season_progress : Being D → (Bool × List (Reason D)) × Being D
  check_season_progress b =
      let m = season_metrics b in
      let r = can_advance rates m.sessions_completed m.evaluations m.rate m.memories m.season in
      (r, noted m.season r (refreshed b))

  unfoldable pub discover_home_regions : Being D → Being D
  unfolding texts_of
  discover_home_regions b =
      let texts = texts_of b.active in
      record b {
        engine = record b.engine { pole_texts = texts };
        telemetry = b.telemetry ++ homes (length texts) ∷ [];
      }

  -- the text of the landmark
  abbrev turned : Bytes → Bytes → Bytes
  turned from next = codes "The season turned: " ++ from ++ codes " became " ++ next ++ codes "."

  -- the crossing to `next`
  unfoldable pub cross : Bytes → Being D → Being D
  unfolding advance_season discover_home_regions
  cross next b =
      let from = b.identity.current_season in
      let moved = record b {
        identity = record b.identity { current_season = next };
        engine = advance_season next b.engine;
      } in
      let settled = discover_home_regions moved in
      record settled {
        landmarks = settled.landmarks ++ turned from next ∷ [];
        telemetry = settled.telemetry ++ crossed from next ∷ [];
      }

  -- the text that the code returns, and the crossing, when there is a season to follow
  abbrev pub advance_to : Option Bytes → Being D → Bytes × Being D
  advance_to none b = ([], b)
  advance_to (some next) b =
      let from = b.identity.current_season in
      (codes "Season advanced: " ++ from ++ codes " -> " ++ next ++ codes ".", cross next b)

  unfoldable pub apply_season_advance : Being D → Bytes × Being D
  apply_season_advance b = advance_to (next_season rates b.identity.current_season) b

  -- the growth loop, at the start of the program and at the end of a session
  unfoldable pub grow : Being D → Being D
  grow b = let (r, b') = check_season_progress b in if r.0 then (apply_season_advance b').1 else b'
