-- ===== src/Core/Telemetry.antt =====
-- The technical bus of src/lina_core.cpp: the queue of telemetry and its writer. `telemetry_mutex_` makes each
-- operation on the queue one step, so that a history is a sequence of steps of the two sides. A line is of any type.
pub mod Kept
mod Tests
use lina_cpx.Prelude.{
  ℕ, zero, suc, ◌+◌, Bool, true, false, not, ◌&&◌, ◌||◌, List, [], ◌∷◌, ◌++◌, Option, none, some,
  length, drop, is_empty, leb, if◌then◌else◌,
}

abbrev pub max_queued : ℕ
max_queued = 5000

-- `stored` is what the storage took, in order; a line that it throws on is passed over.
pub record Bus (A : Type 0) : Type 0 where
  pub queue : List A
  pub stopping : Bool
  pub handed : List A
  pub stored : List A
  pub writer_ended : Bool

-- what happens: a line comes in, the writer takes a round, with what the storage does for each line of its
-- batch, or the core is taken down
pub data Event (A : Type 0) : Type 0 where
  persists : A → Event A
  writes : (A → Bool) → Event A
  stops : Event A

module _ {A : Type 0} where
  unfoldable pub persist_telemetry : A → Bus A → Bus A
  persist_telemetry line b =
      let kept = if leb max_queued (length b.queue) then drop 1 b.queue else b.queue in
      record b { queue = kept ++ line ∷ [] }

  -- the lines of a batch that the storage does not throw on
  unfoldable pub taken : (A → Bool) → List A → List A
  taken takes [] = []
  taken takes (line ∷ lines) =
      let rest = taken takes lines in if takes line then line ∷ rest else rest

  -- One round of `telemetry_writer_loop`. With nothing to do it waits.
  unfoldable pub write_round : (A → Bool) → Bus A → Bus A
  unfolding taken
  write_round takes b =
      if b.writer_ended
      then b
      else if not (b.stopping || not (is_empty b.queue))
      then b
      else if b.stopping && is_empty b.queue
      then (record b { writer_ended = true })
      else (record b {
        queue = [];
        handed = b.handed ++ b.queue;
        stored = b.stored ++ taken takes b.queue;
      })

  unfoldable pub step : Event A → Bus A → Bus A
  unfolding persist_telemetry write_round
  step (persists line) b = persist_telemetry line b
  step (writes takes) b = write_round takes b
  step stops b = record b { stopping = true }

  unfoldable pub run : List (Event A) → Bus A → Bus A
  unfolding step
  run [] b = b
  run (e ∷ es) b = run es (step e b)

  abbrev pub quiet : Bus A
  quiet = record { queue = []; stopping = false; handed = []; stored = []; writer_ended = false }
