-- ===== src/Core/Telemetry/Kept.antt =====
-- What the technical bus of src/lina_core.cpp keeps of what comes in.
use lina_cpx.Prelude.{
  ◌+◌, ◌≤◌, ◌<◌, ◌≡◌, refl, sym, ap, ◌∙◌, Bool, true, false, List, [], ◌∷◌, ◌++◌, append_assoc,
  append-nil, length, drop, length-append, length-drop, leb, leb→le, Bool-cases, inl, inr, arith,
}
use lina_cpx.Core.Telemetry.{
  Bus, Event, persists, writes, stops, max_queued, persist_telemetry, write_round, step, run, quiet,
}

module _ {A : Type 0} where
  -- the lines that came in, in order
  unfoldable pub lines : List (Event A) → List A
  lines [] = []
  lines (persists line ∷ es) = line ∷ lines es
  lines (writes takes ∷ es) = lines es
  lines (stops ∷ es) = lines es

  step-queued :
      (e : Event A) (b : Bus A) → length b.queue ≤ max_queued → length (step e b).queue ≤ max_queued
  unfolding step persist_telemetry write_round
  step-queued (persists line) b le = elim (Bool-cases (leb max_queued (length b.queue))) [
    | inl full ↦ rw full (
        omega (
          arith,
          length-append (drop 1 b.queue) (line ∷ []),
          length-drop 1 b.queue,
          leb→le max_queued (length b.queue) full,
        ))
    | inr room ↦ rw room (ground (arith, length-append b.queue (line ∷ [])))
  ]
  step-queued (writes takes) b le = ground arith
  step-queued stops b le = le

  run-queued :
      (es : List (Event A)) (b : Bus A)
      → length b.queue ≤ max_queued
      → length (run es b).queue ≤ max_queued
  unfolding run
  run-queued [] b le = le
  run-queued (e ∷ es) b le = run-queued es (step e b) (step-queued e b le)

  -- what is handed on or queued, in order
  abbrev pub in_order : Bus A → List A
  in_order b = b.handed ++ b.queue

  persist_room :
      (line : A) (b : Bus A)
      → length b.queue < max_queued
      → persist_telemetry line b ≡ record b { queue = b.queue ++ line ∷ [] }
  unfolding persist_telemetry
  persist_room line b lt =
      let room : leb max_queued (length b.queue) ≡ false = ground arith in
      rw (room, persist_telemetry) refl

  write-in_order :
      (takes : A → Bool) (b : Bus A)
      → (in_order (write_round takes b) ≡ in_order b)
        × (length (write_round takes b).queue ≤ length b.queue)
  unfolding write_round
  write-in_order takes b = (ground (arith, append-nil (b.handed ++ b.queue)), ground arith)

  -- while the queue has room for what is still to come, nothing is lost
  run-in_order :
      (es : List (Event A)) (b : Bus A)
      → length b.queue + length (lines es) ≤ max_queued
      → in_order (run es b) ≡ in_order b ++ lines es
  unfolding run lines step
  run-in_order [] b le = sym (append-nil (in_order b))
  run-in_order (persists line ∷ es) b le =
      let longer = b.queue ++ line ∷ [] in
      let next : Bus A = record b { queue = longer } in
      let fits : length longer + length (lines es) ≤ max_queued =
        omega (arith, length-append b.queue (line ∷ [])) in
      ap (λ c. in_order (run es c)) (persist_room line b (omega arith))
      ∙ run-in_order es next fits
      ∙ ap (λ xs. xs ++ lines es) (sym (append_assoc b.handed b.queue (line ∷ [])))
      ∙ append_assoc (in_order b) (line ∷ []) (lines es)
  run-in_order (writes takes ∷ es) b le =
      let (same, less) = write-in_order takes b in
      run-in_order es (write_round takes b) (omega arith) ∙ ap (λ xs. xs ++ lines es) same
  run-in_order (stops ∷ es) b le = run-in_order es (record b { stopping = true }) le

  -- From a quiet bus, with at most 5000 lines in all, in whatever order the lines and the rounds of the writer come,
  -- and whatever the storage throws on: each line is handed to the storage or still queued, in the order in which
  -- they came, and none twice.
  pub run_keeps :
      (es : List (Event A)) → length (lines es) ≤ max_queued → in_order (run es quiet) ≡ lines es
  run_keeps es le = run-in_order es quiet (omega arith)
