-- ===== src/Recovery/Examples.antt =====
-- Tests and concrete instances for the state manager.
use hyperplane_rs.Prelude.{ℕ, ◌≡◌, ◌≢◌, refl, true, List, [], ◌∷◌, any, some, none, arith}
use hyperplane_rs.Prelude.IdSet.{mem, insert, remove, lookup}
use hyperplane_rs.Recovery.{
  JournalEvent, InMemoryStateManager, default, events_of, completes, recover, get_trial_results,
  cleanup, is_step_completed, step_started, step_completed, step_failed, execution_completed,
  execution_started, since, load_checkpoint, get_trial_result,
}
use hyperplane_rs.Recovery.Replay.{fails, skips, is_end, is_open, recover-log}
use hyperplane_rs.Recovery.Cleanup.{cleanup-queries}

-- Step 5 fails and starts again in execution 1; step 6 completes in both.
abbrev log : List JournalEvent
log =
    (record { sequence = 0; execution_id = 1; kind = execution_started })
    ∷ (record { sequence = 1; execution_id = 1; kind = step_started 5 })
    ∷ (record { sequence = 2; execution_id = 1; kind = step_failed 5 })
    ∷ (record { sequence = 0; execution_id = 2; kind = step_completed 6 })
    ∷ (record { sequence = 3; execution_id = 1; kind = step_started 5 })
    ∷ (record { sequence = 4; execution_id = 1; kind = step_completed 6 })
    ∷ (record { sequence = 5; execution_id = 1; kind = execution_completed })
    ∷ []

abbrev manager : InMemoryStateManager ℕ ℕ ℕ
manager = record {
  checkpoints = (1, 100) ∷ [];
  events = log;
  suspensions = [];
  trial_results = (1, (8, 80) ∷ (9, 90) ∷ []) ∷ (2, (8, 81) ∷ []) ∷ [];
}

program : Unit {0}
unfolding recover default mem insert remove get_trial_results get_trial_result cleanup lookup since
    load_checkpoint
program = tt

-- The execution counts as shut down cleanly with step 5 in flight.
in_flight : (recover 1 manager).in_flight_step_ids ≡ 5 ∷ []
unfolding program
in_flight = refl

clean : (recover 1 manager).was_clean_shutdown ≡ true
unfolding program
clean = refl

other_results : get_trial_results 2 (cleanup 1 manager) ≡ 81 ∷ []
unfolding program
other_results = refl

-- `cleanup` keeps the checkpoints of the execution.
checkpoint_kept : load_checkpoint 1 (cleanup 1 manager) ≡ some 100
unfolding program
checkpoint_kept = refl

-- The reader leaves out the sequence number 0, which the executor gives to no event.
number_zero :
    since none (record { sequence = 0; execution_id = 1; kind = execution_started } ∷ []) ≡ []
unfolding program
number_zero = refl

recover-log_example :
    (mem 5 (recover 1 manager).completed_step_ids ≡ any (completes 5) (events_of 1 log))
    × (mem 5 (recover 1 manager).failed_step_ids ≡ any (fails 5) (events_of 1 log))
    × (mem 5 (recover 1 manager).skipped_step_ids ≡ any (skips 5) (events_of 1 log))
    × (mem 5 (recover 1 manager).in_flight_step_ids ≡ is_open 5 (events_of 1 log))
    × ((recover 1 manager).was_clean_shutdown ≡ any is_end (events_of 1 log))
    × (is_step_completed 1 5 manager ≡ mem 5 (recover 1 manager).completed_step_ids)
recover-log_example = recover-log manager 1 5

abbrev two : ℕ
two = 2

two_not_one : two ≢ 1
two_not_one e = ground arith

cleanup-queries_example :
    (recover 1 (cleanup 1 manager) ≡ default)
    × (get_trial_results 1 (cleanup 1 manager) ≡ [])
    × (recover 2 (cleanup 1 manager) ≡ recover 2 manager)
    × (get_trial_results 2 (cleanup 1 manager) ≡ get_trial_results 2 manager)
cleanup-queries_example = cleanup-queries manager 1 2 two_not_one
