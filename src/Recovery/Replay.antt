-- ===== src/Recovery/Replay.antt =====
-- What `recover` computes, against descriptions of the log that do not replay it.
use hyperplane_rs.Prelude.{
  ℕ, ◌≡◌, refl, Bool, true, false, not, ◌&&◌, ◌||◌, ◌==◌, List, [], ◌∷◌, any, arith,
}
use hyperplane_rs.Prelude.IdSet.{mem, mem-insert, mem-remove}
use hyperplane_rs.Recovery.{
  JournalEventKind, JournalEvent, RecoveryResult, InMemoryStateManager, step_started,
  step_completed, step_failed, step_skipped, execution_completed, default, replay_one, replay,
  events_of, completes, recover, is_step_completed,
}

abbrev pub starts : ℕ → JournalEventKind → Bool
starts step (step_started s) = s == step
starts step _ = false

abbrev pub fails : ℕ → JournalEventKind → Bool
fails step (step_failed s) = s == step
fails step _ = false

abbrev pub skips : ℕ → JournalEventKind → Bool
skips step (step_skipped s) = s == step
skips step _ = false

abbrev pub is_end : JournalEventKind → Bool
is_end execution_completed = true
is_end _ = false

-- An event that ends the step, in success, in failure or skipped.
abbrev pub ends : ℕ → JournalEventKind → Bool
unfolding completes
ends step e = completes step e || fails step e || skips step e

-- Some start of the step has no end of the step behind it.
abbrev pub is_open : ℕ → List JournalEventKind → Bool
is_open step [] = false
is_open step (e ∷ es) = (starts step e && not (any (ends step) es)) || is_open step es

-- The four sets and the flag after one event.
module _ (step : ℕ) where
  record Replayed (es : List JournalEventKind) (out end : RecoveryResult) : Type 0 where
    completed :
        mem step end.completed_step_ids
        ≡ (mem step out.completed_step_ids || any (completes step) es)
    failed : mem step end.failed_step_ids ≡ (mem step out.failed_step_ids || any (fails step) es)
    skipped : mem step end.skipped_step_ids ≡ (mem step out.skipped_step_ids || any (skips step) es)
    in_flight :
        mem step end.in_flight_step_ids
        ≡ ((mem step out.in_flight_step_ids && not (any (ends step) es)) || is_open step es)
    clean : end.was_clean_shutdown ≡ (out.was_clean_shutdown || any is_end es)

  replay_one-Replayed :
      (e : JournalEventKind) (out : RecoveryResult) → Replayed (e ∷ []) out (replay_one e out)
  unfolding replay_one completes
  replay_one-Replayed (step_completed s) out = record {
    completed = ground (arith, mem-insert step s out.completed_step_ids);
    failed = ground arith;
    skipped = ground arith;
    in_flight = ground (arith, mem-remove step s out.in_flight_step_ids);
    clean = ground arith;
  }
  replay_one-Replayed (step_failed s) out = record {
    completed = ground arith;
    failed = ground (arith, mem-insert step s out.failed_step_ids);
    skipped = ground arith;
    in_flight = ground (arith, mem-remove step s out.in_flight_step_ids);
    clean = ground arith;
  }
  replay_one-Replayed (step_skipped s) out = record {
    completed = ground arith;
    failed = ground arith;
    skipped = ground (arith, mem-insert step s out.skipped_step_ids);
    in_flight = ground (arith, mem-remove step s out.in_flight_step_ids);
    clean = ground arith;
  }
  replay_one-Replayed (step_started s) out = record {
    completed = ground arith;
    failed = ground arith;
    skipped = ground arith;
    in_flight = ground (arith, mem-insert step s out.in_flight_step_ids);
    clean = ground arith;
  }
  replay_one-Replayed e out = record {
    completed = ground arith;
    failed = ground arith;
    skipped = ground arith;
    in_flight = ground arith;
    clean = ground arith;
  }

  replay-Replayed :
      (es : List JournalEventKind) (out : RecoveryResult) → Replayed es out (replay es out)
  unfolding replay
  replay-Replayed [] out = record {
    completed = ground arith;
    failed = ground arith;
    skipped = ground arith;
    in_flight = ground arith;
    clean = ground arith;
  }
  replay-Replayed (e ∷ es) out =
      let one = replay_one-Replayed e out in
      let rest = replay-Replayed es (replay_one e out) in
      record {
        completed = ground (arith, one.completed, rest.completed);
        failed = ground (arith, one.failed, rest.failed);
        skipped = ground (arith, one.skipped, rest.skipped);
        in_flight = ground (arith, one.in_flight, rest.in_flight);
        clean = ground (arith, one.clean, rest.clean);
      }

-- The events of an execution that complete a step.
completes-events_of :
    (execution step : ℕ) (es : List JournalEvent)
    → any (λ e. (e.execution_id == execution) && completes step e.kind) es
      ≡ any (completes step) (events_of execution es)
unfolding events_of
completes-events_of execution step [] = refl
completes-events_of execution step (e ∷ es) = ground (arith, completes-events_of execution step es)

module _ {C R W : Type 0} where
  -- `recover` reports a step as completed, failed or skipped exactly where the execution's log has
  -- such an event of the step, as in flight exactly where a start of the step has no end behind it,
  -- and a clean shutdown exactly where the execution completed; and `is_step_completed` agrees with it.
  pub recover-log :
      (m : InMemoryStateManager C R W) (execution step : ℕ)
      → (mem step (recover execution m).completed_step_ids
          ≡ any (completes step) (events_of execution m.events))
        × (mem step (recover execution m).failed_step_ids
            ≡ any (fails step) (events_of execution m.events))
        × (mem step (recover execution m).skipped_step_ids
            ≡ any (skips step) (events_of execution m.events))
        × (mem step (recover execution m).in_flight_step_ids
            ≡ is_open step (events_of execution m.events))
        × ((recover execution m).was_clean_shutdown ≡ any is_end (events_of execution m.events))
        × (is_step_completed execution step m ≡ mem step (recover execution m).completed_step_ids)
  unfolding recover default mem is_step_completed
  recover-log m execution step =
      let out = replay-Replayed step (events_of execution m.events) default in
      (
        out.completed,
        out.failed,
        out.skipped,
        ground (arith, out.in_flight),
        out.clean,
        ground (arith, completes-events_of execution step m.events, out.completed),
      )
