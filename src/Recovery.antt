-- ===== src/Recovery.antt =====
-- crates/paramodel-executor/src/state.rs: `InMemoryStateManager`, whose `recover` replays the events of
-- crates/paramodel-executor/src/journal.rs. Of an event's payload the ids of steps stand here; no
-- function of these files reads the rest. Checkpoints (`C`), trial results (`R`) and reasons (`W`) are
-- parameters.
mod Replay
mod Cleanup
mod Examples
use hyperplane_rs.Prelude.{
  ℕ, Bool, true, false, not, ◌&&◌, ◌||◌, ◌==◌, ltb, Option, none, some, List, [], ◌∷◌, ◌++◌, any,
  map, if◌then◌else◌,
}
use hyperplane_rs.Prelude.IdSet.{insert, remove, lookup, put}

pub data JournalEventKind : Type 0 where
  execution_started : JournalEventKind
  execution_resumed : JournalEventKind
  execution_paused : JournalEventKind
  execution_stopped : JournalEventKind
  execution_completed : JournalEventKind
  step_started : ℕ → JournalEventKind
  step_completed : ℕ → JournalEventKind
  step_failed : ℕ → JournalEventKind
  step_skipped : ℕ → JournalEventKind
  instance_state_change : JournalEventKind
  barrier_reached : JournalEventKind
  barrier_timed_out : JournalEventKind
  checkpoint_created : JournalEventKind
  trial_started : JournalEventKind
  trial_completed : JournalEventKind

pub record JournalEvent : Type 0 where
  pub sequence : ℕ
  pub execution_id : ℕ
  pub kind : JournalEventKind

-- The fields that `recover` fills; the others keep their defaults.
pub record RecoveryResult : Type 0 where
  pub completed_step_ids : List ℕ
  pub failed_step_ids : List ℕ
  pub skipped_step_ids : List ℕ
  pub in_flight_step_ids : List ℕ
  pub was_clean_shutdown : Bool

unfoldable pub default : RecoveryResult
default = record {
  completed_step_ids = [];
  failed_step_ids = [];
  skipped_step_ids = [];
  in_flight_step_ids = [];
  was_clean_shutdown = false;
}

-- The `match` of `recover`.
unfoldable pub replay_one : JournalEventKind → RecoveryResult → RecoveryResult
replay_one (step_completed step) out = record out {
  completed_step_ids = insert step out.completed_step_ids;
  in_flight_step_ids = remove step out.in_flight_step_ids;
}
replay_one (step_failed step) out = record out {
  failed_step_ids = insert step out.failed_step_ids;
  in_flight_step_ids = remove step out.in_flight_step_ids;
}
replay_one (step_skipped step) out = record out {
  skipped_step_ids = insert step out.skipped_step_ids;
  in_flight_step_ids = remove step out.in_flight_step_ids;
}
replay_one (step_started step) out = record out {
  in_flight_step_ids = insert step out.in_flight_step_ids;
}
replay_one execution_completed out = record out { was_clean_shutdown = true }
replay_one _ out = out

unfoldable pub replay : List JournalEventKind → RecoveryResult → RecoveryResult
unfolding replay_one
replay [] out = out
replay (e ∷ es) out = replay es (replay_one e out)

-- The `filter` of `recover`.
unfoldable pub events_of : ℕ → List JournalEvent → List JournalEventKind
events_of execution [] = []
events_of execution (e ∷ es) =
    let rest = events_of execution es in if e.execution_id == execution then e.kind ∷ rest else rest

unfoldable pub completes : ℕ → JournalEventKind → Bool
completes step (step_completed s) = s == step
completes step _ = false

-- `retain`.
unfoldable pub retain_others : ℕ → List JournalEvent → List JournalEvent
retain_others execution [] = []
retain_others execution (e ∷ es) =
    let rest = retain_others execution es in if e.execution_id == execution then rest else e ∷ rest

-- `BTreeMap::remove` and `values`.
unfoldable pub remove_key : {V : Type 0} → ℕ → List (ℕ × V) → List (ℕ × V)
remove_key k [] = []
remove_key k ((j, v) ∷ m) = let rest = remove_key k m in if j == k then rest else (j, v) ∷ rest

-- The writer and the reader of `InMemoryJournalWriter`.
unfoldable pub write : JournalEvent → List JournalEvent → List JournalEvent
write event events = events ++ event ∷ []

unfoldable pub after : ℕ → List JournalEvent → List JournalEvent
after gate [] = []
after gate (e ∷ es) = let rest = after gate es in if ltb gate e.sequence then e ∷ rest else rest

unfoldable pub since : Option ℕ → List JournalEvent → List JournalEvent
unfolding after
since none events = after 0 events
since (some gate) events = after gate events

pub record InMemoryStateManager (C R W : Type 0) : Type 0 where
  pub checkpoints : List (ℕ × C)
  pub events : List JournalEvent
  pub suspensions : List (ℕ × W)
  pub trial_results : List (ℕ × List (ℕ × R))

module _ {R : Type 0} where
  unfoldable pub results_of : ℕ → List (ℕ × List (ℕ × R)) → List (ℕ × R)
  results_of execution all = elim (lookup execution all) [ none ↦ [] | some m ↦ m ]

  -- `find_map`.
  unfoldable pub find_trial : ℕ → List (ℕ × List (ℕ × R)) → Option R
  find_trial trial [] = none
  find_trial trial ((x, by_trial) ∷ all) =
      let rest = find_trial trial all in
      elim (lookup trial by_trial) [ none ↦ rest | some r ↦ some r ]

module _ {C R W : Type 0} where
  unfoldable pub record_event :
      JournalEvent → InMemoryStateManager C R W → InMemoryStateManager C R W
  unfolding write
  record_event event m = record m { events = write event m.events }

  unfoldable pub checkpoint : ℕ → C → InMemoryStateManager C R W → InMemoryStateManager C R W
  checkpoint id c m = record m { checkpoints = put id c m.checkpoints }

  unfoldable pub load_checkpoint : ℕ → InMemoryStateManager C R W → Option C
  load_checkpoint id m = lookup id m.checkpoints

  unfoldable pub recover : ℕ → InMemoryStateManager C R W → RecoveryResult
  unfolding replay events_of default
  recover execution m = replay (events_of execution m.events) default

  unfoldable pub is_step_completed : ℕ → ℕ → InMemoryStateManager C R W → Bool
  unfolding completes
  is_step_completed execution step m =
      any (λ e. (e.execution_id == execution) && completes step e.kind) m.events

  unfoldable pub record_suspension : ℕ → W → InMemoryStateManager C R W → InMemoryStateManager C R W
  record_suspension execution reason m = record m {
    suspensions = put execution reason m.suspensions;
  }

  unfoldable pub save_trial_result :
      ℕ → ℕ → R → InMemoryStateManager C R W → InMemoryStateManager C R W
  unfolding results_of
  save_trial_result execution trial r m = record m {
    trial_results =
        put execution (put trial r (results_of execution m.trial_results)) m.trial_results;
  }

  unfoldable pub get_trial_result : ℕ → InMemoryStateManager C R W → Option R
  unfolding find_trial
  get_trial_result trial m = find_trial trial m.trial_results

  unfoldable pub get_trial_results : ℕ → InMemoryStateManager C R W → List R
  unfolding results_of
  get_trial_results execution m = map (λ kv. kv.1) (results_of execution m.trial_results)

  unfoldable pub cleanup : ℕ → InMemoryStateManager C R W → InMemoryStateManager C R W
  unfolding retain_others remove_key
  cleanup execution m = record m {
    events = retain_others execution m.events;
    suspensions = remove_key execution m.suspensions;
    trial_results = remove_key execution m.trial_results;
  }
