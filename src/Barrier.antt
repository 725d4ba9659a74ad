-- ===== src/Barrier.antt =====
-- crates/paramodel-mock/src/barrier.rs (`MockBarrierHandle`) and the states of
-- crates/paramodel-executor/src/barrier.rs. Each method holds the mutex while it changes the state, so
-- tasks interleave as sequences of `Event`s, and a waiter's steps fall between them. A time is a number,
-- which the caller of `apply` gives. tokio's `Notify::notify_waiters` wakes the waiters that have called
-- `notified` by then, and stores nothing for later ones.
mod History
mod Wakeup
mod Examples
use hyperplane_rs.Prelude.{
  ℕ, Bool, true, false, not, ◌&&◌, ◌||◌, ◌==◌, Option, none, some, List, [], ◌∷◌, if◌then◌else◌,
}
use hyperplane_rs.Prelude.IdSet.{mem, insert, remove}

pub data BarrierState : Type 0 where
  pending : BarrierState
  satisfied : BarrierState
  failed : BarrierState
  timed_out : BarrierState

pub record Inner : Type 0 where
  pub state : BarrierState
  pub pending_deps : List ℕ
  pub satisfied_deps : List ℕ
  pub satisfied_at : Option ℕ
  pub failed_reason : Option (List ℕ)
  pub closed : Bool

unfoldable pub is_empty : List ℕ → Bool
is_empty [] = true
is_empty (d ∷ deps) = false

unfoldable pub new : List ℕ → Inner
unfolding is_empty
new deps = record {
  state = if is_empty deps then satisfied else pending;
  pending_deps = deps;
  satisfied_deps = [];
  satisfied_at = none;
  failed_reason = none;
  closed = false;
}

-- `matches!(inner.state, BarrierState::Pending)`.
unfoldable pub is_pending : BarrierState → Bool
is_pending pending = true
is_pending _ = false

-- The first `if` of `mark_dependency_satisfied`.
unfoldable pub move_dependency : ℕ → Inner → Inner
move_dependency step inner =
    if mem step inner.pending_deps
    then record inner {
      pending_deps = remove step inner.pending_deps;
      satisfied_deps = insert step inner.satisfied_deps;
    }
    else inner

-- The second `if`.
unfoldable pub settle : ℕ → Inner → Inner
unfolding is_pending is_empty
settle now inner =
    if is_pending inner.state && is_empty inner.pending_deps
    then record inner { state = satisfied; satisfied_at = some now }
    else inner

unfoldable pub mark_dependency_satisfied : ℕ → ℕ → Inner → Inner
unfolding move_dependency settle
mark_dependency_satisfied now step inner = settle now (move_dependency step inner)

unfoldable pub fail : List ℕ → Inner → Inner
fail reason inner = record inner { state = failed; failed_reason = some reason; closed = true }

unfoldable pub release : ℕ → Inner → Inner
release now inner = record inner { state = satisfied; satisfied_at = some now; closed = true }

-- The arm `Err(_)` of `await_with_timeout`, when a waiter's own time is up.
unfoldable pub expire : Inner → Inner
unfolding is_pending
expire inner =
    if is_pending inner.state then record inner { state = timed_out; closed = true } else inner

pub data BarrierError : Type 0 where
  failed_with : List ℕ → BarrierError
  timed_out_error : BarrierError

pub data Waited : Type 0 where
  ok : Waited
  err : BarrierError → Waited

unfoldable pub reason_or_empty : Option (List ℕ) → List ℕ
reason_or_empty none = []
reason_or_empty (some reason) = reason

-- The `match` of `await_satisfied`; `none` goes on waiting.
unfoldable pub answer : BarrierState → Option (List ℕ) → Option Waited
unfolding reason_or_empty
answer satisfied reason = some ok
answer failed reason = some (err (failed_with (reason_or_empty reason)))
answer timed_out reason = some (err timed_out_error)
answer pending reason = none

-- One look at the state. The reason of a failure is read in the same step.
unfoldable pub look : Inner → Option Waited
unfolding answer
look inner = answer inner.state inner.failed_reason

-- Where a task in `await_satisfied` stands: before `snapshot_state`, behind it with the state seen as
-- pending, in `notified().await`, or returned.
pub data Waiter : Type 0 where
  looking seen_pending enlisted : Waiter
  answered : Waited → Waiter

-- The waiter's next step. In `notified().await` it takes none on its own.
unfoldable pub await_satisfied : Inner → Waiter → Waiter
unfolding look
await_satisfied inner looking = elim (look inner) [ none ↦ seen_pending | some w ↦ answered w ]
await_satisfied inner seen_pending = enlisted
await_satisfied inner enlisted = enlisted
await_satisfied inner (answered w) = answered w

unfoldable pub notify_waiters : Waiter → Waiter
notify_waiters looking = looking
notify_waiters seen_pending = seen_pending
notify_waiters enlisted = looking
notify_waiters (answered w) = answered w

pub data Event : Type 0 where
  mark : ℕ → ℕ → Event
  fail_with : List ℕ → Event
  release_at : ℕ → Event
  expired : Event

unfoldable pub apply : Event → Inner → Inner
unfolding mark_dependency_satisfied fail release expire
apply (mark now step) inner = mark_dependency_satisfied now step inner
apply (fail_with reason) inner = fail reason inner
apply (release_at now) inner = release now inner
apply expired inner = expire inner

-- The state after a history, whose latest event stands first.
unfoldable pub run : List ℕ → List Event → Inner
unfolding new apply
run deps [] = new deps
run deps (e ∷ history) = apply e (run deps history)

-- A waiter beside the calls of other tasks, each of which ends in `notify_waiters`.
pub data Turn : Type 0 where
  call : Event → Turn
  step : Turn

pub record Waiting : Type 0 where
  pub inner : Inner
  pub waiter : Waiter

unfoldable pub take_turn : Turn → Waiting → Waiting
unfolding apply notify_waiters await_satisfied
take_turn (call e) w = record { inner = apply e w.inner; waiter = notify_waiters w.waiter }
take_turn step w = record w { waiter = await_satisfied w.inner w.waiter }

-- The state after the turns, whose latest stands first.
unfoldable pub run_turns : List ℕ → List Turn → Waiting
unfolding new take_turn
run_turns deps [] = record { inner = new deps; waiter = looking }
run_turns deps (t ∷ turns) = take_turn t (run_turns deps turns)
