-- ===== src/Scheduler/Drive.antt =====
-- A caller of the scheduler that asks for steps and reports every running step as completed, in turns,
-- until `is_complete`, as a study without a failure goes.
pub mod Progressing
pub mod Round
pub mod Finish
use hyperplane_rs.Prelude.{ℕ, zero, suc, Option, none, some, List, [], ◌∷◌, if◌then◌else◌, ◌>>=◌}
use hyperplane_rs.Scheduler.State.{Floats, ResourceSnapshot, SchedulingPolicy, fifo, InnerState}
use hyperplane_rs.Scheduler.Operations.{next_steps, mark_completed, is_complete}

module _ {F : Type 0} where
  unfoldable pub complete_all : List ℕ → InnerState F → InnerState F
  complete_all [] st = st
  complete_all (x ∷ xs) st = complete_all xs (mark_completed x st)

module _ (floats : Floats) (max_count : ℕ) (free : ResourceSnapshot (floats.F)) where
  open floats use {F}

  unfoldable pub round : InnerState F → Option (InnerState F)
  unfolding complete_all
  round st = do
    (after, _) ← next_steps floats fifo max_count free st
    some (complete_all after.running after)

  -- `none` is a panic, or the end of the rounds.
  unfoldable pub drive : ℕ → InnerState F → Option (InnerState F)
  unfolding round
  drive zero st = if is_complete st then some st else none
  drive (suc rounds) st =
      if is_complete st then some st else (do after ← round st; drive rounds after)
