-- ===== src/Scheduler/Drive/Round.antt =====
-- A round with room for a step: whatever is ready, a step runs after it.
use hyperplane_rs.Prelude.{
  ℕ, zero, suc, ◌≤◌, ◌<◌, ◌≡◌, ◌⊎◌, refl, sym, subst, inl, inr, true, false, some, List, [], ◌∷◌,
  ltb, leb, length, Bool-cases, arith,
}
use hyperplane_rs.Prelude.IdSet.{mem, mem-insert, mem-remove}
use hyperplane_rs.Scheduler.State.{Floats, ResourceSnapshot, fifo, InnerState}
use hyperplane_rs.Scheduler.Resources.{fits}
use hyperplane_rs.Scheduler.Policy.{order_ids, requirements_of}
use hyperplane_rs.Scheduler.Operations.{
  max_capacity, Picking, start_picking, dispatched_stats, dispatch, pick, next_steps, is_complete,
}
use hyperplane_rs.Scheduler.Invariant.{Inv}
use hyperplane_rs.Scheduler.Dispatch.{pick_ind, taken, next_steps-picked}
use hyperplane_rs.Scheduler.Progress.{idle_complete}
use hyperplane_rs.Scheduler.Drive.{complete_all, round, drive}
use hyperplane_rs.Scheduler.Drive.Progressing.{left, Active, complete_all-Reported, reports_fewer}

module _ (floats : Floats) (max_count : ℕ) (free : ResourceSnapshot (floats.F)) (ids : List ℕ) where
  open floats use {F}

  -- The loop of `next_steps`, seen from the state `st` before it.
  record Moving (st : InnerState F) (p : Picking floats) : Type 0 where
    active : Active ids p.inner
    completed : p.inner.completed ≡ st.completed
    requirements : p.inner.requirements ≡ st.requirements
    running : (y : ℕ) → mem y st.running ≡ true → mem y p.inner.running ≡ true

  taken-Moving :
      (x : ℕ) (st : InnerState F) (p : Picking floats)
      → Active ids st
      → mem x st.ready ≡ true
      → Moving st p
      → Moving st (taken floats x p)
  unfolding dispatch
  taken-Moving x st p h r mv = record {
    active = record {
      listed = λ s. ground (
        arith,
        mv.active.listed s,
        h.listed x,
        mem-remove s x p.inner.ready,
        mem-remove s x p.inner.pending,
        mem-insert s x p.inner.running,
      );
      undone = λ s. ground (
        arith,
        mv.active.undone s,
        rw (← mv.completed) at (h.undone x),
        mem-remove s x p.inner.ready,
        mem-remove s x p.inner.pending,
        mem-insert s x p.inner.running,
      );
      unskipped = mv.active.unskipped;
      unfailed = mv.active.unfailed;
    };
    completed = mv.completed;
    requirements = mv.requirements;
    running = λ y m. ground (arith, mv.running y m, mem-insert y x p.inner.running);
  }

  abbrev fifo_end : InnerState F → Picking floats
  fifo_end st = pick floats max_count st.ready (start_picking floats free st.fair_cursor st)

  abbrev dispatched : InnerState F → InnerState F
  dispatched st =
      let p = fifo_end st in
      record (p.inner) { stats = dispatched_stats floats (length p.picked) p.inner.stats }

  next_steps-fifo :
      (st : InnerState F)
      → ltb max_capacity max_count ≡ false
      → next_steps floats fifo max_count free st ≡ some (dispatched st, (fifo_end st).picked)
  unfolding next_steps order_ids
  next_steps-fifo st room = rw (room, next_steps) refl

  start-Moving :
      (st : InnerState F) → Active ids st → Moving st (start_picking floats free st.fair_cursor st)
  start-Moving st h = record {
    active = record {
      listed = h.listed;
      undone = h.undone;
      unskipped = h.unskipped;
      unfailed = h.unfailed;
    };
    completed = refl;
    requirements = refl;
    running = λ y m. m;
  }

  fifo_end-Moving : (st : InnerState F) → Active ids st → Moving st (fifo_end st)
  fifo_end-Moving st h =
      pick_ind floats (Moving st) max_count st.ready (start_picking floats free st.fair_cursor st)
        (λ x q m room fine mv. taken-Moving x st q h m mv) (start-Moving st h)

  pick-running :
      (y : ℕ) (xs : List ℕ) (p : Picking floats)
      → mem y p.inner.running ≡ true
      → mem y (pick floats max_count xs p).inner.running ≡ true
  unfolding dispatch
  pick-running y xs p h =
      pick_ind floats (λ q. mem y q.inner.running ≡ true) max_count xs p
        (λ x q m room fine r. ground (arith, mem-insert y x q.inner.running)) h

  -- The first ready step that fits is taken.
  first_runs :
      (x : ℕ) (xs : List ℕ) (p : Picking floats)
      → p.picked ≡ []
      → 0 < max_count
      → fits floats (requirements_of floats p.inner.requirements x) p.remaining ≡ true
      → mem x (pick floats max_count (x ∷ xs) p).inner.running ≡ true
  unfolding pick dispatch
  first_runs x xs p none_yet some_room fine =
      let room : leb max_count (length p.picked) ≡ false = rw none_yet (ground arith) in
      rw (room, fine, pick)
        (pick-running x xs (taken floats x p) (ground (arith, mem-insert x x p.inner.running)))

  list_cases : (l : List ℕ) → (l ≡ []) ⊎ ((x : ℕ) × (xs : List ℕ) × (l ≡ x ∷ xs))
  list_cases [] = inl refl
  list_cases (x ∷ xs) = inr (x, xs, refl)

  -- What the caller relies on: the invariants, and that the machine has room for each step alone.
  pub record Drivable (plan : ℕ → List ℕ) (st : InnerState F) : Type 0 where
    pub inv : Inv ids plan [] [] st
    pub active : Active ids st
    pub fit :
        (s : ℕ)
        → mem s ids ≡ true
        → fits floats (requirements_of floats st.requirements s) free ≡ true

  module _ (plan : ℕ → List ℕ) (rank : ℕ → ℕ)
      (known : (s d : ℕ) → mem d (plan s) ≡ true → (mem d ids ≡ true) × (rank d < rank s))
      (room : ltb max_capacity max_count ≡ false) (some_room : 0 < max_count) where
    some_runs :
        (st : InnerState F)
        → Drivable plan st
        → is_complete st ≡ false
        → (x : ℕ) × (mem x (fifo_end st).inner.running ≡ true)
    unfolding mem
    some_runs st h unfinished = elim (list_cases st.ready) [
      | inr (x, xs, r) ↦
          let start = start_picking floats free st.fair_cursor st in
          (
            x,
            subst (λ l. mem x (pick floats max_count l start).inner.running ≡ true) (sym r)
                (first_runs x xs start refl some_room
                  (h.fit x (h.active.listed x (rw r (ground arith))))),
          )
      | inl idle ↦ elim (list_cases st.running) [
        | inr (x, xs, r) ↦ (x, (fifo_end-Moving st h.active).running x (rw r (ground arith)))
        | inl still ↦
            absurd
              (let done = (idle_complete floats ids plan rank st h.inv known idle still).0 in cc)
      ]
    ]

    fifo-Drivable : (st : InnerState F) → Drivable plan st → Drivable plan (dispatched st)
    fifo-Drivable st h =
        let mv = fifo_end-Moving st h.active in
        record {
          inv =
              (next_steps-picked floats ids plan fifo max_count free st (dispatched st)
                (fifo_end st).picked h.inv (next_steps-fifo st room)).0;
          active = record {
            listed = mv.active.listed;
            undone = mv.active.undone;
            unskipped = mv.active.unskipped;
            unfailed = mv.active.unfailed;
          };
          fit = λ s m. rw mv.requirements (h.fit s m);
        }

    fewer_after :
        (xs : List ℕ) (x : ℕ) (st : InnerState F)
        → Inv ids plan [] [] st
        → Active ids st
        → xs ≡ st.running
        → mem x xs ≡ true
        → left ids (complete_all xs st).completed < left ids st.completed
    unfolding mem
    fewer_after [] x st inv active same there = absurd (ground arith)
    fewer_after (y ∷ ys) x st inv active same there =
        reports_fewer ids plan y ys st inv active (rw (← same) (ground arith))

    -- A round from a state that is not complete leaves fewer steps.
    round_fewer :
        (st : InnerState F)
        → Drivable plan st
        → is_complete st ≡ false
        → (after : InnerState F) × (round floats max_count free st ≡ some after)
          × Drivable plan after
          × (left ids after.completed < left ids st.completed)
    unfolding round
    round_fewer st h unfinished =
        let mid = dispatched st in
        let m = fifo-Drivable st h in
        let (x, runs) = some_runs st h unfinished in
        let rest = complete_all-Reported ids plan mid.running mid m.inv m.active in
        (
          complete_all mid.running mid,
          rw (next_steps-fifo st room, round) refl,
          record {
            inv = rest.inv;
            active = rest.active;
            fit = λ s l. rw rest.requirements (m.fit s l);
          },
          subst (λ c. left ids (complete_all mid.running mid).completed < left ids c)
              (fifo_end-Moving st h.active).completed
              (fewer_after mid.running x mid m.inv m.active refl runs),
        )

    drive_done :
        (rounds : ℕ) (st : InnerState F)
        → is_complete st ≡ true
        → drive floats max_count free rounds st ≡ some st
    unfolding drive
    drive_done zero st done = rw (done, drive) refl
    drive_done (suc rounds) st done = rw (done, drive) refl

    -- In as many rounds as there are steps left, the scheduler is complete.
    pub drive_completes :
        (rounds : ℕ) (st : InnerState F)
        → Drivable plan st
        → left ids st.completed ≤ rounds
        → (after : InnerState F) × (drive floats max_count free rounds st ≡ some after)
          × Drivable plan after
          × (is_complete after ≡ true)
    unfolding drive
    drive_completes zero st h enough = elim (Bool-cases (is_complete st)) [
      | inl done ↦ (st, drive_done zero st done, h, done)
      | inr unfinished ↦
          let (mid, e, m, fewer) = round_fewer st h unfinished in
          absurd (omega (arith, fewer, enough))
    ]
    drive_completes (suc rounds) st h enough = elim (Bool-cases (is_complete st)) [
      | inl done ↦ (st, drive_done (suc rounds) st done, h, done)
      | inr unfinished ↦
          let (mid, e, m, fewer) = round_fewer st h unfinished in
          let (after, e', m', done) = drive_completes rounds mid m (omega (arith, fewer, enough)) in
          (after, rw (unfinished, e, drive) e', m', done)
    ]
