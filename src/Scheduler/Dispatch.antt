-- ===== src/Scheduler/Dispatch.antt =====
-- What `next_steps` picks, and what it does to the invariant.
use hyperplane_rs.Prelude.{
  ℕ, ◌≤◌, ◌<◌, ◌≡◌, inl, inr, sym, ap, ◌∙◌, subst, Bool, true, false, some, List, [], ◌∷◌, ◌++◌,
  all, length, length-append, ltb, leb, Bool-cases, Option-cases, arith,
}
use hyperplane_rs.Prelude.IdSet.{mem, mem-insert, mem-remove, mem-append}
use hyperplane_rs.Scheduler.State.{
  Floats, ResourceSnapshot, SchedulingPolicy, InnerState, SchedulerStatistics,
}
use hyperplane_rs.Scheduler.Resources.{fits, deduct}
use hyperplane_rs.Scheduler.Policy.{order_ids, requirements_of}
use hyperplane_rs.Scheduler.Operations.{
  Picking, max_capacity, dispatch, pick, start_picking, dispatched_stats, next_steps,
}
use hyperplane_rs.Scheduler.Invariant.{Inv, deps_of, is_settled, is_open}
use hyperplane_rs.Scheduler.Candidates.{mem-order_ids}

module _ (floats : Floats) where
  open floats use {F}

  module _ (ids : List ℕ) (plan : ℕ → List ℕ) where
    dispatch-Inv :
        (x : ℕ) (st : InnerState F)
        → Inv ids plan [] [] st
        → Inv ids plan [] [] (dispatch floats x st)
    unfolding dispatch
    dispatch-Inv x st inv = record {
      planned = inv.planned;
      forward = inv.forward;
      backward = inv.backward;
      roots = λ s. ground (arith, mem-remove s x st.ready, mem-remove s x st.pending, inv.roots s);
      cleared = λ s. ground (arith, mem-remove s x st.ready, inv.cleared s);
      waits = λ s. ground (arith, mem-remove s x st.ready, mem-remove s x st.pending, inv.waits s);
      unfailed = λ s d.
          ground (arith, mem-remove s x st.ready, mem-remove s x st.pending, inv.unfailed s d);
      covered = λ s. ground (
        arith,
        mem-remove s x st.ready,
        mem-remove s x st.pending,
        mem-insert s x st.running,
        inv.covered s,
      );
    }

    -- The cursor and the statistics do not matter.
    unread-Inv :
        (cursor : ℕ) (stats : SchedulerStatistics) (st : InnerState F)
        → Inv ids plan [] [] st
        → Inv ids plan [] [] (record st { fair_cursor = cursor; stats = stats })
    unread-Inv cursor stats st inv = record {
      planned = inv.planned;
      forward = inv.forward;
      backward = inv.backward;
      roots = inv.roots;
      cleared = inv.cleared;
      waits = inv.waits;
      unfailed = inv.unfailed;
      covered = inv.covered;
    }

  -- One round of the loop of `next_steps`.
  abbrev pub taken : ℕ → Picking floats → Picking floats
  taken id p = record {
    picked = p.picked ++ id ∷ [];
    remaining = deduct floats p.remaining (requirements_of floats p.inner.requirements id);
    inner = dispatch floats id p.inner;
  }

  abbrev admitted : ℕ → Picking floats → Bool
  admitted id p = fits floats (requirements_of floats p.inner.requirements id) p.remaining

  -- A rule for the loop: `P` holds at the end if it holds at the start and taking an admitted
  -- candidate, while fewer than `max_count` are picked, keeps it.
  pub pick_ind {κ} :
      (P : Picking floats → Type κ) (max_count : ℕ) (ids : List ℕ) (p : Picking floats)
      → ((id : ℕ) (q : Picking floats)
          → mem id ids ≡ true
          → length q.picked < max_count
          → admitted id q ≡ true
          → P q
          → P (taken id q))
      → P p
      → P (pick floats max_count ids p)
  unfolding pick mem
  pick_ind P max_count [] p keep h = h
  pick_ind P max_count (id ∷ ids) p keep h =
      let later = λ (x : ℕ) (q : Picking floats) (m : mem x ids ≡ true). keep x q (ground arith) in
      elim (Bool-cases (leb max_count (length p.picked))) [
        | inl full ↦ rw full h
        | inr room ↦ elim (Bool-cases (admitted id p)) [
          | inl fine ↦
              rw (room, fine)
                (pick_ind P max_count ids (taken id p) later
                  (keep id p (ground arith) (ground arith) fine h))
          | inr refused ↦ rw (room, refused) (pick_ind P max_count ids p later h)
        ]
      ]

  -- A successful `next_steps`: the candidates, and the end of the loop over them.
  abbrev pub picking : ℕ → ResourceSnapshot F → InnerState F → List ℕ → ℕ → Picking floats
  picking max_count resources st ids cursor =
      pick floats max_count ids (start_picking floats resources cursor st)

  pub next_steps-eq-some :
      (policy : SchedulingPolicy) (max_count : ℕ) (resources : ResourceSnapshot F)
      (st after : InnerState F) (out : List ℕ)
      → next_steps floats policy max_count resources st ≡ some (after, out)
      → (ids : List ℕ) × (cursor : ℕ) × (order_ids floats policy st max_count st.ready
          ≡ some (ids, cursor))
        × (let p = picking max_count resources st ids cursor in
            (record (p.inner) { stats = dispatched_stats floats (length p.picked) p.inner.stats }
              ≡ after)
            × (p.picked ≡ out))
  unfolding next_steps
  next_steps-eq-some policy max_count resources st after out e =
      elim (Bool-cases (ltb max_capacity max_count)) [
        | inl panics ↦ absurd (let clash = rw (panics, next_steps) at e in cc)
        | inr room ↦ elim (Option-cases (order_ids floats policy st max_count st.ready)) [
          | inl n ↦ absurd (let clash = rw (room, n, next_steps) at e in cc)
          | inr ((ids, cursor), s) ↦
              let e' = rw (room, s, next_steps) at e in (ids, cursor, s, (cc e', cc e'))
        ]
      ]

  module _ (ids : List ℕ) (plan : ℕ → List ℕ) where
    -- What the loop keeps, seen from the state `st` at its start.
    record Safe (max_count : ℕ) (st : InnerState F) (p : Picking floats) : Type 0 where
      inv : Inv ids plan [] [] p.inner
      within : length p.picked ≤ max_count
      were_ready : (j : ℕ) → mem j p.picked ≡ true → mem j st.ready ≡ true
      run : (j : ℕ) → mem j p.picked ≡ true → mem j p.inner.running ≡ true
      closed : (j : ℕ) → mem j p.picked ≡ true → is_open p.inner j ≡ false

    taken-Safe :
        (max_count id : ℕ) (st : InnerState F) (p : Picking floats)
        → mem id st.ready ≡ true
        → length p.picked < max_count
        → Safe max_count st p
        → Safe max_count st (taken id p)
    unfolding dispatch mem
    taken-Safe max_count id st p r room s = record {
      inv = dispatch-Inv ids plan id p.inner s.inv;
      within = omega (arith, length-append p.picked (id ∷ []), s.within);
      were_ready = λ j. ground (arith, mem-append j p.picked (id ∷ []), s.were_ready j);
      run = λ j.
          ground (arith, mem-append j p.picked (id ∷ []), mem-insert j id p.inner.running, s.run j);
      closed = λ j. ground (
        arith,
        mem-append j p.picked (id ∷ []),
        mem-remove j id p.inner.pending,
        mem-remove j id p.inner.ready,
        s.closed j,
      );
    }

    picking-Safe :
        (policy : SchedulingPolicy) (max_count : ℕ) (resources : ResourceSnapshot F)
        (st : InnerState F) (candidates : List ℕ) (cursor : ℕ)
        → order_ids floats policy st max_count st.ready ≡ some (candidates, cursor)
        → Inv ids plan [] [] st
        → Safe max_count st (picking max_count resources st candidates cursor)
    unfolding mem
    picking-Safe policy max_count resources st candidates cursor e inv =
        pick_ind (Safe max_count st) max_count candidates (start_picking floats resources cursor st)
          (λ id p m room fine s.
            taken-Safe max_count id st p
              (mem-order_ids floats policy id st max_count st.ready candidates cursor e m) room s)
          (record {
            inv = unread-Inv ids plan cursor st.stats st inv;
            within = omega arith;
            were_ready = λ j m. cc;
            run = λ j m. cc;
            closed = λ j m. cc;
          })

  -- From a state with the invariant, under every policy, a successful `next_steps` keeps the
  -- invariant and picks at most `max_count` steps. Each of them was ready with all of its
  -- dependencies completed or skipped, and is afterwards running and neither pending nor ready.
  pub next_steps-picked :
      (ids : List ℕ) (plan : ℕ → List ℕ) (policy : SchedulingPolicy) (max_count : ℕ)
      (resources : ResourceSnapshot F) (st after : InnerState F) (out : List ℕ)
      → Inv ids plan [] [] st
      → next_steps floats policy max_count resources st ≡ some (after, out)
      → Inv ids plan [] [] after
        × (length out ≤ max_count)
        × ((j : ℕ)
            → mem j out ≡ true
            → (mem j st.ready ≡ true)
              × (all (is_settled st) (deps_of st j) ≡ true)
              × (mem j after.running ≡ true)
              × (is_open after j ≡ false))
  next_steps-picked ids plan policy max_count resources st after out inv e =
      let (candidates, cursor, ordered, (state, picks)) =
        next_steps-eq-some policy max_count resources st after out e in
      let p = picking max_count resources st candidates cursor in
      let s = picking-Safe ids plan policy max_count resources st candidates cursor ordered inv in
      let stats = dispatched_stats floats (length p.picked) p.inner.stats in
      (
        subst (Inv ids plan [] []) state
            (unread-Inv ids plan p.inner.fair_cursor stats p.inner s.inv),
        rw (← picks) s.within,
        λ j m.
            let m' : mem j p.picked ≡ true = rw (← picks) at m in
            let was = s.were_ready j m' in
            (
              was,
              inv.cleared j was,
              sym (ap (λ (z : InnerState F). mem j z.running) state) ∙ s.run j m',
              sym (ap (λ (z : InnerState F). is_open z j) state) ∙ s.closed j m',
            ),
      )
