-- ===== src/Scheduler/Drive/Progressing.antt =====
-- Each round of the caller completes a step.
use hyperplane_rs.Prelude.{
  ℕ, suc, ◌≤◌, ◌<◌, ◌==◌, ◌≡◌, refl, ap, ◌∙◌, inl, inr, Bool, true, false, ◌&&◌, ◌||◌, List, [],
  ◌∷◌, all, Bool-cases, if◌then◌else◌, arith,
}
use hyperplane_rs.Prelude.IdSet.{mem, insert, union, mem-insert, mem-remove}
use hyperplane_rs.Scheduler.State.{ResourceRequirements, InnerState}
use hyperplane_rs.Scheduler.Operations.{
  list_at, promote, promote_ready_for, clear, count_new, mark_completed,
}
use hyperplane_rs.Scheduler.Invariant.{Inv, is_open}
use hyperplane_rs.Scheduler.Marks.{mark_completed-Inv}
use hyperplane_rs.Scheduler.Drive.{complete_all}

-- The steps that are not completed.
abbrev pub left : List ℕ → List ℕ → ℕ
left [] completed = 0
left (x ∷ ids) completed =
    let rest = left ids completed in if mem x completed then rest else suc rest

pub left-insert-le :
    (ids : List ℕ) (x : ℕ) (done : List ℕ) → left ids (insert x done) ≤ left ids done
left-insert-le [] x done = omega arith
left-insert-le (y ∷ ids) x done = ground (arith, left-insert-le ids x done, mem-insert y x done)

left-insert-lt :
    (ids : List ℕ) (x : ℕ) (done : List ℕ)
    → mem x ids ≡ true
    → mem x done ≡ false
    → left ids (insert x done) < left ids done
unfolding mem
left-insert-lt [] x done there new = cc
left-insert-lt (y ∷ ids) x done there new = elim (Bool-cases (x == y)) [
  | inl t ↦
      let same : x ≡ y = ground arith in
      ground (arith, left-insert-le ids x done, mem-insert y x done)
  | inr f ↦ ground (arith, left-insert-lt ids x done (ground arith) new, mem-insert y x done)
]

module _ {F : Type 0} (ids : List ℕ) where
  abbrev pub is_active : InnerState F → ℕ → Bool
  is_active st s = is_open st s || mem s st.running

  -- What is open or running is a step of the plan that is not completed, and no step is skipped or
  -- failed.
  pub record Active (st : InnerState F) : Type 0 where
    pub listed : (s : ℕ) → is_active st s ≡ true → mem s ids ≡ true
    pub undone : (s : ℕ) → is_active st s ≡ true → mem s st.completed ≡ false
    pub unskipped : st.skipped ≡ []
    pub unfailed : st.failed ≡ []

  promote-Active : (t ds : List ℕ) (st : InnerState F) → Active st → Active (promote t ds st)
  unfolding promote
  promote-Active t [] st h = h
  promote-Active t (d ∷ ds) st h =
      elim (Bool-cases (mem d st.pending && all (λ x. mem x t) (list_at d st.deps))) [
        | inl y ↦
            rw (y, promote)
              (promote-Active t ds _ (record {
                listed = λ s.
                    ground (arith, h.listed s, mem-remove s d st.pending, mem-insert s d st.ready);
                undone = λ s.
                    ground (arith, h.undone s, mem-remove s d st.pending, mem-insert s d st.ready);
                unskipped = h.unskipped;
                unfailed = h.unfailed;
              }))
        | inr n ↦ rw (n, promote) (promote-Active t ds st h)
      ]

  -- The state in which `mark_completed` promotes the dependents.
  abbrev reported : ℕ → InnerState F → InnerState F
  reported x st = record (clear x st) {
    completed = insert x st.completed;
    stats = record (st.stats) {
      total_completed = count_new x st.completed st.stats.total_completed;
    };
  }

  reported-Active : (x : ℕ) (st : InnerState F) → Active st → Active (reported x st)
  unfolding clear
  reported-Active x st h = record {
    listed = λ s. ground (
      arith,
      h.listed s,
      mem-remove s x st.pending,
      mem-remove s x st.ready,
      mem-remove s x st.running,
    );
    undone = λ s. ground (
      arith,
      h.undone s,
      mem-remove s x st.pending,
      mem-remove s x st.ready,
      mem-remove s x st.running,
      mem-insert s x st.completed,
    );
    unskipped = h.unskipped;
    unfailed = h.unfailed;
  }

  pub mark_completed-Active : (x : ℕ) (st : InnerState F) → Active st → Active (mark_completed x st)
  unfolding mark_completed promote_ready_for
  mark_completed-Active x st h =
      promote-Active (union (reported x st).completed (reported x st).skipped)
        (list_at x (reported x st).dependents) (reported x st) (reported-Active x st h)

  abbrev kept : InnerState F → List ℕ × List (ℕ × ResourceRequirements F)
  kept st = (st.completed, st.requirements)

  promote-kept : (t ds : List ℕ) (st : InnerState F) → kept (promote t ds st) ≡ kept st
  unfolding promote
  promote-kept t [] st = refl
  promote-kept t (d ∷ ds) st =
      elim (Bool-cases (mem d st.pending && all (λ x. mem x t) (list_at d st.deps))) [
        | inl y ↦ rw (y, promote) (promote-kept t ds _)
        | inr n ↦ rw (n, promote) (promote-kept t ds st)
      ]

  mark_completed-kept :
      (x : ℕ) (st : InnerState F) → kept (mark_completed x st) ≡ kept (reported x st)
  unfolding mark_completed promote_ready_for
  mark_completed-kept x st =
      promote-kept (union (reported x st).completed (reported x st).skipped)
        (list_at x (reported x st).dependents) (reported x st)

  requirements_kept :
      (x : ℕ) (st : InnerState F) → (mark_completed x st).requirements ≡ st.requirements
  unfolding clear
  requirements_kept x st = ap (λ p. p.1) (mark_completed-kept x st)

  -- The reports of a round.
  pub record Reported (plan : ℕ → List ℕ) (st after : InnerState F) : Type 0 where
    pub inv : Inv ids plan [] [] after
    pub active : Active after
    pub fewer : left ids after.completed ≤ left ids st.completed
    pub requirements : after.requirements ≡ st.requirements

  pub complete_all-Reported :
      (plan : ℕ → List ℕ) (xs : List ℕ) (st : InnerState F)
      → Inv ids plan [] [] st
      → Active st
      → Reported plan st (complete_all xs st)
  unfolding complete_all
  complete_all-Reported plan [] st inv active = record {
    inv = inv;
    active = active;
    fewer = omega arith;
    requirements = refl;
  }
  complete_all-Reported plan (x ∷ xs) st inv active =
      let rest =
        complete_all-Reported plan xs (mark_completed x st) (mark_completed-Inv ids plan x st inv)
          (mark_completed-Active x st active) in
      let same = mark_completed-kept x st in
      let grown : (mark_completed x st).completed ≡ insert x st.completed = ap (λ p. p.0) same in
      let before : left ids (mark_completed x st).completed ≤ left ids st.completed =
        rw grown (left-insert-le ids x st.completed) in
      record {
        inv = rest.inv;
        active = rest.active;
        fewer = omega (arith, rest.fewer, before);
        requirements = rest.requirements ∙ requirements_kept x st;
      }

  -- With a running step there are fewer left.
  pub reports_fewer :
      (plan : ℕ → List ℕ) (x : ℕ) (xs : List ℕ) (st : InnerState F)
      → Inv ids plan [] [] st
      → Active st
      → mem x st.running ≡ true
      → left ids (complete_all (x ∷ xs) st).completed < left ids st.completed
  unfolding complete_all
  reports_fewer plan x xs st inv active runs =
      let rest =
        complete_all-Reported plan xs (mark_completed x st) (mark_completed-Inv ids plan x st inv)
          (mark_completed-Active x st active) in
      let grown : (mark_completed x st).completed ≡ insert x st.completed =
        ap (λ p. p.0) (mark_completed-kept x st) in
      let before : left ids (mark_completed x st).completed < left ids st.completed = rw grown (
        left-insert-lt ids x st.completed (active.listed x (ground arith))
          (active.undone x (ground arith))) in
      omega (arith, rest.fewer, before)
