-- ===== src/Scheduler/Rotation.antt =====
-- The rotation of the Fair policy: its groups, its fuel, and runs of calls on a plan with a step.
use native.Mathlib.Nat.{mod-lt}
use hyperplane_rs.Prelude.{
  ℕ, zero, suc, ◌+◌, ◌-◌, ◌*◌, ◌%◌, ◌≤◌, ◌<◌, ◌≡◌, inl, inr, refl, sym, ap, subst, ◌∙◌, Bool, true,
  false, not, ◌&&◌, ◌==◌, Option, some, List, [], ◌∷◌, ◌++◌, all, any, length, length-append,
  get_elem?, ltb, Bool-cases, Option-cases, arith,
}
use mathlib.Core.List.{reverse}
use hyperplane_rs.Prelude.IdSet.{mem, lookup, put, lookup-put}
use hyperplane_rs.Scheduler.State.{
  Floats, ResourceRequirements, ResourceSnapshot, SchedulingPolicy, fifo, priority, fair,
  resource_aware, PlanStep, InnerState, default,
}
use hyperplane_rs.Scheduler.Policy.{
  Groups, group_ids, sort_groups, pop_group, rotate, rotation_fuel, at_least_one, rotated_ids,
  fair_ids, order_ids, sort_by, by_ask, is_nan, is_unordered, requirements_of,
}
use hyperplane_rs.Scheduler.Operations.{
  list_at, promote, skip_one, cascade, cascade_fuel, failing, start_picking, max_capacity, dispatch,
  next_steps, initialise, register, register_all, mark_completed, mark_skipped, mark_failed,
  mark_started, set_priority,
}
use hyperplane_rs.Prelude.Arith.{u64_mod}
use hyperplane_rs.Scheduler.Resources.{no_requirements}
use hyperplane_rs.Scheduler.Invariant.{is_open}
use hyperplane_rs.Scheduler.Dispatch.{pick_ind, next_steps-eq-some}
use hyperplane_rs.Scheduler.Termination.{mark_failed_total}
use hyperplane_rs.Scheduler.Progress.{
  Call, next, started, completed, failed, skipped, prioritise, apply, run,
}

get_elem?-some {ℓ} :
    {A : Type ℓ} (xs : List A) (i : ℕ) → i < length xs → (x : A) × (get_elem? xs i ≡ some x)
get_elem?-some [] i h = absurd (omega arith)
get_elem?-some (x ∷ xs) zero h = (x, refl)
get_elem?-some (x ∷ xs) (suc i) h = get_elem?-some xs i (omega arith)

fewer :
    (total r n fuel : ℕ)
    → r < total
    → (total - r) * (n + 1) ≤ fuel
    → (total - (r + 1)) * (n + 1) + n < fuel
fewer total r n fuel lt h =
    let k = total - (r + 1) in
    let e : total - r ≡ k + 1 = omega arith in omega (arith, ap (λ (a : ℕ). a * (n + 1)) e)

rotate_total :
    (fuel : ℕ) (order : List (Option ℕ)) (n total cursor : ℕ) (groups : Groups) (rotated : List ℕ)
    (empty_rounds : ℕ)
    → length order ≡ n
    → 0 < n
    → cursor < n
    → (total - length rotated) * (n + 1) + (n - empty_rounds) < fuel
    → (out : List ℕ) × (rotate fuel order n total cursor groups rotated empty_rounds ≡ some out)
unfolding rotate
rotate_total zero order n total cursor groups rotated empty_rounds len pos c h =
    absurd (omega arith)
rotate_total (suc fuel) order n total cursor groups rotated empty_rounds len pos c h =
    elim (Bool-cases (ltb (length rotated) total && ltb empty_rounds n)) [
      | inr stop ↦ (rotated, rw (stop, rotate) refl)
      | inl more ↦
          let (key, k) = get_elem?-some order cursor (omega arith) in
          elim (Option-cases (pop_group key groups)) [
            | inl empty ↦
                rw (more, k, empty, rotate)
                  (rotate_total fuel order n total ((cursor + 1) % n) groups rotated
                    (empty_rounds + 1) len pos (mod-lt (cursor + 1) pos) (ground arith))
            | inr ((sid, rest), s) ↦
                rw (more, k, s, rotate)
                  (rotate_total fuel order n total ((cursor + 1) % n) rest (rotated ++ sid ∷ []) 0
                    len pos (mod-lt (cursor + 1) pos)
                    (ground (
                      arith,
                      length-append rotated (sid ∷ []),
                      fewer total (length rotated) n fuel,
                    )))
          ]
    ]

abbrev IsNonEmpty {ℓ} : {A : Type ℓ} → List A → Type 0
IsNonEmpty xs = 0 < length xs

module _ (floats : Floats) where
  open floats use {F, zero_f}

  rotated_ids_total :
      (st : InnerState F) (n : ℕ) (ids : List ℕ)
      → length st.trial_order ≡ n
      → 0 < n
      → (out : List ℕ) × (rotated_ids floats st n ids ≡ some out)
  unfolding rotated_ids
  rotated_ids_total st n ids len pos =
      let all_left : length ids - length {A = ℕ} [] ≡ length ids = omega arith in
      rotate_total (rotation_fuel n (length ids)) st.trial_order n (length ids) (st.fair_cursor % n)
        (sort_groups (group_ids st.trial_ids ids [])) [] 0 len pos (mod-lt st.fair_cursor pos)
        (rw all_left (omega arith))

  -- The core counts of a map of requirements are numbers.
  abbrev AreNumbers : List (ℕ × ResourceRequirements F) → Type 0
  AreNumbers m = (a : ℕ) → is_nan floats (requirements_of floats m a).peak_cpu_cores ≡ false

  none_nan :
      (m : List (ℕ × ResourceRequirements F)) (ids : List ℕ)
      → AreNumbers m
      → any (λ a. is_nan floats (requirements_of floats m a).peak_cpu_cores) ids ≡ false
  none_nan m [] h = refl
  none_nan m (x ∷ ids) h = ground (arith, h x, none_nan m ids h)

  is_ordered :
      (st : InnerState F) (ids : List ℕ)
      → AreNumbers st.requirements
      → is_unordered floats st ids ≡ false
  unfolding is_unordered
  is_ordered st ids h = ground (arith, none_nan st.requirements ids h)

  order_ids_total :
      (policy : SchedulingPolicy) (st : InnerState F) (max_count : ℕ) (ids : List ℕ)
      → IsNonEmpty st.trial_order
      → AreNumbers st.requirements
      → (r : List ℕ × ℕ) × (order_ids floats policy st max_count ids ≡ some r)
  unfolding order_ids fair_ids at_least_one
  order_ids_total fifo st max_count ids h numbers = (_, refl)
  order_ids_total priority st max_count ids h numbers = (_, refl)
  order_ids_total resource_aware st max_count ids h numbers = (
    (sort_by (by_ask floats st.requirements) ids, st.fair_cursor),
    rw (is_ordered st ids numbers) refl,
  )
  order_ids_total fair st max_count ids h numbers =
      let n = at_least_one (length st.trial_order) in
      let (out, e) = rotated_ids_total st n ids (ground arith) (ground arith) in
      ((out, (st.fair_cursor % n + max_count) % u64_mod % n), rw e)

  -- What no call changes.
  abbrev Fixed : Type 0
  Fixed = List (Option ℕ) × List (ℕ × ResourceRequirements F)

  abbrev fixed : InnerState F → Fixed
  fixed st = (st.trial_order, st.requirements)

  promote-fixed : (t ds : List ℕ) (st : InnerState F) → fixed (promote t ds st) ≡ fixed st
  unfolding promote
  promote-fixed t [] st = refl
  promote-fixed t (d ∷ ds) st =
      elim (Bool-cases (mem d st.pending && all (λ x. mem x t) (list_at d st.deps))) [
        | inl y ↦ rw (y, promote) (promote-fixed t ds _)
        | inr f ↦ rw (f, promote) (promote-fixed t ds st)
      ]

  mark_completed-fixed : (x : ℕ) (st : InnerState F) → fixed (mark_completed x st) ≡ fixed st
  unfolding mark_completed
  mark_completed-fixed x st = search promote-fixed

  mark_skipped-fixed : (x : ℕ) (st : InnerState F) → fixed (mark_skipped x st) ≡ fixed st
  unfolding mark_skipped
  mark_skipped-fixed x st = search promote-fixed

  cascade-fixed :
      (fuel : ℕ) (stack : List ℕ) (st : InnerState F) (acc : List ℕ) (after : InnerState F)
      (out : List ℕ)
      → cascade fuel stack st acc ≡ some (after, out)
      → fixed after ≡ fixed st
  unfolding cascade
  cascade-fixed fuel [] st acc after out e = let same : after ≡ st = cc in ap fixed same
  cascade-fixed zero (c ∷ stack) st acc after out e = absurd (ground arith)
  cascade-fixed (suc fuel) (c ∷ stack) st acc after out e = elim (Bool-cases (is_open st c)) [
    | inl t ↦
        cascade-fixed fuel (reverse (list_at c st.dependents) ++ stack) (skip_one c st)
          (acc ++ c ∷ []) after out (rw (t, cascade) at e)
    | inr f ↦ cascade-fixed fuel stack st acc after out (rw (f, cascade) at e)
  ]

  mark_failed-fixed :
      (x : ℕ) (st after : InnerState F) (out : List ℕ)
      → mark_failed x st ≡ some (after, out)
      → fixed after ≡ fixed st
  unfolding mark_failed
  mark_failed-fixed x st after out e =
      let stack = reverse (list_at x st.dependents) in
      cascade-fixed (cascade_fuel stack (failing x st)) stack (failing x st) [] after out e

  next_steps-fixed :
      (policy : SchedulingPolicy) (n : ℕ) (res : ResourceSnapshot F) (st after : InnerState F)
      (out : List ℕ)
      → next_steps floats policy n res st ≡ some (after, out)
      → fixed after ≡ fixed st
  unfolding dispatch
  next_steps-fixed policy n res st after out e =
      let (ids, cursor, _, (state, _)) = next_steps-eq-some floats policy n res st after out e in
      sym (ap fixed state)
      ∙ pick_ind floats (λ p. fixed p.inner ≡ fixed st) n ids (start_picking floats res cursor st)
          (λ id p m room fine h. h) refl

  next_steps_total :
      (policy : SchedulingPolicy) (n : ℕ) (res : ResourceSnapshot F) (st : InnerState F)
      → IsNonEmpty st.trial_order
      → AreNumbers st.requirements
      → ltb max_capacity n ≡ false
      → (after : InnerState F) × (out : List ℕ) × (next_steps floats policy n res st
          ≡ some (after, out))
  unfolding next_steps
  next_steps_total policy n res st h numbers room =
      let ((ids, cursor), e) = order_ids_total policy st n st.ready h numbers in
      elim (Option-cases (next_steps floats policy n res st)) [
        | inl nothing ↦ absurd (let clash = rw (room, e, next_steps) at nothing in cc)
        | inr ((after, out), s) ↦ (after, out, s)
      ]

  -- A call asks for no more steps than a vector of ids can have room for.
  abbrev pub has_room : Call F → Bool
  has_room (next policy n res) = not (ltb max_capacity n)
  has_room _ = true

  abbrev Usable : Fixed → Type 0
  Usable (order, requirements) = IsNonEmpty order × AreNumbers requirements

  apply_total :
      (c : Call F) (st : InnerState F)
      → Usable (fixed st)
      → has_room c ≡ true
      → (after : InnerState F) × (apply floats c st ≡ some after) × Usable (fixed after)
  unfolding apply
  apply_total (next policy n res) st h room =
      let (after, out, e) = next_steps_total policy n res st h.0 h.1 (ground arith) in
      (after, rw e, subst Usable (sym (next_steps-fixed policy n res st after out e)) h)
  apply_total (started x) st h room = (st, unfold mark_started in refl, h)
  apply_total (completed x) st h room =
      (mark_completed x st, refl, subst Usable (sym (mark_completed-fixed x st)) h)
  apply_total (failed x) st h room =
      let ((after, out), e) = mark_failed_total x st in
      (after, rw e, subst Usable (sym (mark_failed-fixed x st after out e)) h)
  apply_total (skipped x) st h room =
      (mark_skipped x st, refl, subst Usable (sym (mark_skipped-fixed x st)) h)
  apply_total (prioritise x p) st h room = (set_priority x p st, refl, unfold set_priority in h)

  run_from_total :
      (calls : List (Call F)) (st : InnerState F)
      → Usable (fixed st)
      → all has_room calls ≡ true
      → (after : InnerState F) × (run floats calls st ≡ some after)
  unfolding run
  run_from_total [] st h room = (st, refl)
  run_from_total (c ∷ calls) st h room =
      let (t, e, h') = apply_total c st h (ground arith) in
      rw (e, run) (run_from_total calls t h' (ground arith))

  registered_order :
      (steps : List (PlanStep F)) (st : InnerState F)
      → length st.trial_order ≤ length (register_all steps st).trial_order
  unfolding register_all
  registered_order [] st = omega arith
  registered_order (step ∷ steps) st = ground (
    arith,
    registered_order steps (register step st),
    length-append st.trial_order (step.trial_id ∷ []),
  )

  -- The step asks for a number of cores.
  abbrev pub asks_number : PlanStep F → Bool
  asks_number step = not (is_nan floats step.resource_requirements.peak_cpu_cores)

  put_numbers :
      (k : ℕ) (r : ResourceRequirements F) (m : List (ℕ × ResourceRequirements F))
      → is_nan floats r.peak_cpu_cores ≡ false
      → AreNumbers m
      → AreNumbers (put k r m)
  unfolding requirements_of
  put_numbers k r m h numbers a = elim (Bool-cases (a == k)) [
    | inl t ↦ rw (lookup-put a k r m, t, requirements_of) h
    | inr f ↦ rw (lookup-put a k r m, f, requirements_of) (numbers a)
  ]

  registered_numbers :
      (steps : List (PlanStep F)) (st : InnerState F)
      → all asks_number steps ≡ true
      → AreNumbers st.requirements
      → AreNumbers (register_all steps st).requirements
  unfolding register_all
  registered_numbers [] st h numbers = numbers
  registered_numbers (step ∷ steps) st h numbers =
      registered_numbers steps (register step st) (ground arith)
        (put_numbers step.id step.resource_requirements st.requirements (ground arith) numbers)

  -- On a plan with at least one step, whose steps ask for numbers of cores (0.0 is a number too), any
  -- calls in any order, none for more steps than a vector has room for, return: no call panics, and
  -- every loop ends within the fuel that the model gives it.
  pub run_total :
      (step : PlanStep F) (steps : List (PlanStep F)) (calls : List (Call F))
      → is_nan floats zero_f ≡ false
      → all asks_number (step ∷ steps) ≡ true
      → all has_room calls ≡ true
      → (after : InnerState F) × (run floats calls (initialise (step ∷ steps)) ≡ some after)
  unfolding initialise default requirements_of no_requirements lookup
  run_total step steps calls zero_number numbers room =
      run_from_total calls (initialise (step ∷ steps))
        (
          omega (arith, registered_order steps (register step default)),
          registered_numbers (step ∷ steps) default numbers (λ a. zero_number),
        )
        room
