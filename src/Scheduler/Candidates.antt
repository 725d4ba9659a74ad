-- ===== src/Scheduler/Candidates.antt =====
-- Which steps the order of a policy has.
use Prim.Native.Nat.{Ordering, compare}
use hyperplane_rs.Prelude.{
  ℕ, zero, suc, ◌+◌, ◌≡◌, ◌⊎◌, inl, inr, refl, Bool, true, false, ◌||◌, ◌&&◌, Option, some, List,
  [], ◌∷◌, ◌++◌, length, ltb, ◌==◌, if◌then◌else◌, Bool-cases, Option-cases, ◌%◌, get_elem?, arith,
}
use hyperplane_rs.Prelude.IdSet.{mem, mem-append, mem-reverse}
use hyperplane_rs.Scheduler.State.{
  Floats, SchedulingPolicy, fifo, priority, fair, resource_aware, InnerState,
}
use hyperplane_rs.Scheduler.Policy.{
  insert_by, sort_by, same_trial, trial_of, Groups, push_group, group_ids, sort_groups, pop,
  pop_group, rotate, rotation_fuel, at_least_one, rotated_ids, fair_ids, order_ids, by_priority,
  by_ask,
}

mem-insert_by :
    (cmp : ℕ → ℕ → Ordering) (j x : ℕ) (xs : List ℕ)
    → mem j (insert_by cmp x xs) ≡ (if j == x then true else mem j xs)
unfolding mem insert_by
mem-insert_by cmp j x [] = refl
mem-insert_by cmp j x (y ∷ ys) = ground (arith, mem-insert_by cmp j x ys)

mem-sort_by : (cmp : ℕ → ℕ → Ordering) (j : ℕ) (xs : List ℕ) → mem j (sort_by cmp xs) ≡ mem j xs
unfolding mem sort_by
mem-sort_by cmp j [] = refl
mem-sort_by cmp j (x ∷ xs) =
    ground (arith, mem-insert_by cmp j x (sort_by cmp xs), mem-sort_by cmp j xs)

-- The step is in some group.
abbrev grouped : ℕ → Groups → Bool
grouped j [] = false
grouped j ((t, grp) ∷ groups) = mem j grp || grouped j groups

grouped-push_group :
    (j : ℕ) (t : Option ℕ) (sid : ℕ) (groups : Groups)
    → grouped j (push_group t sid groups) ≡ true
    → (j ≡ sid) ⊎ (grouped j groups ≡ true)
unfolding push_group mem
grouped-push_group j t sid [] h = ground arith
grouped-push_group j t sid ((u, grp) ∷ groups) h = elim (Bool-cases (same_trial u t)) [
  | inl e ↦ ground (arith, mem-append j grp (sid ∷ []))
  | inr n ↦ ground (arith, grouped-push_group j t sid groups)
]

grouped-group_ids :
    (j : ℕ) (m : List (ℕ × Option ℕ)) (ids : List ℕ) (groups : Groups)
    → grouped j (group_ids m ids groups) ≡ true
    → (mem j ids ≡ true) ⊎ (grouped j groups ≡ true)
unfolding group_ids mem
grouped-group_ids j m [] groups h = inr h
grouped-group_ids j m (sid ∷ ids) groups h = ground (
  arith,
  grouped-group_ids j m ids (push_group (trial_of m sid) sid groups),
  grouped-push_group j (trial_of m sid) sid groups,
)

grouped-sort_groups : (j : ℕ) (groups : Groups) → grouped j (sort_groups groups) ≡ grouped j groups
unfolding sort_groups
grouped-sort_groups j [] = refl
grouped-sort_groups j ((t, grp) ∷ groups) =
    rw
      (mem-reverse j (sort_by compare grp), mem-sort_by compare j grp, grouped-sort_groups j groups)

pop-append : (l : List ℕ) (x : ℕ) (r : List ℕ) → pop l ≡ some (x, r) → l ≡ r ++ x ∷ []
unfolding pop
pop-append [] x r e = absurd (ground arith)
pop-append (y ∷ []) x r e = ground arith
pop-append (y ∷ z ∷ l) x r e = elim (Option-cases (pop (z ∷ l))) [
  | inl n ↦ absurd (ground arith)
  | inr ((a, q), s) ↦ ground (arith, pop-append (z ∷ l) a q s)
]

mem-pop :
    (j : ℕ) (l : List ℕ) (x : ℕ) (r : List ℕ) → pop l ≡ some (x, r) → mem j l ≡ mem j r || j == x
unfolding mem
mem-pop j l x r e = rw (pop-append l x r e) (ground (arith, mem-append j r (x ∷ [])))

grouped-pop_group :
    (j : ℕ) (key : Option ℕ) (groups : Groups) (x : ℕ) (rest : Groups)
    → pop_group key groups ≡ some (x, rest)
    → grouped j groups ≡ grouped j rest || j == x
unfolding pop_group
grouped-pop_group j key [] x rest e = absurd (ground arith)
grouped-pop_group j key ((t, grp) ∷ groups) x rest e = elim (Bool-cases (same_trial t key)) [
  | inl here ↦ elim (Option-cases (pop grp)) [
    | inl n ↦ absurd (ground arith)
    | inr ((a, q), s) ↦ ground (arith, mem-pop j grp a q s)
  ]
  | inr there ↦ elim (Option-cases (pop_group key groups)) [
    | inl n ↦ absurd (ground arith)
    | inr ((a, q), s) ↦ ground (arith, grouped-pop_group j key groups a q s)
  ]
]

-- The rotation gives only steps of the groups.
mem-rotate :
    (j fuel : ℕ) (order : List (Option ℕ)) (n total cursor : ℕ) (groups : Groups) (rotated : List ℕ)
    (empty_rounds : ℕ) (out : List ℕ)
    → rotate fuel order n total cursor groups rotated empty_rounds ≡ some out
    → mem j out ≡ true
    → (mem j rotated || grouped j groups) ≡ true
unfolding rotate mem
mem-rotate j zero order n total cursor groups rotated empty_rounds out e m = absurd (ground arith)
mem-rotate j (suc fuel) order n total cursor groups rotated empty_rounds out e m =
    elim (Bool-cases (ltb (length rotated) total && ltb empty_rounds n)) [
      | inr stop ↦ ground arith
      | inl more ↦ elim (Option-cases (get_elem? order cursor)) [
        | inl panic ↦ absurd (ground arith)
        | inr (key, k) ↦ elim (Option-cases (pop_group key groups)) [
          | inl n' ↦
              mem-rotate j fuel order n total ((cursor + 1) % n) groups rotated (empty_rounds + 1)
                out (rw (more, k, n', rotate) at e) m
          | inr ((sid, rest), s) ↦ ground (
            arith,
            mem-rotate j fuel order n total ((cursor + 1) % n) rest (rotated ++ sid ∷ []) 0 out
                (rw (more, k, s, rotate) at e) m,
            grouped-pop_group j key groups sid rest s,
            mem-append j rotated (sid ∷ []),
          )
        ]
      ]
    ]

module _ (floats : Floats) where
  open floats use {F}

  mem-rotated_ids :
      (j : ℕ) (st : InnerState F) (n : ℕ) (ids out : List ℕ)
      → rotated_ids floats st n ids ≡ some out
      → mem j out ≡ true
      → mem j ids ≡ true
  unfolding rotated_ids mem
  mem-rotated_ids j st n ids out e m =
      let groups = group_ids st.trial_ids ids [] in
      ground (
        arith,
        mem-rotate j (rotation_fuel n (length ids)) st.trial_order n (length ids)
            (st.fair_cursor % n) (sort_groups groups) [] 0 out e m,
        grouped-sort_groups j groups,
        grouped-group_ids j st.trial_ids ids [],
      )

  mem-fair_ids :
      (j : ℕ) (st : InnerState F) (max_count : ℕ) (ids out : List ℕ) (cursor : ℕ)
      → fair_ids floats st max_count ids ≡ some (out, cursor)
      → mem j out ≡ true
      → mem j ids ≡ true
  unfolding fair_ids
  mem-fair_ids j st max_count ids out cursor e m =
      let n = at_least_one (length st.trial_order) in
      elim (Option-cases (rotated_ids floats st n ids)) [
        | inl none' ↦ absurd (ground arith)
        | inr (rotated, s) ↦ ground (arith, mem-rotated_ids j st n ids rotated s)
      ]

  pub mem-order_ids :
      (policy : SchedulingPolicy) (j : ℕ) (st : InnerState F) (max_count : ℕ) (ids out : List ℕ)
      (cursor : ℕ)
      → order_ids floats policy st max_count ids ≡ some (out, cursor)
      → mem j out ≡ true
      → mem j ids ≡ true
  unfolding order_ids
  mem-order_ids fifo j st max_count ids out cursor e m = ground arith
  mem-order_ids priority j st max_count ids out cursor e m =
      ground (arith, mem-sort_by (by_priority st.priorities) j ids)
  mem-order_ids resource_aware j st max_count ids out cursor e m =
      ground (arith, mem-sort_by (by_ask floats st.requirements) j ids)
  mem-order_ids fair j st max_count ids out cursor e m =
      mem-fair_ids j st max_count ids out cursor e m
