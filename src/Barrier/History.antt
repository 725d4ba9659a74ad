-- ===== src/Barrier/History.antt =====
-- What the history of a barrier says of its state and of a look at it.
use hyperplane_rs.Prelude.{
  ℕ, ◌≡◌, refl, inl, inr, Bool, true, false, not, ◌&&◌, ◌||◌, ◌==◌, Option, none, some, List, [],
  ◌∷◌, Bool-cases, arith,
}
use hyperplane_rs.Prelude.IdSet.{mem, mem-insert, mem-remove}
use hyperplane_rs.Barrier.{
  BarrierState, pending, satisfied, failed, timed_out, Inner, Event, mark, fail_with, release_at,
  expired, is_empty, is_pending, new, move_dependency, settle, mark_dependency_satisfied, fail,
  release, expire, apply, run, look, answer, ok, Waited,
}

-- Whether a history reports the step, and whether it has a release.
abbrev pub marked : ℕ → List Event → Bool
marked s [] = false
marked s (mark now step ∷ history) = (s == step) || marked s history
marked s (_ ∷ history) = marked s history

abbrev pub released : List Event → Bool
released [] = false
released (release_at now ∷ history) = true
released (_ ∷ history) = released history

is_empty_of_mem : (xs : List ℕ) → ((s : ℕ) → mem s xs ≡ false) → is_empty xs ≡ true
unfolding is_empty mem
is_empty_of_mem [] h = refl
is_empty_of_mem (x ∷ xs) h = ground (arith, h x)

mem_of_empty : (xs : List ℕ) (s : ℕ) → is_empty xs ≡ true → mem s xs ≡ false
unfolding is_empty mem
mem_of_empty [] s h = refl
mem_of_empty (x ∷ xs) s h = ground arith

-- The invariant of a history `hs` from the dependencies `deps`.
pub record Inv (deps : List ℕ) (hs : List Event) (st : Inner) : Type 0 where
  pub waits : (s : ℕ) → mem s st.pending_deps ≡ (mem s deps && not (marked s hs))
  pub reported : (s : ℕ) → mem s st.satisfied_deps ≡ (mem s deps && marked s hs)
  pub not_early : st.state ≡ satisfied → released hs ≡ false → is_empty st.pending_deps ≡ true
  pub still_waits : is_pending st.state ≡ true → is_empty st.pending_deps ≡ false

new-Inv : (deps : List ℕ) → Inv deps [] (new deps)
unfolding new is_pending is_empty mem
new-Inv [] = record {
  waits = λ s. refl;
  reported = λ s. refl;
  not_early = λ e f. refl;
  still_waits = λ e. ground arith;
}
new-Inv (d ∷ deps) = record {
  waits = λ s. ground arith;
  reported = λ s. ground arith;
  not_early = λ e f. ground arith;
  still_waits = λ e. refl;
}

satisfied_not_pending : {b : Bool} → is_pending satisfied ≡ true → b ≡ false
unfolding is_pending
satisfied_not_pending e = ground arith

-- The invariant after a report, without the claim that a pending barrier waits for something.
record Moved (deps : List ℕ) (hs : List Event) (st : Inner) : Type 0 where
  waits : (s : ℕ) → mem s st.pending_deps ≡ (mem s deps && not (marked s hs))
  reported : (s : ℕ) → mem s st.satisfied_deps ≡ (mem s deps && marked s hs)
  not_early : st.state ≡ satisfied → released hs ≡ false → is_empty st.pending_deps ≡ true

move-Moved :
    (deps : List ℕ) (hs : List Event) (now x : ℕ) (st : Inner)
    → Inv deps hs st
    → Moved deps (mark now x ∷ hs) (move_dependency x st)
unfolding move_dependency
move-Moved deps hs now x st inv = elim (Bool-cases (mem x st.pending_deps)) [
  | inl t ↦ rw t (record {
    waits = λ s. ground (arith, mem-remove s x st.pending_deps, inv.waits s);
    reported = λ s.
        ground (arith, mem-insert s x st.satisfied_deps, inv.waits s, inv.reported s, inv.waits x);
    not_early = λ e f. ground (arith, inv.not_early e f, mem_of_empty st.pending_deps x);
  })
  | inr f ↦ rw f (record {
    waits = λ s. ground (arith, inv.waits s);
    reported = λ s. ground (arith, inv.waits s, inv.reported s);
    not_early = inv.not_early;
  })
]

not_satisfied : timed_out ≡ satisfied → ⊥
not_satisfied e = cc

failed_not_satisfied : failed ≡ satisfied → ⊥
failed_not_satisfied e = cc

settle-Inv :
    (deps : List ℕ) (hs : List Event) (now : ℕ) (st : Inner)
    → Moved deps hs st
    → Inv deps hs (settle now st)
unfolding settle
settle-Inv deps hs now st inv =
    elim (Bool-cases (is_pending st.state && is_empty st.pending_deps)) [
      | inl t ↦ rw t (record {
        waits = inv.waits;
        reported = inv.reported;
        not_early = λ e f. ground arith;
        still_waits = λ e. satisfied_not_pending e;
      })
      | inr f ↦ rw f (record {
        waits = inv.waits;
        reported = inv.reported;
        not_early = inv.not_early;
        still_waits = λ e. ground arith;
      })
    ]

expire-Inv :
    (deps : List ℕ) (hs : List Event) (st : Inner)
    → Inv deps hs st
    → Inv deps (expired ∷ hs) (expire st)
unfolding expire is_pending
expire-Inv deps hs st inv = elim (Bool-cases (is_pending st.state)) [
  | inl t ↦ rw t (record {
    waits = inv.waits;
    reported = inv.reported;
    not_early = λ e f. absurd (not_satisfied e);
    still_waits = λ e. ground arith;
  })
  | inr f ↦ rw f (record {
    waits = inv.waits;
    reported = inv.reported;
    not_early = inv.not_early;
    still_waits = λ e. ground arith;
  })
]

apply-Inv :
    (deps : List ℕ) (hs : List Event) (e : Event) (st : Inner)
    → Inv deps hs st
    → Inv deps (e ∷ hs) (apply e st)
unfolding apply mark_dependency_satisfied fail release is_pending
apply-Inv deps hs (mark now x) st inv =
    settle-Inv deps (mark now x ∷ hs) now (move_dependency x st) (move-Moved deps hs now x st inv)
apply-Inv deps hs (fail_with reason) st inv = record {
  waits = inv.waits;
  reported = inv.reported;
  not_early = λ e f. absurd (failed_not_satisfied e);
  still_waits = λ e. ground arith;
}
apply-Inv deps hs (release_at now) st inv = record {
  waits = inv.waits;
  reported = inv.reported;
  not_early = λ e f. ground arith;
  still_waits = λ e. ground arith;
}
apply-Inv deps hs expired st inv = expire-Inv deps hs st inv

run-Inv : (deps : List ℕ) (hs : List Event) → Inv deps hs (run deps hs)
unfolding run
run-Inv deps [] = new-Inv deps
run-Inv deps (e ∷ hs) = apply-Inv deps hs e (run deps hs) (run-Inv deps hs)

-- After any history of reports, failures, releases and expired waits, the pending dependencies are
-- those of the barrier that no report named, and the satisfied ones those that a report named,
-- whatever the barrier's state is.
pub run-deps :
    (deps : List ℕ) (hs : List Event) (s : ℕ)
    → (mem s (run deps hs).pending_deps ≡ (mem s deps && not (marked s hs)))
      × (mem s (run deps hs).satisfied_deps ≡ (mem s deps && marked s hs))
run-deps deps hs s = ((run-Inv deps hs).waits s, (run-Inv deps hs).reported s)

await_answers :
    (b : BarrierState) (reason : Option (List ℕ))
    → is_pending b ≡ false
    → (w : Waited) × (answer b reason ≡ some w)
unfolding answer is_pending
await_answers satisfied reason e = (_, refl)
await_answers failed reason e = (_, refl)
await_answers timed_out reason e = (_, refl)
await_answers pending reason e = ground arith

answer-ok :
    (b : BarrierState) (reason : Option (List ℕ)) → answer b reason ≡ some ok → b ≡ satisfied
unfolding answer
answer-ok satisfied reason e = refl
answer-ok failed reason e = cc
answer-ok timed_out reason e = cc
answer-ok pending reason e = cc

-- Without a release, a look finds the barrier satisfied only when every dependency has been reported.
pub look_not_early :
    (deps : List ℕ) (hs : List Event)
    → released hs ≡ false
    → look (run deps hs) ≡ some ok
    → (s : ℕ) → mem s deps ≡ true
    → marked s hs ≡ true
unfolding look
look_not_early deps hs unreleased e s m =
    let inv = run-Inv deps hs in
    let empty =
      inv.not_early (answer-ok (run deps hs).state (run deps hs).failed_reason e) unreleased in
    ground (arith, inv.waits s, mem_of_empty (run deps hs).pending_deps s empty)

-- Once every dependency has been reported the barrier is not pending.
pub run_not_pending :
    (deps : List ℕ) (hs : List Event)
    → ((s : ℕ) → mem s deps ≡ true → marked s hs ≡ true)
    → is_pending (run deps hs).state ≡ false
run_not_pending deps hs all_marked =
    let inv = run-Inv deps hs in
    let empty =
      is_empty_of_mem (run deps hs).pending_deps (λ s. ground (arith, inv.waits s, all_marked s)) in
    ground (arith, inv.still_waits)

pub look_answers :
    (inner : Inner) → is_pending inner.state ≡ false → (w : Waited) × (look inner ≡ some w)
unfolding look
look_answers inner = await_answers inner.state inner.failed_reason

answer-none :
    (b : BarrierState) (reason : Option (List ℕ)) → answer b reason ≡ none → is_pending b ≡ true
unfolding answer is_pending
answer-none satisfied reason e = cc
answer-none failed reason e = cc
answer-none timed_out reason e = cc
answer-none pending reason e = refl

pub look-none : (inner : Inner) → look inner ≡ none → is_pending inner.state ≡ true
unfolding look
look-none inner = answer-none inner.state inner.failed_reason
