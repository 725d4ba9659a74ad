-- ===== src/Barrier/Wakeup.antt =====
-- A waiter of `await_satisfied` between the calls of other tasks.
use hyperplane_rs.Prelude.{
  ℕ, ◌≡◌, refl, sym, ap, ◌∙◌, inl, inr, Bool, true, false, not, ◌&&◌, some, List, [], ◌∷◌,
  Bool-cases, Option-cases, ◌⊎◌, arith,
}
use hyperplane_rs.Prelude.IdSet.{mem}
use hyperplane_rs.Barrier.{
  Inner, Event, mark, fail_with, release_at, expired, is_pending, apply, run, look, Waited, ok,
  Waiter, looking, seen_pending, enlisted, answered, await_satisfied, notify_waiters, Turn, call,
  step, run_turns,
}
use hyperplane_rs.Barrier.History.{
  marked, released, look_not_early, run_not_pending, look_answers, look-none,
}

abbrev pub calls : List Turn → List Event
calls [] = []
calls (call e ∷ turns) = e ∷ calls turns
calls (step ∷ turns) = calls turns

abbrev pub has_seen : Waiter → Bool
has_seen seen_pending = true
has_seen _ = false

-- No call falls between a look that finds the barrier pending and the `notified` that follows it.
abbrev pub unraced : List ℕ → List Turn → Bool
unraced deps [] = true
unraced deps (call e ∷ turns) = not (has_seen (run_turns deps turns).waiter) && unraced deps turns
unraced deps (step ∷ turns) = unraced deps turns

run_turns-inner :
    (deps : List ℕ) (turns : List Turn) → (run_turns deps turns).inner ≡ run deps (calls turns)
unfolding run_turns run
run_turns-inner deps [] = refl
run_turns-inner deps (call e ∷ turns) = ap (λ i. apply e i) (run_turns-inner deps turns)
run_turns-inner deps (step ∷ turns) = run_turns-inner deps turns

abbrev is_parked : Waiter → Bool
is_parked looking = false
is_parked seen_pending = true
is_parked enlisted = true
is_parked (answered w) = false

notified_not_parked : (w : Waiter) → has_seen w ≡ false → is_parked (notify_waiters w) ≡ false
unfolding notify_waiters
notified_not_parked looking h = refl
notified_not_parked seen_pending h = cc
notified_not_parked enlisted h = refl
notified_not_parked (answered w) h = refl

step_parked :
    (inner : Inner) (w : Waiter)
    → (is_parked w ≡ true → is_pending inner.state ≡ true)
    → is_parked (await_satisfied inner w) ≡ true
    → is_pending inner.state ≡ true
unfolding await_satisfied
step_parked inner looking h p = elim (Option-cases (look inner)) [
  | inl nothing ↦ look-none inner nothing
  | inr (w, found) ↦ let clash = rw (found, await_satisfied) at p in cc
]
step_parked inner seen_pending h p = h refl
step_parked inner enlisted h p = h refl
step_parked inner (answered w) h p = cc

-- Without such a race, a waiter is parked only on a barrier that is pending.
parked_pending :
    (deps : List ℕ) (turns : List Turn)
    → unraced deps turns ≡ true
    → is_parked (run_turns deps turns).waiter ≡ true
    → is_pending (run_turns deps turns).inner.state ≡ true
unfolding run_turns
parked_pending deps [] u p = cc
parked_pending deps (call e ∷ turns) u p =
    let woken = notified_not_parked (run_turns deps turns).waiter (ground arith) in ground arith
parked_pending deps (step ∷ turns) u p =
    step_parked (run_turns deps turns).inner (run_turns deps turns).waiter
      (parked_pending deps turns u) p

unparked_answers :
    (inner : Inner) (w : Waiter)
    → is_parked w ≡ false
    → is_pending inner.state ≡ false
    → (a : Waited) × (await_satisfied inner w ≡ answered a)
unfolding await_satisfied
unparked_answers inner looking p settled =
    let (a, found) = look_answers inner settled in (a, rw (found, await_satisfied) refl)
unparked_answers inner seen_pending p settled = cc
unparked_answers inner enlisted p settled = cc
unparked_answers inner (answered a) p settled = (a, refl)

-- Once every dependency has been reported, the next step of a waiter returns an answer, whatever else
-- was called in whatever order, unless some call fell between a look of the waiter that found the
-- barrier pending and the `notified` that followed it.
pub await_not_stuck :
    (deps : List ℕ) (turns : List Turn)
    → unraced deps turns ≡ true
    → ((s : ℕ) → mem s deps ≡ true → marked s (calls turns) ≡ true)
    → (a : Waited) × ((run_turns deps (step ∷ turns)).waiter ≡ answered a)
unfolding run_turns
await_not_stuck deps turns u all_marked =
    let w = run_turns deps turns in
    let settled : is_pending w.inner.state ≡ false =
      ap (λ (i : Inner). is_pending i.state) (run_turns-inner deps turns)
      ∙ run_not_pending deps (calls turns) all_marked in
    elim (Bool-cases (is_parked w.waiter)) [
      | inl parked ↦ absurd (let waits = parked_pending deps turns u parked in ground arith)
      | inr free ↦ unparked_answers w.inner w.waiter free settled
    ]

answered_before :
    (inner : Inner) (w : Waiter)
    → await_satisfied inner w ≡ answered ok
    → (w ≡ answered ok) ⊎ (look inner ≡ some ok)
unfolding await_satisfied
answered_before inner looking h = elim (Option-cases (look inner)) [
  | inl nothing ↦ let clash = rw (nothing, await_satisfied) at h in cc
  | inr (a, found) ↦ inr (let same = rw (found, await_satisfied) at h in cc)
]
answered_before inner seen_pending h = cc
answered_before inner enlisted h = cc
answered_before inner (answered a) h = inl h

notified_answered : (w : Waiter) → notify_waiters w ≡ answered ok → w ≡ answered ok
unfolding notify_waiters
notified_answered looking h = cc
notified_answered seen_pending h = cc
notified_answered enlisted h = cc
notified_answered (answered a) h = h

marked_later : (e : Event) (s : ℕ) (hs : List Event) → marked s hs ≡ true → marked s (e ∷ hs) ≡ true
marked_later (mark now x) s hs h = ground arith
marked_later (fail_with reason) s hs h = h
marked_later (release_at now) s hs h = h
marked_later expired s hs h = h

released_before : (e : Event) (hs : List Event) → released (e ∷ hs) ≡ false → released hs ≡ false
released_before (mark now x) hs h = h
released_before (fail_with reason) hs h = h
released_before (release_at now) hs h = cc
released_before expired hs h = h

-- Without a release, a waiter is let through only when every dependency has been reported.
pub await_not_early :
    (deps : List ℕ) (turns : List Turn)
    → released (calls turns) ≡ false
    → (run_turns deps turns).waiter ≡ answered ok
    → (s : ℕ) → mem s deps ≡ true
    → marked s (calls turns) ≡ true
unfolding run_turns
await_not_early deps [] unreleased h s m = cc
await_not_early deps (call e ∷ turns) unreleased h s m = marked_later e s (calls turns) (
    await_not_early deps turns (released_before e (calls turns) unreleased)
      (notified_answered (run_turns deps turns).waiter h) s m)
await_not_early deps (step ∷ turns) unreleased h s m =
    let w = run_turns deps turns in
    elim (answered_before w.inner w.waiter h) [
      | inl before ↦ await_not_early deps turns unreleased before s m
      | inr found ↦
          look_not_early deps (calls turns) unreleased
            (sym (ap look (run_turns-inner deps turns)) ∙ found) s m
    ]
