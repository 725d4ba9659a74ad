-- ===== src/Recovery/Cleanup.antt =====
-- `cleanup` of one execution, as the queries of it and of the others see it.
use hyperplane_rs.Prelude.{
  ℕ, ◌≡◌, ◌≢◌, refl, ap, ◌==◌, none, List, [], ◌∷◌, Bool-cases, inl, inr, arith, map,
}
use hyperplane_rs.Prelude.IdSet.{lookup}
use hyperplane_rs.Recovery.{
  JournalEvent, InMemoryStateManager, default, events_of, retain_others, remove_key, results_of,
  recover, get_trial_results, cleanup,
}

events_of-retain_others : (x : ℕ) (es : List JournalEvent) → events_of x (retain_others x es) ≡ []
unfolding events_of retain_others
events_of-retain_others x [] = refl
events_of-retain_others x (e ∷ es) = elim (Bool-cases (e.execution_id == x)) [
  | inl t ↦ rw (t, events_of-retain_others x es) refl
  | inr f ↦ rw (f, f, events_of-retain_others x es) refl
]

events_of-others :
    (x y : ℕ) → y ≢ x → (es : List JournalEvent) → events_of y (retain_others x es) ≡ events_of y es
unfolding events_of retain_others
events_of-others x y h [] = refl
events_of-others x y h (e ∷ es) = ground (arith, events_of-others x y h es)

module _ {V : Type 0} where
  lookup-remove_key : (k : ℕ) (m : List (ℕ × V)) → lookup k (remove_key k m) ≡ none
  unfolding lookup remove_key
  lookup-remove_key k [] = refl
  lookup-remove_key k ((j, v) ∷ m) = ground (arith, lookup-remove_key k m)

  lookup-others : (k j : ℕ) → j ≢ k → (m : List (ℕ × V)) → lookup j (remove_key k m) ≡ lookup j m
  unfolding lookup remove_key
  lookup-others k j h [] = refl
  lookup-others k j h ((i, v) ∷ m) = ground (arith, lookup-others k j h m)

module _ {R : Type 0} where
  results_of-remove_key : (k : ℕ) (m : List (ℕ × List (ℕ × R))) → results_of k (remove_key k m) ≡ []
  unfolding results_of
  results_of-remove_key k m = rw (lookup-remove_key k m, results_of) refl

  results_of-others :
      (k j : ℕ)
      → j ≢ k
      → (m : List (ℕ × List (ℕ × R))) → results_of j (remove_key k m) ≡ results_of j m
  unfolding results_of
  results_of-others k j h m = rw (lookup-others k j h m, results_of) refl

module _ {C R W : Type 0} where
  -- After the cleanup of an execution, `recover` reports nothing for it and no trial result of it is
  -- left, while both answer for every other execution as before.
  pub cleanup-queries :
      (m : InMemoryStateManager C R W) (x y : ℕ)
      → y ≢ x
      → (recover x (cleanup x m) ≡ default)
        × (get_trial_results x (cleanup x m) ≡ [])
        × (recover y (cleanup x m) ≡ recover y m)
        × (get_trial_results y (cleanup x m) ≡ get_trial_results y m)
  unfolding recover cleanup get_trial_results
  cleanup-queries m x y h = (
    rw (events_of-retain_others x m.events) refl,
    ap (λ rs. map (λ kv. kv.1) rs) (results_of-remove_key x m.trial_results),
    rw (events_of-others x y h m.events) refl,
    ap (λ rs. map (λ kv. kv.1) rs) (results_of-others x y h m.trial_results),
  )
