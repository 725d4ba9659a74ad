-- ===== src/Scheduler/Budget.antt =====
-- The steps that one `next_steps` picks, against the caller's snapshot.
use hyperplane_rs.Prelude.{ℕ, ◌+◌, ◌≤◌, ◌≡◌, refl, ap, true, some, List, [], ◌∷◌, ◌++◌, arith}
use hyperplane_rs.Scheduler.State.{
  Floats, ResourceRequirements, ResourceSnapshot, SchedulingPolicy, InnerState,
}
use hyperplane_rs.Scheduler.Resources.{fits, deduct}
use hyperplane_rs.Scheduler.Policy.{requirements_of}
use hyperplane_rs.Scheduler.Operations.{Picking, dispatch, start_picking, next_steps}
use hyperplane_rs.Scheduler.Dispatch.{pick_ind, taken, next_steps-eq-some}

module _ (floats : Floats) where
  open floats use {F}

  -- What the steps ask for together.
  abbrev pub memory_asked : List (ℕ × ResourceRequirements F) → List ℕ → ℕ
  memory_asked m [] = 0
  memory_asked m (x ∷ xs) = (requirements_of floats m x).peak_memory_mb + memory_asked m xs

  abbrev pub storage_asked : List (ℕ × ResourceRequirements F) → List ℕ → ℕ
  storage_asked m [] = 0
  storage_asked m (x ∷ xs) = (requirements_of floats m x).peak_storage_gb + storage_asked m xs

  memory_asked-snoc :
      (m : List (ℕ × ResourceRequirements F)) (xs : List ℕ) (x : ℕ)
      → memory_asked m (xs ++ x ∷ [])
        ≡ memory_asked m xs + (requirements_of floats m x).peak_memory_mb
  memory_asked-snoc m [] x = omega arith
  memory_asked-snoc m (y ∷ xs) x = omega (arith, memory_asked-snoc m xs x)

  storage_asked-snoc :
      (m : List (ℕ × ResourceRequirements F)) (xs : List ℕ) (x : ℕ)
      → storage_asked m (xs ++ x ∷ [])
        ≡ storage_asked m xs + (requirements_of floats m x).peak_storage_gb
  storage_asked-snoc m [] x = omega arith
  storage_asked-snoc m (y ∷ xs) x = omega (arith, storage_asked-snoc m xs x)

  fits-le :
      (req : ResourceRequirements F) (snap : ResourceSnapshot F)
      → fits floats req snap ≡ true
      → (req.peak_memory_mb ≤ snap.memory_mb_free) × (req.peak_storage_gb ≤ snap.storage_gb_free)
  unfolding fits
  fits-le req snap h = ground arith

  record Balanced (resources : ResourceSnapshot F) (st : InnerState F) (p : Picking floats)
      : Type 0 where
    same : p.inner.requirements ≡ st.requirements
    memory :
        memory_asked st.requirements p.picked + p.remaining.memory_mb_free
        ≡ resources.memory_mb_free
    storage :
        storage_asked st.requirements p.picked + p.remaining.storage_gb_free
        ≡ resources.storage_gb_free

  taken-Balanced :
      (resources : ResourceSnapshot F) (st : InnerState F) (id : ℕ) (p : Picking floats)
      → fits floats (requirements_of floats p.inner.requirements id) p.remaining ≡ true
      → Balanced resources st p
      → Balanced resources st (taken floats id p)
  unfolding dispatch deduct
  taken-Balanced resources st id p fine b =
      let small = fits-le (requirements_of floats p.inner.requirements id) p.remaining fine in
      let same = ap (λ m. requirements_of floats m id) b.same in
      record {
        same = b.same;
        memory = omega (
          arith,
          memory_asked-snoc st.requirements p.picked id,
          small,
          ap (λ (r : ResourceRequirements F). r.peak_memory_mb) same,
          b.memory,
        );
        storage = omega (
          arith,
          storage_asked-snoc st.requirements p.picked id,
          small,
          ap (λ (r : ResourceRequirements F). r.peak_storage_gb) same,
          b.storage,
        );
      }

  -- The steps that a successful `next_steps` picks ask together for no more memory and no more
  -- storage than the caller's snapshot has free, under every policy.
  pub next_steps-le_budget :
      (policy : SchedulingPolicy) (max_count : ℕ) (resources : ResourceSnapshot F)
      (st after : InnerState F) (out : List ℕ)
      → next_steps floats policy max_count resources st ≡ some (after, out)
      → (memory_asked st.requirements out ≤ resources.memory_mb_free)
        × (storage_asked st.requirements out ≤ resources.storage_gb_free)
  next_steps-le_budget policy max_count resources st after out e =
      let (candidates, cursor, ordered, (state, picks)) =
        next_steps-eq-some floats policy max_count resources st after out e in
      let b =
        pick_ind floats (Balanced resources st) max_count candidates
          (start_picking floats resources cursor st)
          (λ id p m room fine b. taken-Balanced resources st id p fine b)
          (record { same = refl; memory = omega arith; storage = omega arith }) in
      rw (← picks) (omega (arith, b.memory), omega (arith, b.storage))
