-- ===== src/Scheduler/Resources.antt =====
-- `fits` and `deduct`: admission of one step against a snapshot of the free resources.
use hyperplane_rs.Prelude.{ℕ, ◌-◌, Bool, true, false, none, some, List, [], ◌∷◌, ltb, if◌then◌else◌}
use hyperplane_rs.Prelude.IdSet.{lookup, put}
use hyperplane_rs.Scheduler.State.{Floats, ResourceRequirements, ResourceSnapshot}

unfoldable pub get_or_zero : ℕ → List (ℕ × ℕ) → ℕ
get_or_zero k m = elim (lookup k m) [ none ↦ 0 | some v ↦ v ]

unfoldable pub custom_fits : List (ℕ × ℕ) → List (ℕ × ℕ) → Bool
unfolding get_or_zero
custom_fits free [] = true
custom_fits free ((k, need) ∷ m) =
    if ltb (get_or_zero k free) need then false else custom_fits free m

-- `entry(k).or_insert(0)`, then `saturating_sub`.
unfoldable pub custom_deduct : List (ℕ × ℕ) → List (ℕ × ℕ) → List (ℕ × ℕ)
unfolding get_or_zero
custom_deduct free [] = free
custom_deduct free ((k, need) ∷ m) = custom_deduct (put k (get_or_zero k free - need) free) m

module _ (floats : Floats) where
  open floats use {F, gt, sub_to_zero, zero_f}

  unfoldable pub fits : ResourceRequirements F → ResourceSnapshot F → Bool
  unfolding custom_fits
  fits req snap =
      if gt req.peak_cpu_cores snap.cpu_cores_free
      then false
      else if ltb snap.memory_mb_free req.peak_memory_mb
      then false
      else if ltb snap.storage_gb_free req.peak_storage_gb
      then false
      else if gt req.peak_network_gbps snap.network_gbps_free
      then false
      else custom_fits snap.custom_free req.custom

  unfoldable pub deduct : ResourceSnapshot F → ResourceRequirements F → ResourceSnapshot F
  unfolding custom_deduct
  deduct snap req = record {
    cpu_cores_free = sub_to_zero snap.cpu_cores_free req.peak_cpu_cores;
    memory_mb_free = snap.memory_mb_free - req.peak_memory_mb;
    storage_gb_free = snap.storage_gb_free - req.peak_storage_gb;
    network_gbps_free = sub_to_zero snap.network_gbps_free req.peak_network_gbps;
    custom_free = custom_deduct snap.custom_free req.custom;
  }

  -- `ResourceRequirements::default()`.
  unfoldable pub no_requirements : ResourceRequirements F
  no_requirements = record {
    peak_cpu_cores = zero_f;
    peak_memory_mb = 0;
    peak_storage_gb = 0;
    peak_network_gbps = zero_f;
    custom = [];
  }
