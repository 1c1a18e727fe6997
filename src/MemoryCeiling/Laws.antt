-- ===== src/MemoryCeiling/Laws.antt =====
-- The ceiling is always in range, and it is called in effect only when it is (src/memory_ceiling.rs).
use studio_worker.Base.{
  ℕ, ◌≤◌, true, ◌&&◌, ◌≡◌, ◌≢◌, refl, some, leb, arith, ◌↔◌, ◌⊎◌, inl, inr, Bool-cases,
}
use studio_worker.Admission.{Limit, unlimited}
use studio_worker.MemoryCeiling.{ceiling, or_default, is_worker_scope, Effective, in_effect, assess}

-- Whatever the config says, the ceiling used is from 4 to 1024 GB: the configured one if that is in
-- range, and otherwise the default of 32 GB.
or_default_lem :
    (max_gb : ℕ)
    → (4 ≤ (or_default max_gb).max_gb)
      × ((or_default max_gb).max_gb ≤ 1024)
      × (((4 ≤ max_gb) × (max_gb ≤ 1024) × ((or_default max_gb).max_gb ≡ max_gb))
          ⊎ ((¬ ((4 ≤ max_gb) × (max_gb ≤ 1024))) × ((or_default max_gb).max_gb ≡ 32)))
unfolding or_default ceiling
or_default_lem max_gb = elim (Bool-cases (leb 4 max_gb && leb max_gb 1024)) [
  | inl e ↦
      let q : (or_default max_gb).max_gb ≡ max_gb = rw (or_default, e) refl in ground (arith, e, q)
  | inr e ↦
      let q : (or_default max_gb).max_gb ≡ 32 = rw (or_default, e) refl in ground (arith, e, q)
]

-- The ceiling is said to be in effect exactly if the process is in the worker's scope and the scope has
-- a limit in bytes, which is then the one named.
assess-in_effect_iff :
    (e : Effective) (max : Limit)
    → (assess (some e) ≡ in_effect e.cgroup max e.high)
      ↔ ((is_worker_scope e.cgroup ≡ true) × (e.max ≡ some max) × (max ≢ unlimited))
unfolding assess
assess-in_effect_iff e max = ground arith
