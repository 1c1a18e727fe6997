-- ===== src/LogRing.antt =====
-- The worker's log ring: `WorkerLogRing::push` (src/job_log.rs) and `recent_logs_after`
-- (src/runtime.rs).
pub mod Laws
mod Tests
use studio_worker.Base.{
  ℕ, zero, suc, ◌+◌, ◌-◌, ◌^◌, ◌%◌, max, Bool, List, [], ◌∷◌, ◌++◌, length, drop, ltb,
  if◌then◌else◌,
}

-- The entries, oldest first, and the number of the newest.
pub record WorkerLogRing (A : Type 0) : Type 0 where
  pub entries : List A
  pub seq : ℕ

abbrev pub recent_logs_cap : ℕ
recent_logs_cap = 1000

module _ {A : Type 0} where
  -- `while ring.len() > RECENT_LOGS_CAP`, for at most `fuel` rounds.
  unfoldable pub shrink : ℕ → List A → List A
  shrink zero ring = ring
  shrink (suc fuel) ring =
      let rest = shrink fuel (drop 1 ring) in
      if ltb recent_logs_cap (length ring) then rest else ring

  -- A round takes an entry, so as many rounds as entries are enough.
  unfoldable pub push : A → WorkerLogRing A → WorkerLogRing A
  unfolding shrink
  push entry r =
      let ring = r.entries ++ entry ∷ [] in
      record { entries = shrink (length ring) ring; seq = (r.seq + 1) % 2 ^ 64 }

  -- The difference of two `u64`s wraps.
  unfoldable pub recent_logs_after : WorkerLogRing A → ℕ → List A × ℕ
  recent_logs_after r after =
      let newest = r.seq in
      let oldest = newest - length r.entries in
      let from = if ltb newest after then 0 else max after oldest in
      (drop ((from + 2 ^ 64 - oldest) % 2 ^ 64) r.entries, newest)
