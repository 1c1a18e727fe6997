-- ===== src/JobGate.antt =====
-- src/job_gate.rs: the one-job-at-a-time reservation, as steps of any number of callers.
pub mod Laws
mod Tests
use studio_worker.Base.{Bool, true, false}

-- The shared flag.
pub record JobGate : Type 0 where
  pub busy : Bool

-- `Option<JobReservation>`.
pub data Reserved : Type 0 where
  reservation busy_already : Reserved

unfoldable pub new : JobGate
new = record { busy = false }

unfoldable pub is_busy : JobGate → Bool
is_busy g = g.busy

reserve_from : Bool → JobGate → JobGate × Reserved
reserve_from true g = (g, busy_already)
reserve_from false g = (record { busy = true }, reservation)

-- `compare_exchange(false, true)` is one atomic step.
unfoldable pub try_reserve : JobGate → JobGate × Reserved
unfolding reserve_from
try_reserve g = reserve_from g.busy g

-- `Drop` of a reservation.
unfoldable pub release : JobGate → JobGate
release g = record { busy = false }
