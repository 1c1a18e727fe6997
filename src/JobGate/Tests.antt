-- ===== src/JobGate/Tests.antt =====
-- The gate while one job is admitted.
use studio_worker.Base.{true, ◌≡◌, refl}
use studio_worker.JobGate.{JobGate, busy_already, reservation, new, try_reserve, release}

abbrev running : JobGate
running = record { busy = true }

one_at_a_time_run :
    (try_reserve new ≡ (running, reservation))
    × (try_reserve running ≡ (running, busy_already))
    × (try_reserve (release running) ≡ (running, reservation))
unfolding new try_reserve release
one_at_a_time_run = (refl, refl, refl)
