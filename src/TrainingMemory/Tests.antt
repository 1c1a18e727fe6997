-- ===== src/TrainingMemory/Tests.antt =====
-- The memory admission of a training at concrete readings.
use studio_worker.Base.{ℕ, ◌*◌, ◌/◌, ◌^◌, false, ◌≡◌, refl, none, some, [], ◌∷◌, arith}
use studio_worker.TrainingMemory.{Snapshot, Look, wait_for, admitted, timed_out, machine}
use studio_worker.TrainingMemory.Waiting.{EndedAt, wait_for-EndedAt}

abbrev tenth : ℕ → ℕ
tenth n = n / 10

abbrev small_machine : Snapshot
small_machine = record { total = 40 * 2 ^ 30; available = 10 * 2 ^ 30; scope_headroom = none }

abbrev first_look : Look
first_look = record { is_cancelled = false; probed = some small_machine; elapsed = 0 }

abbrev last_look : Look
last_look = record { is_cancelled = false; probed = some small_machine; elapsed = 60 }

times_out :
    (wait_for tenth (12 * 2 ^ 30) 60 (first_look ∷ last_look ∷ [])).1
    ≡ some (timed_out (machine (10 * 2 ^ 30) (12 * 2 ^ 30) (6 * 2 ^ 30)))
unfolding wait_for
times_out = refl

abbrev roomy_machine : Snapshot
roomy_machine = record { total = 40 * 2 ^ 30; available = 30 * 2 ^ 30; scope_headroom = none }

abbrev roomy_look : Look
roomy_look = record { is_cancelled = false; probed = some roomy_machine; elapsed = 15 }

admitted_run :
    (wait_for tenth (12 * 2 ^ 30) 60 (first_look ∷ roomy_look ∷ [])).1 ≡ some (admitted 15)
unfolding wait_for
admitted_run = refl

wait_for-EndedAt_example :
    EndedAt tenth
      (12 * 2 ^ 30)
      60
      (first_look ∷ roomy_look ∷ [])
      (admitted 15)
      (wait_for tenth (12 * 2 ^ 30) 60 (first_look ∷ roomy_look ∷ [])).0
wait_for-EndedAt_example =
    wait_for-EndedAt tenth (12 * 2 ^ 30) 60 (admitted 15) (first_look ∷ roomy_look ∷ [])
      (omega arith) admitted_run
