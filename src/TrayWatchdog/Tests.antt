-- ===== src/TrayWatchdog/Tests.antt =====
-- A run of the tray watchdog, and its theorems at concrete inputs.
use studio_worker.Base.{◌+◌, ◌≤◌, true, false, ◌≡◌, refl, some, [], ◌∷◌, arith}
use studio_worker.TrayWatchdog.{Check, new, nothing, relaunch, user_quit, backoff, step}
use studio_worker.TrayWatchdog.Laws.{after, decisions, relaunch_spacing}

abbrev gone : Check
gone = record { now_ms = 100000; last_seen_ms = some 10; quit = false }

abbrev waiting : Check
waiting = record { now_ms = 110000; last_seen_ms = some 10; quit = false }

abbrev again : Check
again = record { now_ms = 130000; last_seen_ms = some 10; quit = false }

abbrev quitted : Check
quitted = record { now_ms = 140000; last_seen_ms = some 10; quit = true }

run :
    decisions (gone ∷ waiting ∷ again ∷ quitted ∷ quitted ∷ []) new
    ≡ relaunch 1 99990 ∷ nothing ∷ relaunch 2 129990 ∷ user_quit ∷ nothing ∷ []
unfolding decisions step new
run = refl

relaunch_spacing_example : (100000 + backoff 1 ≤ 130000) × (2 ≡ 1 + 1)
unfolding step new after decisions
relaunch_spacing_example =
    relaunch_spacing gone again (waiting ∷ []) new 1 2 99990 129990 refl
      ((λ l e. ground (arith, e)), tt) ((λ n a e. ground (arith, e)), tt) refl (omega arith)
      (omega arith)
