-- ===== src/TrayWatchdog.antt =====
-- src/tray_watchdog.rs: the daemon's decision to start the tray UI again. Times and durations are
-- milliseconds.
pub mod Laws
mod Tests
use studio_worker.Base.{
  ℕ, ◌+◌, ◌-◌, ◌*◌, ◌%◌, ◌^◌, min, Bool, true, false, Option, none, some, if◌then◌else◌, ltb,
}

abbrev pub absent_after : ℕ
absent_after = 30000

abbrev pub first_backoff : ℕ
first_backoff = 30000

abbrev pub max_backoff : ℕ
max_backoff = 900000

pub data Decision : Type 0 where
  nothing : Decision
  -- The attempt, and how long the tray has been absent.
  relaunch : ℕ → ℕ → Decision
  user_quit : Decision

unfoldable pub backoff : ℕ → ℕ
backoff attempt = min (first_backoff * 2 ^ min (attempt - 1) 16) max_backoff

pub record TrayWatchdog : Type 0 where
  pub attempts : ℕ
  pub next_allowed_ms : ℕ
  pub reported_quit : Bool

unfoldable pub new : TrayWatchdog
new = record { attempts = 0; next_allowed_ms = 0; reported_quit = false }

-- What one check reads: the time, the tray's last poll, the user's quit marker.
pub record Check : Type 0 where
  pub now_ms : ℕ
  pub last_seen_ms : Option ℕ
  pub quit : Bool

-- The integers wrap: the attempts at 32 bits, the time at 64.
try_again : ℕ → ℕ → TrayWatchdog → TrayWatchdog × Decision
unfolding backoff
try_again now absent_for w =
    let attempt = (w.attempts + 1) % 2 ^ 32 in
    (
      record w { attempts = attempt; next_allowed_ms = (now + backoff attempt) % 2 ^ 64 },
      relaunch attempt absent_for,
    )

step_absent : ℕ → ℕ → Bool → TrayWatchdog → TrayWatchdog × Decision
unfolding try_again
step_absent now absent_for true w =
    if w.reported_quit then (w, nothing) else (record w { reported_quit = true }, user_quit)
step_absent now absent_for false w =
    if ltb now w.next_allowed_ms then (w, nothing) else try_again now absent_for w

step_seen : Option ℕ → ℕ → Bool → TrayWatchdog → TrayWatchdog × Decision
unfolding step_absent new
step_seen none now quit w = (w, nothing)
step_seen (some last_seen) now quit w =
    if ltb (now - last_seen) absent_after
    then (new, nothing)
    else step_absent now (now - last_seen) quit w

unfoldable pub step : Check → TrayWatchdog → TrayWatchdog × Decision
unfolding step_seen
step c w = step_seen c.last_seen_ms c.now_ms c.quit w
