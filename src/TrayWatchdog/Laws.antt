-- ===== src/TrayWatchdog/Laws.antt =====
-- What the tray watchdog (src/tray_watchdog.rs) guarantees over any sequence of checks.
use studio_worker.Base.{
  ℕ, zero, suc, ◌+◌, ◌-◌, ◌*◌, ◌%◌, ◌^◌, ◌≤◌, ◌<◌, min, true, false, ◌≡◌, ◌≢◌, refl, none, some,
  List, [], ◌∷◌, arith, if◌then◌else◌, All, replicate, length, inl, inr, Option-cases, le_cases,
  pow_step,
}
use studio_worker.TrayWatchdog.{
  absent_after, Decision, nothing, relaunch, user_quit, backoff, TrayWatchdog, Check, step,
}

-- The checks of a run, in order: the watchdog after them, and what each decided.
unfoldable pub after : List Check → TrayWatchdog → TrayWatchdog
after [] w = w
after (c ∷ cs) w = after cs (step c w).0

unfoldable pub decisions : List Check → TrayWatchdog → List Decision
decisions [] w = []
decisions (c ∷ cs) w = (step c w).1 ∷ decisions cs (step c w).0

-- No tray polled within the last 30 s.
abbrev pub Silent : Check → Type 0
Silent c = (l : ℕ) → c.last_seen_ms ≡ some l → absent_after ≤ c.now_ms - l

abbrev pub IsQuiet : Decision → Type 0
IsQuiet d = (n a : ℕ) → d ≢ relaunch n a

thirty_two : (e : ℕ) → 5 ≤ e → 32 ≤ 2 ^ e
thirty_two zero h = omega arith
thirty_two (suc e) h = elim (le_cases 5 e) [
  | inl q ↦ omega (arith, pow_step 2 e, thirty_two e q)
  | inr q ↦ rw (the_four e q h) (omega arith)
]
  where
    the_four : (e : ℕ) → e < 5 → 5 ≤ suc e → e ≡ 4
    the_four e h q = omega arith

-- The waits: 30 s after the first attempt, each later wait the double of the one before it, up to
-- 15 minutes.
backoff_doubles :
    (n : ℕ) → (backoff 1 ≡ 30000) × (backoff (n + 2) ≡ min (2 * backoff (n + 1)) 900000)
unfolding backoff
backoff_doubles n = (
  refl,
  elim (le_cases 5 n) [
    | inl q ↦ omega (
      arith,
      thirty_two (min (n + 2 - 1) 16) (omega (arith, q)),
      thirty_two (min (n + 1 - 1) 16) (omega (arith, q)),
    )
    | inr q ↦ small n q
  ],
)
  where
    small :
        (n : ℕ)
        → n < 5
        → min (30000 * 2 ^ min (n + 2 - 1) 16) 900000
          ≡ min (2 * min (30000 * 2 ^ min (n + 1 - 1) 16) 900000) 900000
    small zero h = refl
    small (suc zero) h = refl
    small (suc (suc zero)) h = refl
    small (suc (suc (suc zero))) h = refl
    small (suc (suc (suc (suc zero)))) h = refl
    small (suc (suc (suc (suc (suc n))))) h = omega (arith, h)

pub backoff_bounds : (n : ℕ) → (30000 ≤ backoff n) × (backoff n ≤ 900000)
unfolding backoff
backoff_bounds n = (omega (arith, one (min (n - 1) 16)), omega arith)
  where
    one : (e : ℕ) → 1 ≤ 2 ^ e
    one zero = omega arith
    one (suc e) = omega (arith, pow_step 2 e, one e)

-- A check with no tray keeps the attempts and the time allowed next, unless it relaunches.
step-Silent :
    (c : Check) (w : TrayWatchdog)
    → Silent c
    → IsQuiet (step c w).1
    → ((step c w).0.attempts ≡ w.attempts) × ((step c w).0.next_allowed_ms ≡ w.next_allowed_ms)
unfolding step
step-Silent c w h q = elim (Option-cases c.last_seen_ms) [
  | inl e ↦ ground (arith, e)
  | inr (l, e) ↦ ground (arith, e, h l e, q ((w.attempts + 1) % 2 ^ 32) (c.now_ms - l))
]

after-Silent :
    (cs : List Check) (w : TrayWatchdog)
    → All Silent cs
    → All IsQuiet (decisions cs w)
    → ((after cs w).attempts ≡ w.attempts) × ((after cs w).next_allowed_ms ≡ w.next_allowed_ms)
unfolding after decisions
after-Silent [] w h q = (refl, refl)
after-Silent (c ∷ cs) w h q =
    ground (arith, step-Silent c w h.0 q.0, after-Silent cs (step c w).0 h.1 q.1)

step-relaunch :
    (c : Check) (w : TrayWatchdog) (n a : ℕ)
    → (step c w).1 ≡ relaunch n a
    → (w.next_allowed_ms ≤ c.now_ms)
      × (n ≡ (w.attempts + 1) % 2 ^ 32)
      × ((step c w).0.attempts ≡ n)
      × ((step c w).0.next_allowed_ms ≡ (c.now_ms + backoff n) % 2 ^ 64)
      × (c.quit ≡ false)
      × (30000 ≤ a)
      × (c.last_seen_ms ≢ none)
unfolding step
step-relaunch c w n a h = elim (Option-cases c.last_seen_ms) [
  | inl e ↦ ground (arith, e, h)
  | inr (l, e) ↦ ground (arith, e, h)
]

-- Between two relaunches with no tray seen in between and no other relaunch, the second counts one
-- attempt more and comes no sooner than the first plus the wait after it (for times below 2^63 ms,
-- and fewer than 2^32 - 1 attempts).
pub relaunch_spacing :
    (c d : Check) (cs : List Check) (w : TrayWatchdog) (n m a b : ℕ)
    → (step c w).1 ≡ relaunch n a
    → All Silent cs
    → All IsQuiet (decisions cs (step c w).0)
    → (step d (after cs (step c w).0)).1 ≡ relaunch m b
    → c.now_ms < 2 ^ 63
    → n < 2 ^ 32 - 1
    → (c.now_ms + backoff n ≤ d.now_ms) × (m ≡ n + 1)
relaunch_spacing c d cs w n m a b f h q g t k =
    let r = step-relaunch c w n a f in
    let v = after-Silent cs (step c w).0 h q in
    let s = step-relaunch d (after cs (step c w).0) m b g in
    omega (arith, r.3, r.2, v.0, v.1, s.0, s.1, t, k, backoff_bounds n)

-- Checks that find the tray gone and the user's quit marker present.
abbrev pub HasQuit : Check → Type 0
HasQuit c = (c.quit ≡ true) × ((l : ℕ) × (c.last_seen_ms ≡ some l) × (absent_after ≤ c.now_ms - l))

step-quit :
    (c : Check) (w : TrayWatchdog)
    → HasQuit c
    → step c w
      ≡ (record w { reported_quit = true }, (if w.reported_quit then nothing else user_quit))
unfolding step
step-quit c w (h, (l, e, k)) = ground (arith, h, e, k)

quiet-quit :
    (cs : List Check) (w : TrayWatchdog)
    → All HasQuit cs
    → w.reported_quit ≡ true
    → decisions cs w ≡ replicate (length cs) nothing
unfolding decisions
quiet-quit [] w h r = refl
quiet-quit (c ∷ cs) w h r =
    rw (step-quit c w h.0, r, quiet-quit cs (record w { reported_quit = true }) h.1 refl)

-- After the user quit, the first check that finds the tray gone reports it, unless it was reported
-- before, and every later one decides nothing; none relaunches the tray.
quit_once :
    (c : Check) (cs : List Check) (w : TrayWatchdog)
    → All HasQuit (c ∷ cs)
    → decisions (c ∷ cs) w
      ≡ (if w.reported_quit then nothing else user_quit) ∷ replicate (length cs) nothing
unfolding decisions
quit_once c cs w h =
    rw (step-quit c w h.0, quiet-quit cs (record w { reported_quit = true }) h.1 refl)
