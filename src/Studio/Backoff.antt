-- ===== src/Studio/Backoff.antt =====
-- The pauses between a session's attempts (`backoff_for` of src/ws/session.rs).
use studio_worker.Base.{ℕ, zero, suc, ◌-◌, ◌*◌, ◌^◌, ◌≤◌, ◌<◌, min, ◌≡◌, arith}
use studio_worker.Studio.Rounds.{SessionSchedule, backoff_for}

saturated :
    (base factor top cap : ℕ)
    → cap ≤ top
    → min (min (base * min factor top) top) cap ≡ min (base * factor) cap
saturated zero factor top cap h = omega arith
saturated (suc c) factor top cap h = grind (arith, h)

pow_mono : (a b : ℕ) → a ≤ b → 2 ^ a ≤ 2 ^ b
pow_mono zero zero h = omega arith
pow_mono zero (suc b) h = omega (arith, pow_mono zero b (omega arith))
pow_mono (suc a) zero h = absurd (omega (arith, h))
pow_mono (suc a) (suc b) h = omega (arith, pow_mono a b (omega (arith, h)))

backoff_exact :
    (attempt : ℕ) (schedule : SessionSchedule)
    → schedule.max_backoff_ms < 2 ^ 64
    → backoff_for attempt schedule
      ≡ min (schedule.base_backoff_ms * 2 ^ (attempt - 1)) schedule.max_backoff_ms
unfolding backoff_for
backoff_exact attempt schedule h =
    saturated schedule.base_backoff_ms (2 ^ (attempt - 1)) (2 ^ 64 - 1) schedule.max_backoff_ms
      (omega (arith, h))

mul_mono : (c a b : ℕ) → a ≤ b → c * a ≤ c * b
mul_mono zero a b h = omega arith
mul_mono (suc c) a b h = omega (arith, h, mul_mono c a b h)

-- With a cap that a `u64` holds: the pause doubles from the base up to the cap, the saturation of the
-- arithmetic never shows, and no pause is shorter than the one before it or longer than the cap.
pub backoff_for_lem :
    (attempt later : ℕ) (schedule : SessionSchedule)
    → schedule.max_backoff_ms < 2 ^ 64
    → attempt ≤ later
    → (backoff_for attempt schedule
        ≡ min (schedule.base_backoff_ms * 2 ^ (attempt - 1)) schedule.max_backoff_ms)
      × (backoff_for attempt schedule ≤ backoff_for later schedule)
      × (backoff_for later schedule ≤ schedule.max_backoff_ms)
backoff_for_lem attempt later schedule h le =
    let base = schedule.base_backoff_ms in
    let a = backoff_exact attempt schedule h in
    let b = backoff_exact later schedule h in
    let grows =
      mul_mono base (2 ^ (attempt - 1)) (2 ^ (later - 1))
        (pow_mono (attempt - 1) (later - 1) (omega (arith, le))) in
    (a, omega (arith, a, b, grows), omega (arith, b))
