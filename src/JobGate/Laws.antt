-- ===== src/JobGate/Laws.antt =====
-- The gate (src/job_gate.rs) lets one job run at a time, whoever asks and in whatever order.
use studio_worker.Base.{ℕ, suc, ◌≤◌, true, ◌≡◌, arith, ◌↔◌}
use studio_worker.JobGate.{
  JobGate, Reserved, reservation, busy_already, new, is_busy, try_reserve, release,
}

-- The gate, and how many reservations are held.
pub record Holders : Type 0 where
  pub gate : JobGate
  pub held : ℕ

abbrev pub asked : JobGate × Reserved → ℕ → Holders
asked (g, reservation) held = record { gate = g; held = suc held }
asked (g, busy_already) held = record { gate = g; held = held }

-- Anyone asks for the slot at any time; only a held reservation is dropped.
pub data Step : Holders → Holders → Type 0 where
  asks : (w : Holders) → Step w (asked (try_reserve w.gate) w.held)
  drops :
      (w : Holders) {n : ℕ} → w.held ≡ suc n → Step w (record { gate = release w.gate; held = n })

pub data Reach : Holders → Type 0 where
  fresh : Reach (record { gate = new; held = 0 })
  next : {v w : Holders} → Reach v → Step v w → Reach w

abbrev IsWell : Holders → Type 0
IsWell w = (w.held ≤ 1) × ((is_busy w.gate ≡ true) ↔ (w.held ≡ 1))

Step-IsWell : {v w : Holders} → Step v w → IsWell v → IsWell w
unfolding try_reserve release is_busy
Step-IsWell (asks w) h = ground arith
Step-IsWell (drops w e) h = ground arith

Reach-IsWell : {w : Holders} → Reach w → IsWell w
unfolding new is_busy
Reach-IsWell fresh = ground arith
Reach-IsWell (next r s) = Step-IsWell s (Reach-IsWell r)

-- In every reachable state at most one reservation is held, the gate is busy exactly if one is, and
-- a caller gets the slot exactly if nobody holds it.
pub one_job :
    {w : Holders}
    → Reach w
    → (w.held ≤ 1)
      × ((is_busy w.gate ≡ true) ↔ (w.held ≡ 1))
      × (((try_reserve w.gate).1 ≡ reservation) ↔ (w.held ≡ 0))
unfolding try_reserve is_busy
one_job {w} r = step w (Reach-IsWell r)
  where
    step :
        (w : Holders)
        → IsWell w
        → (w.held ≤ 1)
          × ((is_busy w.gate ≡ true) ↔ (w.held ≡ 1))
          × (((try_reserve w.gate).1 ≡ reservation) ↔ (w.held ≡ 0))
    step w h = ground arith
