-- ===== src/Updater/Slot.antt =====
-- An update installs only while it holds the worker's slot (src/runtime.rs).
use studio_worker.Base.{
  Bool, true, false, ◌≡◌, refl, sym, subst, Option, none, some, List, [], ◌∷◌, All, inl, inr, ◌⊎◌,
  arith, Bool-cases,
}
use studio_worker.JobGate.{JobGate, Reserved, reservation, busy_already, is_busy, try_reserve}
use studio_worker.Updater.Releases.{CheckOutcome, up_to_date, newer_available}
use studio_worker.Updater.Drain.{
  Shared, Waited, acted, noted, after_try, tries, wait_for_slot, Ticked, after_wait, newer_found,
  auto_update_tick,
}

abbrev pub TurnsAway : Shared → Type 0
TurnsAway s = s.pending ≡ true

-- Offers are turned away in every pause; and a wait with the slot ends with a busy gate.
abbrev Waits : Waited → Type 0
Waits w =
    All TurnsAway w.paused
    × ((w.slot ≡ busy_already) ⊎ ((w.slot ≡ reservation) × (is_busy w.shared.gate ≡ true)))

after_try-Waits :
    (s : Shared) (rest : Waited) → Waits rest → Waits (after_try s (try_reserve s.gate) rest)
unfolding after_try try_reserve is_busy
after_try-Waits s rest h = elim (Bool-cases s.gate.busy) [
  | inl b ↦
      let q : after_try s (try_reserve s.gate) rest ≡ rest = rw b refl in subst Waits (sym q) h
  | inr b ↦ rw b (tt, inr (refl, refl))
]

tries-Waits :
    (others : List (JobGate → JobGate)) (s : Shared) → s.pending ≡ true → Waits (tries others s)
unfolding tries
tries-Waits [] s h = after_try-Waits s _ (tt, inl refl)
tries-Waits (other ∷ others) s h =
    let r = tries-Waits others (acted other s) h in
    after_try-Waits s (noted s (tries others (acted other s))) ((h, r.0), r.1)

-- The pending flag is up in every pause, which turns offers away, and down at the end; there is at most
-- one install, with the slot held, which turns offers and local jobs away, and the slot is then given
-- back.
abbrev pub Careful : Ticked → Type 0
Careful t =
    All TurnsAway t.paused
    × (t.shared.pending ≡ false)
    × ((t.installs ≡ [])
        ⊎ ((i : Shared) × (t.installs ≡ i ∷ [])
            × (is_busy i.gate ≡ true)
            × (i.pending ≡ false)
            × (is_busy t.shared.gate ≡ false)))

after_wait-Careful :
    (succeeds : Bool) (slot : Reserved) (w : Waited)
    → w.shared.pending ≡ false
    → All TurnsAway w.paused
    → (slot ≡ busy_already) ⊎ ((slot ≡ reservation) × (is_busy w.shared.gate ≡ true))
    → Careful (after_wait succeeds slot w)
unfolding after_wait is_busy
after_wait-Careful succeeds busy_already w p a h = (a, p, inl refl)
after_wait-Careful succeeds reservation w p a (inl h) = absurd (ground (arith, h))
after_wait-Careful succeeds reservation w p a (inr h) = (a, p, inr (w.shared, refl, h.1, p, refl))

newer_found-Careful :
    (succeeds : Bool) (others : List (JobGate → JobGate)) (s : Shared)
    → s.pending ≡ false
    → Careful (newer_found succeeds others s (try_reserve s.gate))
unfolding newer_found try_reserve is_busy
newer_found-Careful succeeds others s p = elim (Bool-cases s.gate.busy) [
  | inl b ↦
      let w = tries-Waits others (record s { pending = true }) refl in
      let v = wait_for_slot others s in
      let q : newer_found succeeds others s (try_reserve s.gate) ≡ after_wait succeeds v.slot v =
        rw b refl in
      subst Careful (sym q) (after_wait-Careful succeeds v.slot v refl w.0 w.1)
  | inr b ↦ rw b (tt, p, inr (_, refl, refl, p, refl))
]

module _ {V : Type 0} where
  -- If no update was pending before: a tick raises the pending flag in every pause of its wait for the
  -- slot (which turns offers away), whatever the rest of the worker does in the meantime, and has it
  -- down at its end; it installs at most once, only with the slot held, so the gate is busy to offers
  -- and local jobs meanwhile, and gives the slot back at its end.
  pub auto_update_tick-Careful :
      (enabled : Bool) (check : Option (CheckOutcome V)) (succeeds : V → Bool)
      (others : List (JobGate → JobGate)) (s : Shared)
      → s.pending ≡ false
      → Careful (auto_update_tick enabled check succeeds others s)
  unfolding auto_update_tick
  auto_update_tick-Careful false check succeeds others s p = (tt, p, inl refl)
  auto_update_tick-Careful true none succeeds others s p = (tt, p, inl refl)
  auto_update_tick-Careful true (some (up_to_date current)) succeeds others s p = (tt, p, inl refl)
  auto_update_tick-Careful true (some (newer_available current latest)) succeeds others s p =
      newer_found-Careful (succeeds latest) others s p
