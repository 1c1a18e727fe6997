-- ===== src/Updater/Drain.antt =====
-- The auto-update tick, and how an update waits for the worker's slot (src/runtime.rs).
use studio_worker.Base.{Bool, true, false, Option, none, some, List, [], ◌∷◌, if◌then◌else◌}
use studio_worker.JobGate.{JobGate, Reserved, reservation, busy_already, try_reserve, release}
use studio_worker.Updater.Releases.{CheckOutcome, up_to_date, newer_available}

-- `AutoUpdateDecision`, without the errors' texts; `no_newer` is its `UpToDate`.
pub data AutoUpdateDecision : Type 0 where
  disabled skipped_busy no_newer check_error updated update_error : AutoUpdateDecision

-- What the update shares with the studio session: the gate, and `UpdateDrain::pending`.
pub record Shared : Type 0 where
  pub gate : JobGate
  pub pending : Bool

-- Where a wait ends, whether it has the slot, and what it shared at each pause.
pub record Waited : Type 0 where
  pub shared : Shared
  pub slot : Reserved
  pub paused : List Shared

-- What is in force while others act between two tries.
unfoldable pub acted : (JobGate → JobGate) → Shared → Shared
acted other s = record s { gate = other s.gate }

unfoldable pub noted : Shared → Waited → Waited
noted s w = record w { paused = s ∷ w.paused }

-- A try of the slot: with it the wait ends, without it `rest` follows.
unfoldable pub after_try : Shared → JobGate × Reserved → Waited → Waited
after_try s (g, reservation) rest = record {
  shared = record s { gate = g };
  slot = reservation;
  paused = [];
}
after_try s (g, busy_already) rest = rest

-- The tries of `wait_for_slot`, until the limit has passed; `others` is what the rest of the worker
-- does to the gate in each pause.
unfoldable pub tries : List (JobGate → JobGate) → Shared → Waited
unfolding after_try noted acted try_reserve
tries [] s =
    after_try s (try_reserve s.gate) (record { shared = s; slot = busy_already; paused = [] })
tries (other ∷ others) s = after_try s (try_reserve s.gate) (noted s (tries others (acted other s)))

unfoldable pub wait_for_slot : List (JobGate → JobGate) → Shared → Waited
unfolding tries
wait_for_slot others s =
    let w = tries others (record s { pending = true }) in
    record w { shared = record w.shared { pending = false } }

-- What a tick decided, what it leaves, the pauses that it took, and what was in force when it installed.
pub record Ticked : Type 0 where
  pub decision : AutoUpdateDecision
  pub shared : Shared
  pub paused : List Shared
  pub installs : List Shared

unfoldable pub idle_tick : AutoUpdateDecision → Shared → Ticked
idle_tick decision s = record { decision = decision; shared = s; paused = []; installs = [] }

-- The install, and the end of the tick, where the reservation drops.
unfoldable pub install_holding : Bool → Waited → Ticked
unfolding release
install_holding succeeds w = record {
  decision = if succeeds then updated else update_error;
  shared = record w.shared { gate = release w.shared.gate };
  paused = w.paused;
  installs = w.shared ∷ [];
}

unfoldable pub after_wait : Bool → Reserved → Waited → Ticked
unfolding install_holding
after_wait succeeds reservation w = install_holding succeeds w
after_wait succeeds busy_already w = record {
  decision = skipped_busy;
  shared = w.shared;
  paused = w.paused;
  installs = [];
}

unfoldable pub newer_found : Bool → List (JobGate → JobGate) → Shared → JobGate × Reserved → Ticked
unfolding install_holding after_wait wait_for_slot
newer_found succeeds others s (g, reservation) =
    install_holding succeeds
      (record { shared = record s { gate = g }; slot = reservation; paused = [] })
newer_found succeeds others s (g, busy_already) =
    let w = wait_for_slot others s in after_wait succeeds w.slot w

module _ {V : Type 0} where
  -- `check` is what `update::check` answers (`none` for an error), `succeeds` how `update::apply` ends.
  unfoldable pub auto_update_tick :
      Bool → Option (CheckOutcome V) → (V → Bool) → List (JobGate → JobGate) → Shared → Ticked
  unfolding idle_tick newer_found try_reserve
  auto_update_tick false check succeeds others s = idle_tick disabled s
  auto_update_tick true none succeeds others s = idle_tick check_error s
  auto_update_tick true (some (up_to_date current)) succeeds others s = idle_tick no_newer s
  auto_update_tick true (some (newer_available current latest)) succeeds others s =
      newer_found (succeeds latest) others s (try_reserve s.gate)
