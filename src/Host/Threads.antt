-- ===== src/Host/Threads.antt =====
-- src/host.rs: what the spawned threads do when a load or an unload ends, and a request's lane.
use studio_worker.Base.{ℕ, suc, String, Option, none, some, [], ◌∷◌, ◌++◌}
use studio_worker.Lifecycle.{
  Lifecycle, Outcome, done, broken, Reply, ok, err, load_finished, unload_finished,
}
use studio_worker.Host.State.{
  Loaded, Task, loader, unloader, drainer, Host, entry, put, after_transition, then_unload, Load,
  weights, failure,
}

unfoldable pub load_outcome : Load → Outcome
load_outcome (weights w) = done
load_outcome (failure reason) = broken reason

unfoldable pub load_result : Load → ℕ → Option Loaded
load_result (weights w) lane = some (record { weights = w; lane = lane })
load_result (failure reason) lane = none

module _ {F : Type 0} where
  -- A fresh `Lane` is made only for weights that loaded.
  unfoldable pub fresh_lane : Load → Host F → Host F
  fresh_lane (weights w) h = record h { next_lane = suc h.next_lane }
  fresh_lane (failure reason) h = h

  unfoldable pub settle_load : Reply → Lifecycle → ℕ → String → Load → Host F → Host F
  unfolding entry put after_transition then_unload load_result fresh_lane
  settle_load (ok command) l now id result h =
      let e = entry h now id in
      then_unload command now id (
        after_transition
          (fresh_lane result
            (put h id (record e { lifecycle = l; loaded = load_result result h.next_lane })))
          now id e.lifecycle.state)
  settle_load (err unexpected) l now id result h = fresh_lane result (put h id (entry h now id))

  unfoldable pub finish_load : Host F → ℕ → String → Load → Host F
  unfolding settle_load load_finished load_outcome
  finish_load h now id result =
      let (l, reply) = load_finished (load_outcome result) (entry h now id).lifecycle in
      settle_load reply l now id result h

  unfoldable pub cancel_lane : Option ℕ → Host F → Host F
  cancel_lane none h = h
  cancel_lane (some lane) h = record h { cancelled = lane ∷ h.cancelled }

  -- The unload thread's first step: raise the lane's cancel flag, then wait for the lane.
  unfoldable pub begin_drain : Host F → String → Option ℕ → Host F
  unfolding cancel_lane
  begin_drain h id lane =
      let h' = cancel_lane lane h in record h' { tasks = h'.tasks ++ drainer id ∷ [] }

  unfoldable pub settle_unload : Reply → Lifecycle → ℕ → String → Host F → Host F
  unfolding entry put after_transition
  settle_unload (ok command) l now id h =
      let e = entry h now id in
      after_transition (put h id (record e { lifecycle = l; loaded = none })) now id
        e.lifecycle.state
  settle_unload (err unexpected) l now id h = put h id (record (entry h now id) { loaded = none })

  -- Its last step, once the lane is free or `DRAIN_TIMEOUT` has passed.
  unfoldable pub finish_unload : Host F → ℕ → String → Host F
  unfolding settle_unload unload_finished
  finish_unload h now id =
      let (l, reply) = unload_finished done (entry h now id).lifecycle in
      settle_unload reply l now id h

  -- `wait_for` and the waits of a thread only delay its next step; so any task may step next.
  unfoldable pub run_task : Task → ℕ → Load → Host F → Host F
  unfolding finish_load begin_drain finish_unload
  run_task (loader id waits) now result h = finish_load h now id result
  run_task (unloader id lane) now result h = begin_drain h id lane
  run_task (drainer id) now result h = finish_unload h now id
