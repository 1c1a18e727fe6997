-- ===== src/Studio/Tasks.antt =====
-- The spawned tasks of a studio session (src/ws/session.rs), each from one await to the next.
use studio_worker.Base.{String, Bool, true, not, Option, none, some, push_str}
use studio_worker.JobGate.{JobGate, Reserved, reservation, busy_already, try_reserve, release}
use studio_worker.Studio.Frames.{
  accept, reject, complete_json, fail, Job, JobOutcome, completed, failed, TaskResult, Delivery,
  upload, json, delivery_of,
}
use studio_worker.Studio.Worker.{
  Task, rejecting, accepting, running, delivering, reporting, releasing, elsewhere, Worker, send,
  spawn, begin, finish,
}

-- How the engine ended: a result, an error with whether it is permanent, or a panic.
pub data EngineEnd : Type 0 where
  produced : TaskResult → EngineEnd
  broke : String → Bool → EngineEnd
  panicked : String → EngineEnd

-- What the outside answers to a task's step: did the frame go out, did the upload succeed (`none`
-- for success), how did the engine end.
pub record Answer : Type 0 where
  pub send_error : Option String
  pub upload_error : Option String
  pub engine : EngineEnd

module _ {G P : Type 0} where
  -- Without an accept on the wire the job is dropped, and its reservation with it.
  unfoldable pub accepted : Option String → Job → Worker G P → Worker G P
  unfolding begin spawn
  accepted none job w = spawn (running job) (begin job w)
  accepted (some err) job w = record w { gate = release w.gate }

  unfoldable pub dispatched : EngineEnd → Job → Worker G P → Worker G P
  unfolding spawn
  dispatched (produced result) job w = spawn (delivering job result) w
  dispatched (broke err permanent) job w = spawn (reporting job err (not permanent)) w
  dispatched (panicked err) job w = spawn (reporting job err true) w

  unfoldable pub ended : Job → JobOutcome → Worker G P → Worker G P
  unfolding finish spawn
  ended job outcome w = spawn releasing (finish job outcome w)

  unfoldable pub uploaded : Option String → Job → Worker G P → Worker G P
  unfolding ended spawn
  uploaded none job w = ended job completed w
  uploaded (some err) job w = spawn (reporting job err true) w

  -- A JSON result that does not go out fails the job with no further frame.
  unfoldable pub json_sent : Option String → Job → Worker G P → Worker G P
  unfolding ended
  json_sent none job w = ended job completed w
  json_sent (some err) job w = ended job (failed (push_str "failed to send result: " err)) w

  unfoldable pub deliver_result : Delivery → Job → Answer → Worker G P → Worker G P
  unfolding uploaded json_sent send
  deliver_result (upload output) job a w = uploaded a.upload_error job w
  deliver_result (json text) job a w =
      json_sent a.send_error job (send (complete_json job.job_id text) w)

  -- One step of a task that has been taken off the list.
  unfoldable pub run_task : Task → Answer → Worker G P → Worker G P
  unfolding send accepted dispatched deliver_result delivery_of ended
  run_task (rejecting id code) a w = send (reject id code) w
  run_task (accepting job) a w = accepted a.send_error job (send (accept job.job_id) w)
  run_task (running job) a w = dispatched a.engine job w
  run_task (delivering job result) a w = deliver_result (delivery_of result job.prompt) job a w
  run_task (reporting job err retryable) a w =
      ended job (failed err) (send (fail job.job_id err retryable) w)
  run_task releasing a w = record w { gate = release w.gate }
  run_task elsewhere a w = record w { gate = release w.gate }

  unfoldable pub reserved_elsewhere : JobGate × Reserved → Worker G P → Worker G P
  unfolding spawn
  reserved_elsewhere (g, busy_already) w = w
  reserved_elsewhere (g, reservation) w = spawn elsewhere (record w { gate = g })

  -- A local job or an update asks for the slot.
  unfoldable pub reserve_elsewhere : Worker G P → Worker G P
  unfolding try_reserve reserved_elsewhere
  reserve_elsewhere w = reserved_elsewhere (try_reserve w.gate) w
