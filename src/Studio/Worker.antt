-- ===== src/Studio/Worker.antt =====
-- The state that a studio session shares with the rest of the worker (src/runtime.rs), and a job's
-- bookkeeping in it (src/job_run.rs).
use studio_worker.Base.{
  ℕ, zero, suc, String, Bool, Option, none, some, List, [], ◌∷◌, ◌++◌, length, ltb, same,
  if◌then◌else◌,
}
use studio_worker.JobGate.{JobGate}
use studio_worker.Presence.{UserPresence}
use studio_worker.Catalog.{Catalog}
use studio_worker.Studio.Frames.{WorkerInbound, RejectCode, Job, JobOutcome, RecentJob, TaskResult}
use studio_worker.Catalog.{TaskKind}

-- What the session has spawned, and who else holds the worker's slot. Each but `rejecting` holds it.
pub data Task : Type 0 where
  rejecting : String → RejectCode → Task
  accepting : Job → Task
  running : Job → Task
  delivering : Job → TaskResult → Task
  reporting : Job → String → Bool → Task
  -- The end of an offered job, where its reservation drops.
  releasing : Task
  -- A local job or an update.
  elsewhere : Task

pub data JobSource : Type 0 where
  studio local lane stream : JobSource

-- A job as it is listed (`CurrentJob`), without the time of its start.
pub record CurrentJob : Type 0 where
  pub job_id : String
  pub kind : TaskKind
  pub model : String
  pub prompt : String
  pub source : JobSource

pub record Worker (G P : Type 0) : Type 0 where
  pub gate : JobGate
  pub paused : Bool
  pub update_pending : Bool
  pub only_when_idle : Bool
  pub user_presence : Option UserPresence
  pub catalog : Catalog G P
  -- The studio's job.
  pub current_job : Option String
  -- All jobs: those of local requests, lanes and streams list themselves too.
  pub active_jobs : List CurrentJob
  pub recent_jobs : List RecentJob
  -- The frames handed to the sender, in order.
  pub sent : List WorkerInbound
  pub tasks : List Task

abbrev pub recent_jobs_cap : ℕ
recent_jobs_cap = 50

module _ {A : Type 0} where
  unfoldable pub pop_back : List A → List A
  pop_back [] = []
  pop_back (x ∷ []) = []
  pop_back (x ∷ y ∷ ys) = x ∷ pop_back (y ∷ ys)

  -- `while ring.len() > RECENT_JOBS_CAP`, for at most `fuel` rounds.
  unfoldable pub trim : ℕ → List A → List A
  unfolding pop_back
  trim zero ring = ring
  trim (suc fuel) ring =
      let rest = trim fuel (pop_back ring) in
      if ltb recent_jobs_cap (length ring) then rest else ring

  -- `record_recent_job`, and `record_local_job` on its own ring. A round takes an entry, so as many
  -- rounds as entries are enough.
  unfoldable pub record_job : A → List A → List A
  unfolding trim
  record_job entry ring = trim (length (entry ∷ ring)) (entry ∷ ring)

-- `active_jobs.retain(|j| j.job_id != id)`.
unfoldable pub without : String → List CurrentJob → List CurrentJob
without id [] = []
without id (x ∷ xs) = let rest = without id xs in if same x.job_id id then rest else x ∷ rest

-- As it is listed while it runs.
unfoldable pub job_listed : Job → CurrentJob
job_listed job = record {
  job_id = job.job_id;
  kind = job.kind;
  model = job.model;
  prompt = job.preview;
  source = studio;
}

-- As it is listed: with the preview of its prompt.
unfoldable pub recent_of : Job → JobOutcome → RecentJob
recent_of job outcome = record {
  job_id = job.job_id;
  kind = job.kind;
  model = job.model;
  prompt = job.preview;
  outcome = outcome;
}

module _ {G P : Type 0} where
  unfoldable pub send : WorkerInbound → Worker G P → Worker G P
  send frame w = record w { sent = w.sent ++ frame ∷ [] }

  unfoldable pub spawn : Task → Worker G P → Worker G P
  spawn t w = record w { tasks = w.tasks ++ t ∷ [] }

  -- `JobRun::begin`.
  unfoldable pub list_job : CurrentJob → Worker G P → Worker G P
  list_job job w = record w { active_jobs = w.active_jobs ++ job ∷ [] }

  -- `JobRun::drop`, whether the run was finished or not.
  unfoldable pub unlist_job : String → Worker G P → Worker G P
  unfolding without
  unlist_job id w = record w { active_jobs = without id w.active_jobs }

  -- The job is the current one, and is listed as running.
  unfoldable pub begin : Job → Worker G P → Worker G P
  unfolding list_job job_listed
  begin job w = list_job (job_listed job) (record w { current_job = some job.job_id })

  -- No current job any more, `JobRun::finish` records the job, and its drop takes it off the list.
  unfoldable pub finish : Job → JobOutcome → Worker G P → Worker G P
  unfolding unlist_job recent_of
  finish job outcome w = unlist_job job.job_id (record w {
    current_job = none;
    recent_jobs = record_job (recent_of job outcome) w.recent_jobs;
  })
