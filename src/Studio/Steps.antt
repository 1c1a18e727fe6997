-- ===== src/Studio/Steps.antt =====
-- What a studio session and the rest of the worker do, in any order: offers arrive, settings change,
-- others take the slot, and any spawned task takes its next step.
use studio_worker.Base.{ℕ, ◌+◌, String, Bool, Option, List, [], ◌∷◌, ◌++◌, ◌≡◌, ◌≢◌, All}
use studio_worker.Admission.{Measure, MemoryProbe}
use studio_worker.Presence.{UserPresence}
use studio_worker.Catalog.{CatalogModel, Catalog}
use studio_worker.JobGate.{new}
use studio_worker.Studio.Frames.{JobOfferClaim, RecentJob}
use studio_worker.Studio.Worker.{
  Task, rejecting, accepting, running, delivering, reporting, releasing, elsewhere, studio,
  CurrentJob, Worker, list_job, unlist_job,
}
use studio_worker.Studio.Offers.{handle_offer}
use studio_worker.Studio.Tasks.{Answer, run_task, reserve_elsewhere}

-- What an operator, the updater and the presence monitor set.
pub record Settings : Type 0 where
  pub paused : Bool
  pub update_pending : Bool
  pub only_when_idle : Bool
  pub user_presence : Option UserPresence

module _ {G P : Type 0} where
  unfoldable pub configured : Settings → Worker G P → Worker G P
  configured s w = record w {
    paused = s.paused;
    update_pending = s.update_pending;
    only_when_idle = s.only_when_idle;
    user_presence = s.user_presence;
  }

  -- Nothing runs yet.
  unfoldable pub at_start : Settings → Catalog G P → List RecentJob → Worker G P
  unfolding new
  at_start s catalog recent = record {
    gate = new;
    paused = s.paused;
    update_pending = s.update_pending;
    only_when_idle = s.only_when_idle;
    user_presence = s.user_presence;
    catalog = catalog;
    current_job = Option.none;
    active_jobs = [];
    recent_jobs = recent;
    sent = [];
    tasks = [];
  }

  -- The list of tasks with one of them taken off.
  unfoldable pub with_tasks : List Task → Worker G P → Worker G P
  with_tasks tasks w = record w { tasks = tasks }

-- Which tasks hold the slot, and which have begun their job.
abbrev pub holds : Task → ℕ
holds (rejecting id code) = 0
holds (accepting job) = 1
holds (running job) = 1
holds (delivering job result) = 1
holds (reporting job err retryable) = 1
holds releasing = 1
holds elsewhere = 1

abbrev pub job_in : Task → List String
job_in (rejecting id code) = []
job_in (accepting job) = []
job_in (running job) = job.job_id ∷ []
job_in (delivering job result) = job.job_id ∷ []
job_in (reporting job err retryable) = job.job_id ∷ []
job_in releasing = []
job_in elsewhere = []

unfoldable pub holders : List Task → ℕ
holders [] = 0
holders (t ∷ ts) = holds t + holders ts

unfoldable pub begun : List Task → List String
begun [] = []
begun (t ∷ ts) = job_in t ++ begun ts

module _ {G P : Type 0} (m : Measure G) (eq : CatalogModel G P → CatalogModel G P → Bool) where
  pub data Step : Worker G P → Worker G P → Type 0 where
    offered :
        (reading : Option (MemoryProbe G × G)) (claim : JobOfferClaim G P) (w : Worker G P)
        → Step w (handle_offer m eq reading claim w)
    configures : (s : Settings) (w : Worker G P) → Step w (configured s w)
    taken : (w : Worker G P) → Step w (reserve_elsewhere w)
    -- A job of another source is listed (a local job, a training, a request on a lane, a stream), and
    -- taken off the list, which takes off whatever has its id: these ids are new ones, so no studio
    -- job that has begun has it.
    lists : (job : CurrentJob) (w : Worker G P) → job.source ≢ studio → Step w (list_job job w)
    unlists :
        (id : String) (w : Worker G P)
        → All (λ b. b ≢ id) (begun w.tasks)
        → Step w (unlist_job id w)
    runs :
        (t : Task) (a : Answer) (before after : List Task) (w : Worker G P)
        → w.tasks ≡ before ++ t ∷ after
        → Step w (run_task t a (with_tasks (before ++ after) w))

  pub data Reach : Worker G P → Type 0 where
    fresh :
        (s : Settings) (catalog : Catalog G P) (recent : List RecentJob)
        → Reach (at_start s catalog recent)
    next : {v w : Worker G P} → Reach v → Step v w → Reach w
