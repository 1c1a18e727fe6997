-- ===== src/Studio/Promises.antt =====
-- What the studio is told about its offers (src/ws/session.rs).
use studio_worker.Base.{
  ℕ, ◌+◌, String, Bool, true, not, ◌≡◌, refl, ap, Option, List, [], ◌∷◌, ◌++◌, arith, inl, inr,
  Option-cases, same, if◌then◌else◌,
}
use studio_worker.Admission.{Measure, MemoryProbe}
use studio_worker.Catalog.{CatalogModel}
use studio_worker.Studio.Frames.{
  RejectCode, JobOfferClaim, WorkerInbound, accept, reject, complete_json, fail, Job, Delivery,
  delivery_of, upload, json,
}
use studio_worker.Studio.Worker.{
  Task, rejecting, accepting, running, delivering, reporting, releasing, elsewhere, Worker,
  list_job, unlist_job,
}
use studio_worker.Studio.Offers.{job_of, handle_offer}
use studio_worker.Studio.Tasks.{
  Answer, EngineEnd, produced, broke, panicked, deliver_result, dispatched, run_task,
  reserve_elsewhere,
}
use studio_worker.Studio.Steps.{
  Step, offered, configures, taken, lists, unlists, runs, with_tasks, configured, at_start, Reach,
  fresh, next,
}

-- Of the answers to the offers of a job: those given, and those that a task is about to give.
abbrev answers_with : String → WorkerInbound → ℕ
answers_with id (accept job_id) = if same job_id id then 1 else 0
answers_with id (reject job_id code) = if same job_id id then 1 else 0
answers_with id (complete_json job_id text) = 0
answers_with id (fail job_id err retryable) = 0

abbrev owes : String → Task → ℕ
owes id (rejecting job_id code) = if same job_id id then 1 else 0
owes id (accepting job) = if same job.job_id id then 1 else 0
owes id (running job) = 0
owes id (delivering job result) = 0
owes id (reporting job err retryable) = 0
owes id releasing = 0
owes id elsewhere = 0

unfoldable pub total : {A : Type 0} → (A → ℕ) → List A → ℕ
total f [] = 0
total f (x ∷ xs) = f x + total f xs

pub total-append :
    {A : Type 0} (f : A → ℕ) (xs ys : List A) → total f (xs ++ ys) ≡ total f xs + total f ys
unfolding total
total-append f [] ys = omega arith
total-append f (x ∷ xs) ys = omega (arith, total-append f xs ys)

module _ {G P : Type 0} where
  abbrev pub answers : String → Worker G P → ℕ
  answers id w = total (answers_with id) w.sent + total (owes id) w.tasks

  dispatched-answers :
      (id : String) (e : EngineEnd) (job : Job) (w : Worker G P)
      → answers id (dispatched e job w) ≡ answers id w
  unfolding dispatched total
  dispatched-answers id (produced result) job w =
      omega (arith, total-append (owes id) w.tasks (delivering job result ∷ []))
  dispatched-answers id (broke err permanent) job w =
      omega (arith, total-append (owes id) w.tasks (reporting job err (not permanent) ∷ []))
  dispatched-answers id (panicked err) job w =
      omega (arith, total-append (owes id) w.tasks (reporting job err true ∷ []))

  deliver_result-answers :
      (id : String) (d : Delivery) (job : Job) (a : Answer) (w : Worker G P)
      → answers id (deliver_result d job a w) ≡ answers id w
  unfolding deliver_result total
  deliver_result-answers id (upload output) job a w = elim (Option-cases a.upload_error) [
    | inl e ↦ ground (arith, e, total-append (owes id) w.tasks (releasing ∷ []))
    | inr (err, e) ↦ ground (arith, e, total-append (owes id) w.tasks (reporting job err true ∷ []))
  ]
  deliver_result-answers id (json text) job a w = ground (
    arith,
    total-append (owes id) w.tasks (releasing ∷ []),
    total-append (answers_with id) w.sent (complete_json job.job_id text ∷ []),
  )

  run_task-answers :
      (id : String) (t : Task) (a : Answer) (w : Worker G P)
      → answers id (run_task t a w) ≡ owes id t + answers id w
  unfolding run_task total
  run_task-answers id (rejecting job_id code) a w =
      omega (arith, total-append (answers_with id) w.sent (reject job_id code ∷ []))
  run_task-answers id (accepting job) a w = ground (
    arith,
    total-append (answers_with id) w.sent (accept job.job_id ∷ []),
    total-append (owes id) w.tasks (running job ∷ []),
  )
  run_task-answers id (running job) a w = omega (arith, dispatched-answers id a.engine job w)
  run_task-answers id (delivering job result) a w =
      omega (arith, deliver_result-answers id (delivery_of result job.prompt) job a w)
  run_task-answers id (reporting job err retryable) a w = ground (
    arith,
    total-append (answers_with id) w.sent (fail job.job_id err retryable ∷ []),
    total-append (owes id) w.tasks (releasing ∷ []),
  )
  run_task-answers id releasing a w = omega arith
  run_task-answers id elsewhere a w = omega arith

module _ {G P : Type 0} (m : Measure G) (eq : CatalogModel G P → CatalogModel G P → Bool) where
  handle_offer-answers :
      (id : String) (reading : Option (MemoryProbe G × G)) (claim : JobOfferClaim G P)
      (w : Worker G P)
      → answers id (handle_offer m eq reading claim w)
        ≡ answers id w + (if same claim.job_id id then 1 else 0)
  unfolding handle_offer total
  handle_offer-answers id reading claim w = ground (
    arith,
    total-append (owes id) w.tasks (rejecting claim.job_id RejectCode.busy ∷ []),
    total-append (owes id) w.tasks (rejecting claim.job_id RejectCode.paused ∷ []),
    total-append (owes id) w.tasks (rejecting claim.job_id RejectCode.insufficient_memory ∷ []),
    total-append (owes id) w.tasks (accepting (job_of claim) ∷ []),
  )

  -- The offers of a job that a step brings.
  abbrev pub offers_in : String → {v w : Worker G P} → Step m eq v w → ℕ
  offers_in id (offered reading claim w) = if same claim.job_id id then 1 else 0
  offers_in id (configures s w) = 0
  offers_in id (taken w) = 0
  offers_in id (lists job w h) = 0
  offers_in id (unlists job_id w h) = 0
  offers_in id (runs t a before after w e) = 0

  runs-answers :
      (id : String) (t : Task) (a : Answer) (before after : List Task) (w : Worker G P)
      → w.tasks ≡ before ++ t ∷ after
      → answers id (run_task t a (with_tasks (before ++ after) w)) ≡ answers id w
  unfolding with_tasks total
  runs-answers id t a before after w e = omega (
    arith,
    run_task-answers id t a (with_tasks (before ++ after) w),
    ap (total (owes id)) e,
    total-append (owes id) before (t ∷ after),
    total-append (owes id) before after,
  )

  Step-answers :
      (id : String) {v w : Worker G P} (s : Step m eq v w)
      → answers id w ≡ answers id v + offers_in id s
  unfolding configured total reserve_elsewhere list_job unlist_job
  Step-answers id (offered reading claim w) = handle_offer-answers id reading claim w
  Step-answers id (configures s w) = omega arith
  Step-answers id (lists job w h) = omega arith
  Step-answers id (unlists job_id w h) = omega arith
  Step-answers id (taken w) = ground (arith, total-append (owes id) w.tasks (elsewhere ∷ []))
  Step-answers id (runs t a before after w e) = omega (arith, runs-answers id t a before after w e)

  abbrev pub offers_of : String → {w : Worker G P} → Reach m eq w → ℕ
  offers_of id (fresh s catalog recent) = 0
  offers_of id (next r s) = offers_of id r + offers_in id s

  -- Every offer of a job is answered once: however the session runs, the accepts and rejects of a job
  -- that were sent, with those that a task is about to send, are as many as its offers.
  pub answered_once :
      (id : String) {w : Worker G P} (r : Reach m eq w) → answers id w ≡ offers_of id r
  unfolding at_start total
  answered_once id (fresh s catalog recent) = refl
  answered_once id (next r s) = omega (arith, answered_once id r, Step-answers id s)
