-- ===== src/Studio/Jobs.antt =====
-- Which offered job the worker says it runs (src/ws/session.rs, src/job_run.rs), and which it runs.
use studio_worker.Base.{
  ◌+◌, ◌≤◌, String, Bool, true, not, ◌≡◌, refl, sym, ap, subst, ◌∙◌, Option, none, some, List, [],
  ◌∷◌, ◌++◌, arith, inl, inr, ◌↔◌, ◌⊎◌, Option-cases, append_assoc, append-nil,
}
use studio_worker.Admission.{Measure, MemoryProbe}
use studio_worker.Catalog.{CatalogModel}
use studio_worker.JobGate.{is_busy}
use studio_worker.Studio.Frames.{
  RejectCode, JobOfferClaim, Job, Delivery, delivery_of, upload, json,
}
use studio_worker.Studio.Worker.{
  Task, rejecting, accepting, running, delivering, reporting, releasing, elsewhere, Worker,
  list_job, unlist_job,
}
use studio_worker.Studio.Offers.{job_of, handle_offer}
use studio_worker.Studio.Tasks.{
  Answer, EngineEnd, produced, broke, panicked, deliver_result, dispatched, run_task,
  reserve_elsewhere,
}
use studio_worker.Studio.Listed.{
  studio_ids, studio_ids-foreign, studio_ids-begun, studio_ids-without, studio_ids-ended, unlisted,
  unlisted-kept,
}
use studio_worker.Studio.Steps.{
  Step, offered, configures, taken, lists, unlists, runs, Reach, fresh, next, holders, begun,
  with_tasks, configured, at_start, holds, job_in,
}
use studio_worker.Studio.Gate.{slot_lem, holders-append}

begun-append : (xs ys : List Task) → begun (xs ++ ys) ≡ begun xs ++ begun ys
unfolding begun
begun-append [] ys = refl
begun-append (x ∷ xs) ys =
    ap {B = List String} (λ r. job_in x ++ r) (begun-append xs ys)
    ∙ sym (append_assoc (job_in x) (begun xs) (begun ys))

begun_none : (xs : List Task) → holders xs ≡ 0 → begun xs ≡ []
unfolding begun holders
begun_none [] h = refl
begun_none (rejecting id code ∷ xs) h = begun_none xs (omega (arith, h))
begun_none (accepting job ∷ xs) h = begun_none xs (omega (arith, h))
begun_none (running job ∷ xs) h = absurd (omega (arith, h))
begun_none (delivering job result ∷ xs) h = absurd (omega (arith, h))
begun_none (reporting job err retryable ∷ xs) h = absurd (omega (arith, h))
begun_none (releasing ∷ xs) h = begun_none xs (omega (arith, h))
begun_none (elsewhere ∷ xs) h = begun_none xs (omega (arith, h))

holding_cases :
    (t : Task) → (holds t ≡ 1) ⊎ ((id : String) × (code : RejectCode) × (t ≡ rejecting id code))
holding_cases (rejecting id code) = inr (id, code, refl)
holding_cases (accepting job) = inl refl
holding_cases (running job) = inl refl
holding_cases (delivering job result) = inl refl
holding_cases (reporting job err retryable) = inl refl
holding_cases releasing = inl refl
holding_cases elsewhere = inl refl

abbrev pub head? : List String → Option String
head? [] = none
head? (x ∷ xs) = some x

module _ {G P : Type 0} where
  -- The current job is the one that has begun, and the studio's part of the active jobs names it.
  abbrev pub SaysJob : Worker G P → Type 0
  SaysJob w = (w.current_job ≡ head? (begun w.tasks)) × (studio_ids w.active_jobs ≡ begun w.tasks)

module _ {G P : Type 0} (m : Measure G) (eq : CatalogModel G P → CatalogModel G P → Bool) where
  handle_offer-begun :
      (reading : Option (MemoryProbe G × G)) (claim : JobOfferClaim G P) (w : Worker G P)
      → (begun (handle_offer m eq reading claim w).tasks ≡ begun w.tasks)
        × ((handle_offer m eq reading claim w).current_job ≡ w.current_job)
        × ((handle_offer m eq reading claim w).active_jobs ≡ w.active_jobs)
  unfolding handle_offer begun
  handle_offer-begun reading claim w = ground (
    arith,
    begun-append w.tasks (rejecting claim.job_id RejectCode.busy ∷ []),
    begun-append w.tasks (rejecting claim.job_id RejectCode.paused ∷ []),
    begun-append w.tasks (rejecting claim.job_id RejectCode.insufficient_memory ∷ []),
    begun-append w.tasks (accepting (job_of claim) ∷ []),
    append-nil (begun w.tasks),
  )

module _ {G P : Type 0} where
  reserve_elsewhere-SaysJob : (w : Worker G P) → SaysJob w → SaysJob (reserve_elsewhere w)
  unfolding reserve_elsewhere begun
  reserve_elsewhere-SaysJob w h =
      ground (arith, begun-append w.tasks (elsewhere ∷ []), append-nil (begun w.tasks))

  -- A task whose job is the only one begun.
  abbrev Alone : Task → Worker G P → Type 0
  Alone t w =
      (begun w.tasks ≡ [])
      × (w.current_job ≡ head? (job_in t))
      × (studio_ids w.active_jobs ≡ job_in t)

  dispatched-SaysJob :
      (e : EngineEnd) (job : Job) (w : Worker G P)
      → Alone (running job) w
      → SaysJob (dispatched e job w)
  unfolding dispatched begun
  dispatched-SaysJob (produced result) job w h =
      ground (arith, begun-append w.tasks (delivering job result ∷ []))
  dispatched-SaysJob (broke err permanent) job w h =
      ground (arith, begun-append w.tasks (reporting job err (not permanent) ∷ []))
  dispatched-SaysJob (panicked err) job w h =
      ground (arith, begun-append w.tasks (reporting job err true ∷ []))

  deliver_result-SaysJob :
      (d : Delivery) (job : Job) (a : Answer) (w : Worker G P)
      → Alone (running job) w
      → SaysJob (deliver_result d job a w)
  unfolding deliver_result begun
  deliver_result-SaysJob (upload output) job a w h = elim (Option-cases a.upload_error) [
    | inl e ↦
        ground (
          arith,
          e,
          begun-append w.tasks (releasing ∷ []),
          studio_ids-ended job.job_id w.active_jobs,
        )
    | inr (err, e) ↦ ground (arith, e, begun-append w.tasks (reporting job err true ∷ []))
  ]
  deliver_result-SaysJob (json text) job a w h =
      ground
        (arith, begun-append w.tasks (releasing ∷ []), studio_ids-ended job.job_id w.active_jobs)

  run_task-SaysJob :
      (t : Task) (a : Answer) (w : Worker G P) → holds t ≡ 1 → Alone t w → SaysJob (run_task t a w)
  unfolding run_task begun
  run_task-SaysJob (rejecting id code) a w k h = absurd (omega (arith, k))
  run_task-SaysJob (accepting job) a w k h =
      ground (arith, begun-append w.tasks (running job ∷ []), studio_ids-begun w.active_jobs job)
  run_task-SaysJob (running job) a w k h = dispatched-SaysJob a.engine job w h
  run_task-SaysJob (delivering job result) a w k h =
      deliver_result-SaysJob (delivery_of result job.prompt) job a w h
  run_task-SaysJob (reporting job err retryable) a w k h =
      ground
        (arith, begun-append w.tasks (releasing ∷ []), studio_ids-ended job.job_id w.active_jobs)
  run_task-SaysJob releasing a w k h = ground arith
  run_task-SaysJob elsewhere a w k h = ground arith

  begun_taken :
      (w : Worker G P) (t : Task) (before after : List Task)
      → w.tasks ≡ before ++ t ∷ after
      → holders w.tasks ≤ 1
      → holds t ≡ 1
      → (begun w.tasks ≡ job_in t) × (begun (before ++ after) ≡ [])
  unfolding holders begun
  begun_taken w t before after e h k =
      let n : holders before + (holds t + holders after) ≤ 1 =
        omega (arith, h, ap holders e, holders-append before (t ∷ after)) in
      let b = begun_none before (omega (arith, n, k)) in
      let c = begun_none after (omega (arith, n, k)) in
      (
        rw (e, begun-append before (t ∷ after), b, c) (append-nil (job_in t)),
        rw (begun-append before after, b, c) refl,
      )

module _ {G P : Type 0} where
  rejecting-SaysJob :
      (id : String) (code : RejectCode) (a : Answer) (before after : List Task) (w : Worker G P)
      → w.tasks ≡ before ++ rejecting id code ∷ after
      → SaysJob w
      → SaysJob (run_task (rejecting id code) a (with_tasks (before ++ after) w))
  unfolding run_task with_tasks begun
  rejecting-SaysJob id code a before after w e s =
      let q : begun w.tasks ≡ begun (before ++ after) =
        rw (e, begun-append before (rejecting id code ∷ after), begun-append before after) refl in
      (s.0 ∙ ap head? q, s.1 ∙ q)

module _ {G P : Type 0} (m : Measure G) (eq : CatalogModel G P → CatalogModel G P → Bool) where
  runs-SaysJob :
      (t : Task) (a : Answer) (before after : List Task) (w : Worker G P)
      → w.tasks ≡ before ++ t ∷ after
      → holders w.tasks ≤ 1
      → SaysJob w
      → SaysJob (run_task t a (with_tasks (before ++ after) w))
  unfolding with_tasks
  runs-SaysJob t a before after w e h s = elim (holding_cases t) [
    | inl k ↦
        let b = begun_taken w t before after e h k in
        run_task-SaysJob t a (with_tasks (before ++ after) w) k (b.1, s.0 ∙ ap head? b.0, s.1 ∙ b.0)
    | inr (id, code, q) ↦
        subst (λ x. SaysJob (run_task x a (with_tasks (before ++ after) w))) (sym q)
          (rejecting-SaysJob id code a before after w (e ∙ ap (λ x. before ++ x ∷ after) q) s)
  ]

  Step-SaysJob : {v w : Worker G P} → Reach m eq v → Step m eq v w → SaysJob v → SaysJob w
  unfolding configured list_job unlist_job
  Step-SaysJob r (offered reading claim w) s =
      let b = handle_offer-begun m eq reading claim w in
      (b.1 ∙ s.0 ∙ ap head? (sym b.0), ap studio_ids b.2 ∙ s.1 ∙ sym b.0)
  Step-SaysJob r (configures x w) s = s
  Step-SaysJob r (taken w) s = reserve_elsewhere-SaysJob w s
  Step-SaysJob r (lists job w h) s = (s.0, studio_ids-foreign w.active_jobs job h ∙ s.1)
  Step-SaysJob r (unlists id w h) s = (
    s.0,
    studio_ids-without id w.active_jobs ∙ ap (unlisted id) s.1 ∙ unlisted-kept id (begun w.tasks) h,
  )
  Step-SaysJob r (runs t a before after w e) s =
      runs-SaysJob t a before after w e (slot_lem m eq r).0 s

  pub Reach-SaysJob : {w : Worker G P} → Reach m eq w → SaysJob w
  unfolding at_start begun studio_ids
  Reach-SaysJob (fresh s catalog recent) = (refl, refl)
  Reach-SaysJob (next r s) = Step-SaysJob r s (Reach-SaysJob r)

  -- In every reachable state at most one task holds the worker's slot, and the gate is busy exactly if
  -- one does; the current job is the one that has begun and not ended, and among the studio's jobs
  -- the list of active jobs names that job alone, whatever jobs of local requests, lanes and streams
  -- it names besides (whose ids no studio job that has begun has).
  pub running_lem :
      {w : Worker G P}
      → Reach m eq w
      → (holders w.tasks ≤ 1) × ((is_busy w.gate ≡ true) ↔ (holders w.tasks ≡ 1)) × SaysJob w
  running_lem r = let slot = slot_lem m eq r in (slot.0, slot.1, Reach-SaysJob r)
