-- ===== src/Studio/Gate.antt =====
-- A studio session (src/ws/session.rs) uses the job gate (src/job_gate.rs) as it is meant to be used.
use studio_worker.Base.{
  ◌+◌, ◌≤◌, Bool, true, not, ◌≡◌, refl, sym, ap, subst, ◌∙◌, Option, List, [], ◌∷◌, ◌++◌, arith,
  ◌↔◌, inl, inr, ◌⊎◌, Option-cases,
}
use studio_worker.Admission.{Measure, MemoryProbe}
use studio_worker.Catalog.{CatalogModel}
use studio_worker.JobGate.{is_busy, try_reserve, release}
use studio_worker.JobGate.Laws as GateLaws
use studio_worker.JobGate.Laws.{Reach as GateReach, Holders, asked, one_job}
use studio_worker.Studio.Frames.{
  RejectCode, JobOfferClaim, Job, Delivery, delivery_of, upload, json,
}
use studio_worker.Studio.Worker.{
  Task, rejecting, accepting, running, delivering, reporting, releasing, elsewhere, Worker,
  list_job, unlist_job,
}
use studio_worker.Studio.Offers.{job_of, handle_offer}
use studio_worker.Studio.Tasks.{
  Answer, EngineEnd, produced, broke, panicked, deliver_result, dispatched, dispatched, run_task,
  reserve_elsewhere,
}
use studio_worker.Studio.Steps.{
  Step, offered, configures, taken, lists, unlists, runs, Reach, fresh, next, holders, with_tasks,
  configured, at_start, holds,
}

pub holders-append : (xs ys : List Task) → holders (xs ++ ys) ≡ holders xs + holders ys
unfolding holders
holders-append [] ys = omega arith
holders-append (x ∷ xs) ys = omega (arith, holders-append xs ys)

module _ {G P : Type 0} where
  -- The gate, and how many tasks hold its slot.
  abbrev pub view : Worker G P → Holders
  view w = record { gate = w.gate; held = holders w.tasks }

module _ {G P : Type 0} (m : Measure G) (eq : CatalogModel G P → CatalogModel G P → Bool) where
  view-handle_offer :
      (reading : Option (MemoryProbe G × G)) (claim : JobOfferClaim G P) (w : Worker G P)
      → (view (handle_offer m eq reading claim w) ≡ view w)
        ⊎ (view (handle_offer m eq reading claim w) ≡ asked (try_reserve w.gate) (holders w.tasks))
  unfolding handle_offer holders
  view-handle_offer reading claim w = ground (
    arith,
    holders-append w.tasks (rejecting claim.job_id RejectCode.busy ∷ []),
    holders-append w.tasks (rejecting claim.job_id RejectCode.paused ∷ []),
    holders-append w.tasks (rejecting claim.job_id RejectCode.insufficient_memory ∷ []),
    holders-append w.tasks (accepting (job_of claim) ∷ []),
  )

module _ {G P : Type 0} where
  view-reserve_elsewhere :
      (w : Worker G P) → view (reserve_elsewhere w) ≡ asked (try_reserve w.gate) (holders w.tasks)
  unfolding reserve_elsewhere holders
  view-reserve_elsewhere w = ground (arith, holders-append w.tasks (elsewhere ∷ []))

  abbrev grown : Worker G P → Holders
  grown w = record { gate = w.gate; held = 1 + holders w.tasks }

  view-dispatched :
      (e : EngineEnd) (job : Job) (w : Worker G P) → view (dispatched e job w) ≡ grown w
  unfolding dispatched holders
  view-dispatched (produced result) job w =
      ground (arith, holders-append w.tasks (delivering job result ∷ []))
  view-dispatched (broke err permanent) job w =
      ground (arith, holders-append w.tasks (reporting job err (not permanent) ∷ []))
  view-dispatched (panicked err) job w =
      ground (arith, holders-append w.tasks (reporting job err true ∷ []))

  view-deliver_result :
      (d : Delivery) (job : Job) (a : Answer) (w : Worker G P)
      → view (deliver_result d job a w) ≡ grown w
  unfolding deliver_result holders
  view-deliver_result (upload output) job a w = elim (Option-cases a.upload_error) [
    | inl e ↦ ground (arith, e, holders-append w.tasks (releasing ∷ []))
    | inr (err, e) ↦ ground (arith, e, holders-append w.tasks (reporting job err true ∷ []))
  ]
  view-deliver_result (json text) job a w = ground (arith, holders-append w.tasks (releasing ∷ []))

  -- A step of a task hands the slot on, or gives it back.
  view-run_task :
      (t : Task) (a : Answer) (w : Worker G P)
      → (view (run_task t a w) ≡ record { gate = w.gate; held = holds t + holders w.tasks })
        ⊎ ((holds t ≡ 1)
            × (view (run_task t a w) ≡ record { gate = release w.gate; held = holders w.tasks }))
  unfolding run_task holders
  view-run_task (rejecting id code) a w = ground arith
  view-run_task (accepting job) a w = ground (arith, holders-append w.tasks (running job ∷ []))
  view-run_task (running job) a w = inl (view-dispatched a.engine job w)
  view-run_task (delivering job result) a w =
      inl (view-deliver_result (delivery_of result job.prompt) job a w)
  view-run_task (reporting job err retryable) a w =
      ground (arith, holders-append w.tasks (releasing ∷ []))
  view-run_task releasing a w = inr (refl, refl)
  view-run_task elsewhere a w = inr (refl, refl)

  -- The tasks with one of them taken out.
  holders_taken :
      (w : Worker G P) (t : Task) (before after : List Task)
      → w.tasks ≡ before ++ t ∷ after
      → holders w.tasks ≡ holds t + holders (before ++ after)
  unfolding holders
  holders_taken w t before after e =
      rw e (omega (arith, holders-append before (t ∷ after), holders-append before after))

module _ {G P : Type 0} (m : Measure G) (eq : CatalogModel G P → CatalogModel G P → Bool) where
  -- Every step of the worker is one step of the gate, or none: what the gate promises of its callers
  -- holds of the session's tasks.
  Step-view : {v w : Worker G P} → Step m eq v w → GateReach (view v) → GateReach (view w)
  unfolding configured with_tasks list_job unlist_job
  Step-view (offered reading claim w) r = elim (view-handle_offer m eq reading claim w) [
    | inl e ↦ subst GateReach (sym e) r
    | inr e ↦ subst GateReach (sym e) (GateLaws.next r (GateLaws.asks (view w)))
  ]
  Step-view (configures s w) r = r
  Step-view (lists job w h) r = r
  Step-view (unlists id w h) r = r
  Step-view (taken w) r =
      subst GateReach (sym (view-reserve_elsewhere w)) (GateLaws.next r (GateLaws.asks (view w)))
  Step-view (runs t a before after w e) r =
      let v = with_tasks (before ++ after) w in
      let n = holders_taken w t before after e in
      elim (view-run_task t a v) [
        | inl q ↦ subst GateReach (ap (λ h. record { gate = w.gate; held = h }) n ∙ sym q) r
        | inr (one, q) ↦
            subst GateReach (sym q)
              (GateLaws.next r (GateLaws.drops (view w) (omega (arith, n, one))))
      ]

  -- What a session and the rest of the worker do refines the gate's contract: the gate and the number
  -- of tasks that hold its slot, in every reachable state, are a reachable state of the gate and its
  -- reservations.
  pub Reach-view : {w : Worker G P} → Reach m eq w → GateReach (view w)
  unfolding at_start holders
  Reach-view (fresh s catalog recent) = GateLaws.fresh
  Reach-view (next r s) = Step-view s (Reach-view r)

  -- In every reachable state the session and the rest of the worker keep the gate's contract: at most
  -- one task holds the slot, and the gate is busy exactly if one does.
  pub slot_lem :
      {w : Worker G P}
      → Reach m eq w
      → (holders w.tasks ≤ 1) × ((is_busy w.gate ≡ true) ↔ (holders w.tasks ≡ 1))
  slot_lem {w} r = let o = one_job (Reach-view r) in (o.0, o.1)
