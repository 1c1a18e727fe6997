-- ===== src/Studio/Settling.antt =====
-- A studio session that is left alone comes to rest (src/ws/session.rs).
use studio_worker.Base.{
  ℕ, zero, ◌≤◌, suc, ◌+◌, Bool, true, false, not, ◌≡◌, refl, ap, ◌∙◌, none, List, [], ◌∷◌, arith,
  inl, inr, Option-cases,
}
use studio_worker.Admission.{Measure}
use studio_worker.Catalog.{CatalogModel}
use studio_worker.JobGate.{is_busy}
use studio_worker.Studio.Frames.{Job, Delivery, delivery_of, upload, json}
use studio_worker.Studio.Worker.{
  Task, rejecting, accepting, running, delivering, reporting, releasing, elsewhere, Worker,
}
use studio_worker.Studio.Tasks.{
  Answer, EngineEnd, produced, broke, panicked, deliver_result, dispatched, run_task,
}
use studio_worker.Studio.Steps.{runs, with_tasks, holders, begun, Reach, next}
use studio_worker.Studio.Promises.{total, total-append}
use studio_worker.Studio.Gate.{slot_lem}
use studio_worker.Studio.Listed.{studio_ids}
use studio_worker.Studio.Jobs.{head?, Reach-SaysJob}

-- How many awaits a task has left, at most.
abbrev pub awaits : Task → ℕ
awaits (rejecting id code) = 1
awaits (accepting job) = 5
awaits (running job) = 4
awaits (delivering job result) = 3
awaits (reporting job err retryable) = 2
awaits releasing = 1
awaits elsewhere = 1

nothing_left : (ts : List Task) → total awaits ts ≤ 0 → ts ≡ []
unfolding total
nothing_left [] h = refl
nothing_left (rejecting id code ∷ ts) h = absurd (omega (arith, h))
nothing_left (accepting job ∷ ts) h = absurd (omega (arith, h))
nothing_left (running job ∷ ts) h = absurd (omega (arith, h))
nothing_left (delivering job result ∷ ts) h = absurd (omega (arith, h))
nothing_left (reporting job err retryable ∷ ts) h = absurd (omega (arith, h))
nothing_left (releasing ∷ ts) h = absurd (omega (arith, h))
nothing_left (elsewhere ∷ ts) h = absurd (omega (arith, h))

module _ {G P : Type 0} where
  dispatched-awaits :
      (e : EngineEnd) (job : Job) (w : Worker G P)
      → total awaits (dispatched e job w).tasks ≤ 3 + total awaits w.tasks
  unfolding dispatched total
  dispatched-awaits (produced result) job w =
      omega (arith, total-append awaits w.tasks (delivering job result ∷ []))
  dispatched-awaits (broke err permanent) job w =
      omega (arith, total-append awaits w.tasks (reporting job err (not permanent) ∷ []))
  dispatched-awaits (panicked err) job w =
      omega (arith, total-append awaits w.tasks (reporting job err true ∷ []))

  deliver_result-awaits :
      (d : Delivery) (job : Job) (a : Answer) (w : Worker G P)
      → total awaits (deliver_result d job a w).tasks ≤ 2 + total awaits w.tasks
  unfolding deliver_result total
  deliver_result-awaits (upload output) job a w = elim (Option-cases a.upload_error) [
    | inl e ↦ ground (arith, e, total-append awaits w.tasks (releasing ∷ []))
    | inr (err, e) ↦ ground (arith, e, total-append awaits w.tasks (reporting job err true ∷ []))
  ]
  deliver_result-awaits (json text) job a w =
      ground (arith, total-append awaits w.tasks (releasing ∷ []))

  -- Whatever the outside answers, a step brings its task nearer to its end.
  run_task-awaits :
      (t : Task) (a : Answer) (w : Worker G P)
      → total awaits (run_task t a w).tasks + 1 ≤ awaits t + total awaits w.tasks
  unfolding run_task total
  run_task-awaits (rejecting job_id code) a w = omega arith
  run_task-awaits (accepting job) a w =
      ground (arith, total-append awaits w.tasks (running job ∷ []))
  run_task-awaits (running job) a w = omega (arith, dispatched-awaits a.engine job w)
  run_task-awaits (delivering job result) a w =
      omega (arith, deliver_result-awaits (delivery_of result job.prompt) job a w)
  run_task-awaits (reporting job err retryable) a w =
      omega (arith, total-append awaits w.tasks (releasing ∷ []))
  run_task-awaits releasing a w = omega arith
  run_task-awaits elsewhere a w = omega arith

  -- The first task takes its next step.
  abbrev pub turn : Answer → List Task → Worker G P → Worker G P
  turn a [] w = w
  turn a (t ∷ ts) w = run_task t a (with_tasks ts w)

  -- Nothing more is offered or set: the tasks take their steps, `rounds` of them.
  unfoldable pub settle : ℕ → (ℕ → Answer) → Worker G P → Worker G P
  settle zero outside w = w
  settle (suc rounds) outside w = settle rounds outside (turn (outside rounds) w.tasks w)

  turn-awaits :
      (rounds : ℕ) (a : Answer) (ts : List Task) (w : Worker G P)
      → w.tasks ≡ ts
      → total awaits ts ≤ suc rounds
      → total awaits (turn a ts w).tasks ≤ rounds
  unfolding total with_tasks
  turn-awaits rounds a [] w e h = rw e (omega arith)
  turn-awaits rounds a (t ∷ ts) w e h = omega (arith, h, run_task-awaits t a (with_tasks ts w))

  settle-tasks :
      (rounds : ℕ) (outside : ℕ → Answer) (w : Worker G P)
      → total awaits w.tasks ≤ rounds
      → (settle rounds outside w).tasks ≡ []
  unfolding settle
  settle-tasks zero outside w h = nothing_left w.tasks h
  settle-tasks (suc rounds) outside w h =
      settle-tasks rounds outside (turn (outside rounds) w.tasks w)
        (turn-awaits rounds (outside rounds) w.tasks w refl h)

module _ {G P : Type 0} (m : Measure G) (eq : CatalogModel G P → CatalogModel G P → Bool) where
  turn-Reach :
      (a : Answer) (ts : List Task) (w : Worker G P)
      → w.tasks ≡ ts
      → Reach m eq w
      → Reach m eq (turn a ts w)
  turn-Reach a [] w e r = r
  turn-Reach a (t ∷ ts) w e r = next r (runs t a [] ts w e)

  settle-Reach :
      (rounds : ℕ) (outside : ℕ → Answer) (w : Worker G P)
      → Reach m eq w
      → Reach m eq (settle rounds outside w)
  unfolding settle
  settle-Reach zero outside w r = r
  settle-Reach (suc rounds) outside w r =
      settle-Reach rounds outside (turn (outside rounds) w.tasks w)
        (turn-Reach (outside rounds) w.tasks w refl r)

  -- From every reachable state, whatever frames are lost, uploads fail and engines break or panic, if
  -- all of them answer: when the tasks have taken as many steps as they have awaits left, none is
  -- left, the slot is free, there is no current job, and no studio job is listed as running.
  pub settle_lem :
      (outside : ℕ → Answer) {w : Worker G P}
      → Reach m eq w
      → let v = settle (total awaits w.tasks) outside w in
        (v.tasks ≡ [])
        × (is_busy v.gate ≡ false)
        × (v.current_job ≡ none)
        × (studio_ids v.active_jobs ≡ [])
  unfolding holders begun
  settle_lem outside {w} r =
      let v = settle (total awaits w.tasks) outside w in
      let e : v.tasks ≡ [] = settle-tasks (total awaits w.tasks) outside w (omega arith) in
      let reached = settle-Reach (total awaits w.tasks) outside w r in
      let says = Reach-SaysJob m eq reached in
      let free : is_busy v.gate ≡ false = ground (arith, slot_lem m eq reached, ap holders e) in
      (e, free, says.0 ∙ ap (λ ts. head? (begun ts)) e, says.1 ∙ ap begun e)
