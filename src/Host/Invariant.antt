-- ===== src/Host/Invariant.antt =====
-- What holds of every model in every state that the host (src/host.rs) can reach, whatever its requests,
-- its threads and the disk do and in whatever order.
use studio_worker.Base.{
  ℕ, suc, ◌+◌, ◌≤◌, String, ◌≡◌, ◌≢◌, refl, sym, ap, subst, some, List, [], ◌∷◌, ◌++◌, arith, inl,
  inr, ◌⊎◌, if◌then◌else◌, same, same_iff, same_refl, Bool-cases, Option-cases,
}
use studio_worker.Lifecycle.{
  ModelState, unloaded, loading, loaded, unloading, failed, Command, nothing, begin_load,
  begin_unload, Lifecycle, Outcome, done, broken, Reply, ok, err, UnexpectedEvent, request_load,
  request_unload, load_finished, unload_finished, serves, name,
}
use studio_worker.Residency.{Store, Json, Residency, Saved, changed, persist_failed, is_resident}
use studio_worker.Admission.{Measure, MemoryProbe}
use studio_worker.Catalog.{CatalogModel, find}
use studio_worker.Host.State.{
  Loaded, Task, loader, unloader, drainer, Host, new_entry, entry, status_locked, Load, not_loaded,
  answer, failing,
}
use studio_worker.Host.Threads.{finish_load, finish_unload, load_outcome}
use studio_worker.Host.Requests.{status, status_found, restore_from, restore_residents, answered}
use studio_worker.Host.View.{
  View, loads_in, unloads_in, loads_in-append, unloads_in-append, view, entry-view, view-put-entry,
}
use studio_worker.Host.Effects.{view-settle_load, view-settle_unload, view-begin_drain}
use studio_worker.Host.Keeps.{load-keeps, unload-keeps}
use studio_worker.Host.Threads.{run_task}
use studio_worker.Lifecycle
use studio_worker.Residency
use studio_worker.Host.Steps.{
  Step, loads, unloads, reads, restores, works, disk_changes, Reach, fresh, next, IsGood,
  ask_unload-IsGood, ask_load-IsGood, load_ends-IsGood, unload_ends-IsGood,
}
use studio_worker.Host.Lanes.{lane_of, lane_found}

-- The view without one task, which is about to step.
abbrev pub task_view : Task → String → View → View
task_view (loader id waits) k v = if same id k then record v { loads = suc v.loads } else v
task_view (unloader id lane) k v = if same id k then record v { unloads = suc v.unloads } else v
task_view (drainer id) k v = if same id k then record v { unloads = suc v.unloads } else v

module _ {F : Type 0} where
  pub view-status :
      {G Q : Type 0} (catalog : List (CatalogModel G Q)) (now : ℕ) (id : String) (h : Host F)
      (k : String)
      → view (status catalog now id h).0 k ≡ view h k
  unfolding status status_found answered status_locked
  view-status catalog now id h k = elim (Option-cases (find catalog id)) [
    | inl e ↦ rw (e, status_found) refl
    | inr (x, e) ↦ rw (e, status_found) (view-put-entry h now id k)
  ]

  pub view-disk :
      (h : Host F) (disk : F) (k : String)
      → IsGood (view h k)
      → IsGood (view (record h { disk = disk }) k)
  unfolding view
  view-disk h disk k g = g

  pub view-task :
      (h : Host F) (before after : List Task) (t : Task) (k : String)
      → h.tasks ≡ before ++ t ∷ after
      → view h k ≡ task_view t k (view (record h { tasks = before ++ after }) k)
  unfolding view loads_in unloads_in
  view-task h before after (loader id w) k e = ground (
    arith,
    ap (λ ts. loads_in ts k) e,
    ap (λ ts. unloads_in ts k) e,
    loads_in-append before (loader id w ∷ after) k,
    loads_in-append before after k,
    unloads_in-append before (loader id w ∷ after) k,
    unloads_in-append before after k,
  )
  view-task h before after (unloader id w) k e = ground (
    arith,
    ap (λ ts. loads_in ts k) e,
    ap (λ ts. unloads_in ts k) e,
    loads_in-append before (unloader id w ∷ after) k,
    loads_in-append before after k,
    unloads_in-append before (unloader id w ∷ after) k,
    unloads_in-append before after k,
  )
  view-task h before after (drainer id) k e = ground (
    arith,
    ap (λ ts. loads_in ts k) e,
    ap (λ ts. unloads_in ts k) e,
    loads_in-append before (drainer id ∷ after) k,
    loads_in-append before after k,
    unloads_in-append before (drainer id ∷ after) k,
    unloads_in-append before after k,
  )

  finish_load-IsGood :
      (h : Host F) (now : ℕ) (id : String) (r : Load) (k : String)
      → IsGood (if same id k then record (view h k) { loads = suc (view h k).loads } else view h k)
      → IsGood (view (finish_load h now id r) k)
  unfolding finish_load
  finish_load-IsGood h now id r k g =
      let (l, reply) = load_finished (load_outcome r) (entry h now id).lifecycle in
      rw (view-settle_load reply l h now id r k, (entry-view h now id).0)
        (elim (Bool-cases (same id k)) [
          | inl e ↦
              rw (e, (same_iff id k).0 e) (load_ends-IsGood r h.next_lane (view h k) (rw e at g))
          | inr e ↦ rw e (rw e at g)
        ])

  finish_unload-IsGood :
      (h : Host F) (now : ℕ) (id k : String)
      → IsGood
          (if same id k then record (view h k) { unloads = suc (view h k).unloads } else view h k)
      → IsGood (view (finish_unload h now id) k)
  unfolding finish_unload
  finish_unload-IsGood h now id k g =
      let (l, reply) = unload_finished done (entry h now id).lifecycle in
      rw (view-settle_unload reply l h now id k, (entry-view h now id).0)
        (elim (Bool-cases (same id k)) [
          | inl e ↦ rw (e, (same_iff id k).0 e) (unload_ends-IsGood (view h k) (rw e at g))
          | inr e ↦ rw e (rw e at g)
        ])

  run_task-IsGood :
      (t : Task) (h : Host F) (now : ℕ) (r : Load) (k : String)
      → IsGood (task_view t k (view h k))
      → IsGood (view (run_task t now r h) k)
  unfolding run_task
  run_task-IsGood (loader id w) h now r k g = finish_load-IsGood h now id r k g
  run_task-IsGood (unloader id lane) h now r k g =
      subst IsGood (sym (view-begin_drain h id lane k)) g
  run_task-IsGood (drainer id) h now r k g = finish_unload-IsGood h now id k g

one_at_work : (v : View) → IsGood v → v.loads + v.unloads ≤ 1
one_at_work v g = ground arith

load_expected :
    (v : View) (o : Outcome) (l : Lifecycle) (e : UnexpectedEvent)
    → IsGood v
    → v.loads ≢ 0
    → load_finished o v.life ≢ (l, err e)
unfolding load_finished
load_expected v o l e g n q = ground arith

unload_expected :
    (v : View) (o : Outcome) (l : Lifecycle) (e : UnexpectedEvent)
    → IsGood v
    → v.unloads ≢ 0
    → unload_finished o v.life ≢ (l, err e)
unfolding unload_finished
unload_expected v o l e g n q = ground arith

lane_found_cases :
    {G : Type 0} (v : View) (k : String)
    → IsGood v
    → ((v.life.state ≡ loaded)
        × ((w : Loaded) × (v.weights ≡ some w)
            × (lane_found {G = G} v.weights v.life.state k ≡ answer w)))
      ⊎ ((v.life.state ≢ loaded)
          × (lane_found {G = G} v.weights v.life.state k
              ≡ failing (not_loaded k (name v.life.state))))
unfolding lane_found serves
lane_found_cases v k g = elim (Option-cases v.weights) [
  | inl e ↦ inr (ground arith, ground arith)
  | inr (w, e) ↦ elim (g.freed (ground arith)) [
    | inl q ↦ inl (q, (w, e, ground arith))
    | inr q ↦ inr (ground arith, ground arith)
  ]
]

module _ {G Q F : Type 0} (m : Measure G) (st : Store F) (js : Json) where
  restore_from-IsGood :
      (at : String → ℕ × MemoryProbe G) (catalog : List (CatalogModel G Q)) (ids : List String)
      (xs : List (CatalogModel G Q)) (h : Host F) (k : String)
      → IsGood (view h k)
      → IsGood (view (restore_from m st js at catalog ids xs h) k)
  unfolding restore_from
  restore_from-IsGood at catalog ids [] h k g = g
  restore_from-IsGood at catalog ids (x ∷ xs) h k g =
      restore_from-IsGood at catalog ids xs _ k (elim (Bool-cases (Residency.contains ids x.id)) [
        | inl e ↦ rw e (
            load-keeps st js k IsGood ask_unload-IsGood ask_load-IsGood m (at x.id).1 catalog
              (at x.id).0 x.id h g)
        | inr e ↦ rw e g
      ])

  Step-IsGood :
      {catalog : List (CatalogModel G Q)} {h h' : Host F} (k : String)
      → Step m st js catalog h h'
      → IsGood (view h k)
      → IsGood (view h' k)
  unfolding restore_residents
  Step-IsGood {catalog} k (loads h probe now id) g =
      load-keeps st js k IsGood ask_unload-IsGood ask_load-IsGood m probe catalog now id h g
  Step-IsGood {catalog} k (unloads h now id) g =
      unload-keeps st js k IsGood ask_unload-IsGood catalog now id h g
  Step-IsGood {catalog} k (reads h now id) g = subst IsGood (sym (view-status catalog now id h k)) g
  Step-IsGood {catalog} k (restores h at) g =
      restore_from-IsGood at catalog h.residency.resident catalog h k g
  Step-IsGood k (works h before after t now r e) g =
      run_task-IsGood t (record h { tasks = before ++ after }) now r k
        (rw (view-task h before after t k e) at g)
  Step-IsGood k (disk_changes h disk) g = view-disk h disk k g

  Reach-IsGood :
      {Ok : List (CatalogModel G Q) → Type 0} {h : Host F} (k : String)
      → Reach m st js Ok h
      → IsGood (view h k)
  unfolding view new_entry loads_in unloads_in Lifecycle.new
  Reach-IsGood k (fresh residency disk) = ground arith
  Reach-IsGood k (next catalog okay r s) = Step-IsGood k s (Reach-IsGood k r)

  -- Whatever is requested, in whatever order threads, disk and catalogue act, a model never has two
  -- loads or unloads at work at once; a thread that finishes a load or an unload finds the model in
  -- the state that started it, so its finish event is answered by a command and not by
  -- `UnexpectedEvent`.
  pub host_finish_expected :
      {Ok : List (CatalogModel G Q) → Type 0} {h : Host F} (k : String) (before after : List Task)
      (t : Task) (o : Outcome) (l : Lifecycle) (e : UnexpectedEvent)
      → Reach m st js Ok h
      → h.tasks ≡ before ++ t ∷ after
      → (loads_in h.tasks k + unloads_in h.tasks k ≤ 1)
        × ((w : List String) → t ≡ loader k w → load_finished o (view h k).life ≢ (l, err e))
        × (t ≡ drainer k → unload_finished o (view h k).life ≢ (l, err e))
  unfolding view
  host_finish_expected {h} k before after t o l e r q =
      let g = Reach-IsGood k r in
      let h0 = record h { tasks = before ++ after } in
      (
        one_at_work (view h k) g,
        (λ w s.
            load_expected (view h k) o l e g
              (ground (arith, view-task h before after t k q, same_refl k))),
        (λ s.
            unload_expected (view h k) o l e g
              (ground (arith, view-task h before after t k q, same_refl k))),
      )

  -- In any reachable state a model answers a request for its lane, with its weights, exactly when
  -- it is loaded; otherwise the request fails with the name of the model's state.
  pub lane_of_iff :
      {Ok : List (CatalogModel G Q) → Type 0} {h : Host F} (now : ℕ) (k : String)
      → Reach m st js Ok h
      → (((view h k).life.state ≡ loaded)
          × ((w : Loaded) × ((view h k).weights ≡ some w)
              × ((lane_of {G = G} h now k).1 ≡ answer w)))
        ⊎ (((view h k).life.state ≢ loaded)
            × ((lane_of {G = G} h now k).1 ≡ failing (not_loaded k (name (view h k).life.state))))
  unfolding lane_of
  lane_of_iff {h} now k r =
      rw ((entry-view h now k).0, (entry-view h now k).1)
        (lane_found_cases (view h k) k (Reach-IsGood k r))
