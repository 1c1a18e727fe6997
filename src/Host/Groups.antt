-- ===== src/Host/Groups.antt =====
-- Exclusive groups (src/host.rs, `load`): of the models of one group, at most one is loaded or on its way.
use studio_worker.Base.{
  ℕ, String, Bool, true, false, not, ◌≡◌, ap, Option, some, List, [], ◌∷◌, ◌++◌, arith, inl, inr,
  same, same_iff, Bool-cases, Option-cases,
}
use studio_worker.Lifecycle.{
  ModelState, unloaded, loading, loaded, unloading, failed, Command, nothing, begin_load,
  begin_unload, Lifecycle, Outcome, done, broken, Reply, ok, err, UnexpectedEvent, request_load,
  request_unload, load_finished, unload_finished, serves, name,
}
use studio_worker.Residency.{Store, Json, Residency, Saved, changed, persist_failed, is_resident}
use studio_worker.Admission.{Measure}
use studio_worker.Catalog.{CatalogModel, find}
use studio_worker.Host.State.{
  Task, loader, unloader, drainer, Host, new_entry, or_new, entry, request_unload_locked, Load,
  weights, failure,
}
use studio_worker.Host.Threads.{finish_load, begin_drain, finish_unload, load_outcome, load_result}
use studio_worker.Host.Requests.{set_residency, swap}
use studio_worker.Host.View.{
  View, ask_unload, load_ends, unload_ends, view, entry-view, view-request_unload_locked,
}
use studio_worker.Host.Effects.{view-settle_load, view-settle_unload, view-begin_drain}
use studio_worker.Host.Threads.{run_task}
use studio_worker.Lifecycle
use studio_worker.Residency
use studio_worker.Host.Keeps.{on_saved_cases, swap-keeps}
use studio_worker.Host.Requests.{members, is_incoming, entry_is, same_group}

-- A model that is loaded, or loading with no unload behind it.
abbrev pub wanted_in : ModelState → Bool → Bool
wanted_in loaded pending = true
wanted_in loading pending = not pending
wanted_in _ pending = false

abbrev pub wanted : Lifecycle → Bool
wanted l = wanted_in l.state l.unload_pending

abbrev pub IsAsleep : View → Type 0
IsAsleep v = wanted v.life ≡ false

pub ask_unload-IsAsleep : (v : View) → IsAsleep (ask_unload v)
unfolding request_unload
ask_unload-IsAsleep v = ground arith

load_ends-IsAsleep :
    (r : Load) (lane : ℕ) (v : View)
    → IsAsleep v
    → let (l, reply) = load_finished (load_outcome r) v.life in
      IsAsleep (load_ends reply l (load_result r lane) v)
unfolding load_finished load_outcome load_result
load_ends-IsAsleep (weights w) lane v a = ground arith
load_ends-IsAsleep (failure w) lane v a = ground arith

unload_ends-IsAsleep :
    (v : View)
    → IsAsleep v
    → let (l, reply) = unload_finished done v.life in IsAsleep (unload_ends reply l v)
unfolding unload_finished
unload_ends-IsAsleep v a = ground arith

module _ {F : Type 0} where
  -- A model awake is one that `swap_out` looks for.
  pub awake_is_incoming :
      (h : Host F) (k : String)
      → wanted (view h k).life ≡ true
      → entry_is is_incoming (h.entries k) ≡ true
  unfolding view is_incoming new_entry Lifecycle.new
  awake_is_incoming h k a = elim (Option-cases (h.entries k)) [
    | inl e ↦ ground arith
    | inr (x, e) ↦ rw e (ground (arith, ap (λ o. wanted (or_new o 0).lifecycle) e))
  ]

  pub members_has :
      {G Q : Type 0} (m : Measure G) (h : Host F) (id group k : String)
      (catalog : List (CatalogModel G Q)) (x : CatalogModel G Q)
      → find catalog k ≡ some x
      → x.exclusive_group ≡ some group
      → same k id ≡ false
      → entry_is is_incoming (h.entries k) ≡ true
      → Residency.contains (members m h id group catalog) k ≡ true
  unfolding members find Residency.contains same_group
  members_has m h id group k [] x f g n i = cc
  members_has m h id group k (y ∷ ys) x f g n i = elim (Bool-cases (same y.id k)) [
    | inl e ↦ ground (arith, same_iff y.id k, same_iff group group)
    | inr e ↦ ground (arith, members_has m h id group k ys x (ground arith) g n i)
  ]

  finish_load-IsAsleep :
      (h : Host F) (now : ℕ) (id : String) (r : Load) (k : String)
      → IsAsleep (view h k)
      → IsAsleep (view (finish_load h now id r) k)
  unfolding finish_load
  finish_load-IsAsleep h now id r k a =
      let (l, reply) = load_finished (load_outcome r) (entry h now id).lifecycle in
      rw (view-settle_load reply l h now id r k, (entry-view h now id).0)
        (elim (Bool-cases (same id k)) [
          | inl e ↦ rw (e, (same_iff id k).0 e) (load_ends-IsAsleep r h.next_lane (view h k) a)
          | inr e ↦ rw e a
        ])

  finish_unload-IsAsleep :
      (h : Host F) (now : ℕ) (id k : String)
      → IsAsleep (view h k)
      → IsAsleep (view (finish_unload h now id) k)
  unfolding finish_unload
  finish_unload-IsAsleep h now id k a =
      let (l, reply) = unload_finished done (entry h now id).lifecycle in
      rw (view-settle_unload reply l h now id k, (entry-view h now id).0)
        (elim (Bool-cases (same id k)) [
          | inl e ↦ rw (e, (same_iff id k).0 e) (unload_ends-IsAsleep (view h k) a)
          | inr e ↦ rw e a
        ])

  begin_drain-IsAsleep :
      (h : Host F) (id : String) (lane : Option ℕ) (k : String)
      → IsAsleep (view h k)
      → IsAsleep (view (begin_drain h id lane) k)
  begin_drain-IsAsleep h id lane k a = rw (view-begin_drain h id lane k) (ground arith)

  pub run_task-IsAsleep :
      (t : Task) (h : Host F) (now : ℕ) (r : Load) (k : String)
      → IsAsleep (view h k)
      → IsAsleep (view (run_task t now r h) k)
  unfolding run_task
  run_task-IsAsleep (loader id w) h now r k a = finish_load-IsAsleep h now id r k a
  run_task-IsAsleep (unloader id lane) h now r k a = begin_drain-IsAsleep h id lane k a
  run_task-IsAsleep (drainer id) h now r k a = finish_unload-IsAsleep h now id k a

  pub without_task-IsAsleep :
      (h : Host F) (before after : List Task) (t : Task) (k : String)
      → h.tasks ≡ before ++ t ∷ after
      → IsAsleep (view h k)
      → IsAsleep (view (record h { tasks = before ++ after }) k)
  unfolding view
  without_task-IsAsleep h before after t k e a = a

  module _ (st : Store F) (js : Json) where
    -- A swap that goes through leaves each model that it names asleep.
    pub swap-clears :
        (h : Host F) (now : ℕ) (os : List String) (k : String) (b : Bool)
        → Residency.contains os k ≡ true
        → (swap st js h now os).1 ≡ changed b
        → IsAsleep (view (swap st js h now os).0 k)
    unfolding swap Residency.contains
    swap-clears h now [] k b c = cc
    swap-clears h now (o ∷ os) k b c =
        let h1 = (set_residency st js o false h).0 in
        let h2 = request_unload_locked h1 now o in
        on_saved_cases {A = Host F × Saved} (λ x. x.1 ≡ changed b → IsAsleep (view x.0 k))
          (set_residency st js o false h) _ _
          (elim (Bool-cases (same o k)) [
            | inl hit ↦ λ e.
                swap-keeps st js k IsAsleep (λ v a. ask_unload-IsAsleep v) h2 now os
                  (rw (view-request_unload_locked h1 now o k, hit)
                    (ask_unload-IsAsleep (view h1 k)))
            | inr miss ↦ swap-clears h2 now os k b (rw miss at c)
          ])
          (λ e. cc)
