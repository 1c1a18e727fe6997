-- ===== src/Host/Steps.antt =====
-- The steps that the daemon's model host (src/host.rs) can take, and what holds of the view of one model.
use studio_worker.Base.{ℕ, suc, String, true, ◌≡◌, ◌≢◌, none, List, [], ◌∷◌, ◌++◌, arith, ◌⊎◌}
use studio_worker.Lifecycle.{
  ModelState, loading, loaded, unloading, done, request_load, request_unload, load_finished,
  unload_finished,
}
use studio_worker.Residency.{Store, Json, Residency}
use studio_worker.Admission.{Measure, MemoryProbe}
use studio_worker.Catalog.{CatalogModel}
use studio_worker.Host.State.{Task, Host, Load, weights, failure}
use studio_worker.Host.Threads.{load_outcome, load_result}
use studio_worker.Host.Requests.{load, unload, status, restore_residents}
use studio_worker.Host.View.{View, ask_unload, ask_load, load_ends, unload_ends}
use studio_worker.Host.Threads.{run_task}

module _ {G Q F : Type 0} (m : Measure G) (st : Store F) (js : Json) where
  -- One step of the daemon, each with the catalogue that it sees: a call, a thread that goes on, or
  -- a change of the disk by others.
  pub data Step (catalog : List (CatalogModel G Q)) : Host F → Host F → Type 0 where
    loads :
        (h : Host F) (probe : MemoryProbe G) (now : ℕ) (id : String)
        → Step catalog h (load m st js probe catalog now id h).0
    unloads :
        (h : Host F) (now : ℕ) (id : String) → Step catalog h (unload st js catalog now id h).0
    reads : (h : Host F) (now : ℕ) (id : String) → Step catalog h (status catalog now id h).0
    restores :
        (h : Host F) (at : String → ℕ × MemoryProbe G)
        → Step catalog h (restore_residents m st js at catalog h)
    works :
        (h : Host F) (before after : List Task) (t : Task) (now : ℕ) (result : Load)
        → h.tasks ≡ before ++ t ∷ after
        → Step catalog h (run_task t now result (record h { tasks = before ++ after }))
    disk_changes : (h : Host F) (disk : F) → Step catalog h (record h { disk = disk })

  -- `ModelHost::new`, and what its steps lead to while every catalogue seen satisfies `Ok`.
  pub data Reach (Ok : List (CatalogModel G Q) → Type 0) : Host F → Type 0 where
    fresh :
        (residency : Residency) (disk : F)
        → Reach Ok (record {
          entries = λ k. none;
          residency = residency;
          disk = disk;
          tasks = [];
          cancelled = [];
          next_lane = 0;
          published = [];
        })
    next :
        {h h' : Host F} (catalog : List (CatalogModel G Q))
        → Ok catalog
        → Reach Ok h
        → Step catalog h h'
        → Reach Ok h'

-- The threads that a state accounts for.
abbrev pub loads_of : ModelState → ℕ
loads_of loading = 1
loads_of _ = 0

abbrev pub unloads_of : ModelState → ℕ
unloads_of unloading = 1
unloads_of _ = 0

pub record IsGood (v : View) : Type 0 where
  pub loads : v.loads ≡ loads_of v.life.state
  pub unloads : v.unloads ≡ unloads_of v.life.state
  pub well : v.life.unload_pending ≡ true → v.life.state ≡ loading
  pub held : v.life.state ≡ loaded → v.weights ≢ none
  pub freed : v.weights ≢ none → (v.life.state ≡ loaded) ⊎ (v.life.state ≡ unloading)

pub ask_unload-IsGood : (v : View) → IsGood v → IsGood (ask_unload v)
unfolding request_unload
ask_unload-IsGood v g = ground arith

pub ask_load-IsGood : (v : View) → IsGood v → IsGood (ask_load v)
unfolding request_load
ask_load-IsGood v g = ground arith

pub load_ends-IsGood :
    (r : Load) (lane : ℕ) (v : View)
    → IsGood (record v { loads = suc v.loads })
    → let (l, reply) = load_finished (load_outcome r) v.life in
      IsGood (load_ends reply l (load_result r lane) v)
unfolding load_finished load_outcome load_result
load_ends-IsGood (weights w) lane v g = ground arith
load_ends-IsGood (failure reason) lane v g = ground arith

pub unload_ends-IsGood :
    (v : View)
    → IsGood (record v { unloads = suc v.unloads })
    → let (l, reply) = unload_finished done v.life in IsGood (unload_ends reply l v)
unfolding unload_finished
unload_ends-IsGood v g = ground arith
