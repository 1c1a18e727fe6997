-- ===== src/Host/View.antt =====
-- The host (src/host.rs) seen at one model: its lifecycle, its weights and the threads at work on it,
-- and what each operation does to that view.
use studio_worker.Base.{
  ℕ, suc, ◌+◌, String, ◌≡◌, Option, none, List, [], ◌∷◌, ◌++◌, arith, if◌then◌else◌, same, same_iff,
}
use studio_worker.Lifecycle.{
  ModelState, Command, nothing, begin_load, begin_unload, Lifecycle, Reply, ok, err, request_load,
  request_unload,
}
use studio_worker.Host.State.{
  Loaded, Entry, Task, loader, unloader, drainer, Host, new_entry, or_new, entry, lane_in, put,
  after_transition, spawn_unload, then_unload, request_unload_locked,
}

pub record View : Type 0 where
  pub life : Lifecycle
  pub weights : Option Loaded
  pub loads : ℕ
  pub unloads : ℕ

-- The threads that load, and that unload, the model `k`.
unfoldable pub loads_in : List Task → String → ℕ
loads_in [] k = 0
loads_in (loader id waits ∷ ts) k = (if same id k then 1 else 0) + loads_in ts k
loads_in (unloader id lane ∷ ts) k = loads_in ts k
loads_in (drainer id ∷ ts) k = loads_in ts k

unfoldable pub unloads_in : List Task → String → ℕ
unloads_in [] k = 0
unloads_in (loader id waits ∷ ts) k = unloads_in ts k
unloads_in (unloader id lane ∷ ts) k = (if same id k then 1 else 0) + unloads_in ts k
unloads_in (drainer id ∷ ts) k = (if same id k then 1 else 0) + unloads_in ts k

pub loads_in-append :
    (ts us : List Task) (k : String) → loads_in (ts ++ us) k ≡ loads_in ts k + loads_in us k
unfolding loads_in
loads_in-append [] us k = omega arith
loads_in-append (loader id w ∷ ts) us k = omega (arith, loads_in-append ts us k)
loads_in-append (unloader id l ∷ ts) us k = omega (arith, loads_in-append ts us k)
loads_in-append (drainer id ∷ ts) us k = omega (arith, loads_in-append ts us k)

pub unloads_in-append :
    (ts us : List Task) (k : String) → unloads_in (ts ++ us) k ≡ unloads_in ts k + unloads_in us k
unfolding unloads_in
unloads_in-append [] us k = omega arith
unloads_in-append (loader id w ∷ ts) us k = omega (arith, unloads_in-append ts us k)
unloads_in-append (unloader id l ∷ ts) us k = omega (arith, unloads_in-append ts us k)
unloads_in-append (drainer id ∷ ts) us k = omega (arith, unloads_in-append ts us k)

-- A command's unload, at the model.
abbrev pub unload_more : Command → View → View
unload_more begin_unload v = record v { unloads = suc v.unloads }
unload_more begin_load v = v
unload_more nothing v = v

-- A command's load, at the model.
abbrev pub load_more : Command → View → View
load_more begin_load v = record v { loads = suc v.loads }
load_more begin_unload v = v
load_more nothing v = v

-- A request to unload, and one to load, at the model.
abbrev pub ask_unload : View → View
ask_unload v = unload_more (request_unload v.life).1 (record v { life = (request_unload v.life).0 })

abbrev pub ask_load : View → View
ask_load v = load_more (request_load v.life).1 (record v { life = (request_load v.life).0 })

-- The end of a load that brought `w`, and the end of an unload, at the model.
abbrev pub load_ends : Reply → Lifecycle → Option Loaded → View → View
load_ends (ok c) l w v = unload_more c (record v { life = l; weights = w })
load_ends (err e) l w v = v

abbrev pub unload_ends : Reply → Lifecycle → View → View
unload_ends (ok c) l v = record v { life = l; weights = none }
unload_ends (err e) l v = record v { weights = none }

module _ {F : Type 0} where
  -- What the host holds for the model `k`; a model without an entry reads as a new one.
  unfoldable pub view : Host F → String → View
  unfolding new_entry
  view h k = record {
    life = (or_new (h.entries k) 0).lifecycle;
    weights = (or_new (h.entries k) 0).loaded;
    loads = loads_in h.tasks k;
    unloads = unloads_in h.tasks k;
  }

  pub entry-view :
      (h : Host F) (now : ℕ) (k : String)
      → ((entry h now k).lifecycle ≡ (view h k).life)
        × ((entry h now k).loaded ≡ (view h k).weights)
  unfolding entry view
  entry-view h now k = ground arith

  pub view-put :
      (h : Host F) (id : String) (e : Entry) (k : String)
      → view (put h id e) k ≡ (
          if same id k
          then record (view h k) { life = e.lifecycle; weights = e.loaded }
          else view h k)
  unfolding view put
  view-put h id e k = ground (arith, same_iff id k)

  pub view-put-entry :
      (h : Host F) (now : ℕ) (id k : String) → view (put h id (entry h now id)) k ≡ view h k
  view-put-entry h now id k =
      ground (arith, view-put h id (entry h now id) k, entry-view h now id, same_iff id k)

  pub view-after_transition :
      (h : Host F) (now : ℕ) (id : String) (from : ModelState) (k : String)
      → view (after_transition h now id from) k ≡ view h k
  unfolding after_transition view put
  view-after_transition h now id from k = ground (arith, same_iff id k)

  pub view-spawn_unload :
      (h : Host F) (now : ℕ) (id k : String)
      → view (spawn_unload h now id) k
        ≡ (if same id k then record (view h k) { unloads = suc (view h k).unloads } else view h k)
  unfolding view spawn_unload loads_in unloads_in
  view-spawn_unload h now id k = ground (
    arith,
    loads_in-append h.tasks (unloader id (lane_in (entry h now id).loaded) ∷ []) k,
    unloads_in-append h.tasks (unloader id (lane_in (entry h now id).loaded) ∷ []) k,
  )

  pub view-then_unload :
      (c : Command) (h : Host F) (now : ℕ) (id k : String)
      → view (then_unload c now id h) k ≡ (if same id k then unload_more c (view h k) else view h k)
  unfolding then_unload
  view-then_unload begin_unload h now id k = view-spawn_unload h now id k
  view-then_unload begin_load h now id k = ground arith
  view-then_unload nothing h now id k = ground arith

  pub view-request_unload_locked :
      (h : Host F) (now : ℕ) (id k : String)
      → view (request_unload_locked h now id) k
        ≡ (if same id k then ask_unload (view h k) else view h k)
  unfolding request_unload_locked
  view-request_unload_locked h now id k =
      let e = entry h now id in
      let l = (request_unload e.lifecycle).0 in
      let h1 = put h id (record e { lifecycle = l }) in
      let h2 = after_transition h1 now id e.lifecycle.state in
      ground (
        arith,
        view-then_unload (request_unload e.lifecycle).1 h2 now id k,
        view-after_transition h1 now id e.lifecycle.state k,
        view-put h id (record e { lifecycle = l }) k,
        entry-view h now id,
        same_iff id k,
      )
