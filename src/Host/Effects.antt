-- ===== src/Host/Effects.antt =====
-- What the ends of loads and unloads, and the requests, do to the view of one model (src/host.rs).
use studio_worker.Base.{
  ℕ, suc, String, Bool, ◌≡◌, refl, Option, none, some, List, [], ◌∷◌, arith, if◌then◌else◌, same,
  same_iff,
}
use studio_worker.Lifecycle.{
  Command, nothing, begin_load, begin_unload, Lifecycle, Reply, ok, err, request_load,
}
use studio_worker.Residency.{Store, Json}
use studio_worker.Host.State.{
  loader, drainer, Host, entry, put, status_locked, after_transition, spawn_load, Load, weights,
  failure,
}
use studio_worker.Host.Threads.{
  begin_drain, settle_load, settle_unload, fresh_lane, cancel_lane, load_result,
}
use studio_worker.Host.Requests.{spawn_if, set_residency, start_load}
use studio_worker.Host.View.{
  loads_in, unloads_in, loads_in-append, unloads_in-append, load_more, ask_load, load_ends,
  unload_ends, view, entry-view, view-put, view-put-entry, view-after_transition, view-then_unload,
}

module _ {F : Type 0} where
  view-fresh_lane : (r : Load) (h : Host F) (k : String) → view (fresh_lane r h) k ≡ view h k
  unfolding fresh_lane view
  view-fresh_lane (weights w) h k = refl
  view-fresh_lane (failure w) h k = refl

  pub view-settle_load :
      (reply : Reply) (l : Lifecycle) (h : Host F) (now : ℕ) (id : String) (r : Load) (k : String)
      → view (settle_load reply l now id r h) k
        ≡ (if same id k then load_ends reply l (load_result r h.next_lane) (view h k) else view h k)
  unfolding settle_load
  view-settle_load (ok c) l h now id r k =
      let e = entry h now id in
      let h1 = put h id (record e { lifecycle = l; loaded = load_result r h.next_lane }) in
      let h2 = fresh_lane r h1 in
      let h3 = after_transition h2 now id e.lifecycle.state in
      ground (
        arith,
        view-then_unload c h3 now id k,
        view-after_transition h2 now id e.lifecycle.state k,
        view-fresh_lane r h1 k,
        view-put h id (record e { lifecycle = l; loaded = load_result r h.next_lane }) k,
        same_iff id k,
      )
  view-settle_load (err e) l h now id r k =
      ground (arith, view-fresh_lane r (put h id (entry h now id)) k, view-put-entry h now id k)

  pub view-settle_unload :
      (reply : Reply) (l : Lifecycle) (h : Host F) (now : ℕ) (id k : String)
      → view (settle_unload reply l now id h) k
        ≡ (if same id k then unload_ends reply l (view h k) else view h k)
  unfolding settle_unload
  view-settle_unload (ok c) l h now id k =
      let e = entry h now id in
      let e' = record e { lifecycle = l; loaded = none } in
      ground (
        arith,
        view-after_transition (put h id e') now id e.lifecycle.state k,
        view-put h id e' k,
        same_iff id k,
      )
  view-settle_unload (err e) l h now id k =
      let e' = record (entry h now id) { loaded = none } in
      ground (arith, view-put h id e' k, entry-view h now id, same_iff id k)

  view-cancel_lane : (o : Option ℕ) (h : Host F) (k : String) → view (cancel_lane o h) k ≡ view h k
  unfolding cancel_lane view
  view-cancel_lane none h k = refl
  view-cancel_lane (some lane) h k = refl

  pub view-begin_drain :
      (h : Host F) (id : String) (lane : Option ℕ) (k : String)
      → view (begin_drain h id lane) k
        ≡ (if same id k then record (view h k) { unloads = suc (view h k).unloads } else view h k)
  unfolding begin_drain view loads_in unloads_in cancel_lane
  view-begin_drain h id none k = ground (
    arith,
    loads_in-append h.tasks (drainer id ∷ []) k,
    unloads_in-append h.tasks (drainer id ∷ []) k,
  )
  view-begin_drain h id (some lane) k = ground (
    arith,
    loads_in-append h.tasks (drainer id ∷ []) k,
    unloads_in-append h.tasks (drainer id ∷ []) k,
  )

  view-spawn_if :
      (c : Command) (id : String) (out : List String) (h : Host F) (k : String)
      → view (spawn_if c id out h) k ≡ (if same id k then load_more c (view h k) else view h k)
  unfolding spawn_if spawn_load view loads_in unloads_in
  view-spawn_if begin_load id out h k = ground (
    arith,
    loads_in-append h.tasks (loader id out ∷ []) k,
    unloads_in-append h.tasks (loader id out ∷ []) k,
  )
  view-spawn_if begin_unload id out h k = ground arith
  view-spawn_if nothing id out h k = ground arith

  pub view-start_load :
      (G : Type 0) (out : List String) (now : ℕ) (id : String) (h : Host F) (k : String)
      → view (start_load {G = G} out now id h).0 k
        ≡ (if same id k then ask_load (view h k) else view h k)
  unfolding start_load status_locked
  view-start_load G out now id h k =
      let e = entry h now id in
      let (l, c) = request_load e.lifecycle in
      let h1 = put h id (record e { lifecycle = l }) in
      let h2 = after_transition h1 now id e.lifecycle.state in
      let h3 = spawn_if c id out h2 in
      ground (
        arith,
        view-put-entry h3 now id k,
        view-spawn_if c id out h2 k,
        view-after_transition h1 now id e.lifecycle.state k,
        view-put h id (record e { lifecycle = l }) k,
        entry-view h now id,
        same_iff id k,
      )

  module _ (st : Store F) (js : Json) where
    pub view-set_residency :
        (id : String) (wanted : Bool) (h : Host F) (k : String)
        → view (set_residency st js id wanted h).0 k ≡ view h k
    unfolding set_residency view
    view-set_residency id wanted h k = refl
