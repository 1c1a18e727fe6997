-- ===== src/Host/Loads.antt =====
-- What a call of `load` (src/host.rs) answers and does, on every branch.
use studio_worker.Base.{
  ℕ, suc, String, Bool, true, false, ◌≡◌, ◌≢◌, refl, List, [], ◌∷◌, arith, inl, inr, if◌then◌else◌,
  same, same_refl, Option-cases,
}
use studio_worker.Lifecycle.{
  ModelState, unloaded, loading, loaded, unloading, failed, Command, nothing, begin_load,
  begin_unload, Lifecycle, request_load, request_unload,
}
use studio_worker.Residency.{Store, Json, Residency, Saved, changed, persist_failed, is_resident}
use studio_worker.Admission.{Measure, MemoryProbe}
use studio_worker.Catalog.{CatalogModel}
use studio_worker.Host.State.{
  Entry, ModelStatus, Host, entry, put, status_of, status_locked, after_transition, spawn_unload,
  spawn_load, then_unload, request_unload_locked, HostError, persist, Answer, answer, failing,
}
use studio_worker.Host.Requests.{
  spawn_if, set_residency, start_load, swap, commit_load, load, answered, swap_out,
}
use studio_worker.Host.View.{
  View, ask_unload, ask_load, view, entry-view, view-put-entry, view-request_unload_locked,
}
use studio_worker.Host.Effects.{view-start_load, view-set_residency}
use studio_worker.Host.Keeps.{load_cases, load-keeps}
use studio_worker.Residency
use studio_worker.Host.Keeps.{on_saved_split, on_saved_cases}
use studio_worker.Host.Requests.{members}
use studio_worker.Host.Groups.{wanted}
use studio_worker.Host.Keeps.{load-keeps}
use studio_worker.Residency.Laws.{set_lem}

members_no_self :
    {G Q F : Type 0} (m : Measure G) (h : Host F) (id group : String)
    (catalog : List (CatalogModel G Q))
    → Residency.contains (members m h id group catalog) id ≡ false
unfolding members Residency.contains
members_no_self m h id group [] = refl
members_no_self m h id group (x ∷ xs) = ground (arith, members_no_self m h id group xs)

swap_out_no_self :
    {G Q F : Type 0} (m : Measure G) (h : Host F) (x : CatalogModel G Q) (id : String)
    (catalog : List (CatalogModel G Q))
    → Residency.contains (swap_out m h x id catalog) id ≡ false
unfolding swap_out Residency.contains
swap_out_no_self m h x id catalog = elim (Option-cases x.exclusive_group) [
  | inl e ↦ rw (e, swap_out) refl
  | inr (g, e) ↦ rw (e, swap_out) (members_no_self m h id g catalog)
]

module _ {F : Type 0} where
  request_unload-residency :
      (h : Host F) (now : ℕ) (id : String)
      → (request_unload_locked h now id).residency ≡ h.residency
  unfolding request_unload_locked after_transition put then_unload spawn_unload
  request_unload-residency h now id =
      go (request_unload (entry h now id).lifecycle).0 (request_unload (entry h now id).lifecycle).1
    where
      go :
          (l : Lifecycle) (c : Command)
          → (then_unload c now id (
              after_transition
                (put h id (record (entry h now id) { lifecycle = l }))
                now
                id
                (entry h now id).lifecycle.state)).residency
            ≡ h.residency
      go l begin_load = ground arith
      go l begin_unload = ground arith
      go l nothing = ground arith

  put-residency : (h : Host F) (id : String) (e : Entry) → (put h id e).residency ≡ h.residency
  unfolding put
  put-residency h id e = refl

  started-residency :
      (out : List String) (now : ℕ) (id : String) (h : Host F) (l : Lifecycle) (c : Command)
      → (spawn_if c id out (
          after_transition
            (put h id (record (entry h now id) { lifecycle = l }))
            now
            id
            (entry h now id).lifecycle.state)).residency
        ≡ h.residency
  unfolding after_transition put spawn_if spawn_load
  started-residency out now id h l begin_load = ground arith
  started-residency out now id h l begin_unload = ground arith
  started-residency out now id h l nothing = ground arith

  start_load_lem :
      (G : Type 0) (out : List String) (now : ℕ) (id : String) (h : Host F) (s : ModelStatus)
      → (start_load {G = G} out now id h).1 ≡ answer s
      → (s.id ≡ id)
        × (s.state ≡ (view (start_load {G = G} out now id h).0 id).life.state)
        × (s.resident ≡ is_resident h.residency id)
        × ((start_load {G = G} out now id h).0.residency ≡ h.residency)
  unfolding start_load answered status_locked status_of
  start_load_lem G out now id h s e =
      let old = entry h now id in
      let (l, c) = request_load old.lifecycle in
      let h2 =
        after_transition (put h id (record old { lifecycle = l })) now id old.lifecycle.state in
      let h3 = spawn_if c id out h2 in
      ground (
        arith,
        started-residency out now id h l c,
        entry-view h3 now id,
        view-put-entry h3 now id id,
        put-residency h3 id (entry h3 now id),
      )

  module _ (st : Store F) (js : Json) where
    set_residency_lem :
        (h : Host F) (id : String) (wanted : Bool) (k : String)
        → (same id k ≡ false
            → is_resident (set_residency st js id wanted h).0.residency k
              ≡ is_resident h.residency k)
          × ((b : Bool)
              → (set_residency st js id wanted h).1 ≡ changed b
              → is_resident (set_residency st js id wanted h).0.residency id ≡ wanted)
    unfolding set_residency
    set_residency_lem h id wanted k = (
      (λ n. ground (arith, set_lem st js id wanted h.residency h.disk k)),
      (λ b e. ground (arith, set_lem st js id wanted h.residency h.disk id, same_refl id)),
    )

    swap-other :
        (h : Host F) (now : ℕ) (os : List String) (k : String)
        → Residency.contains os k ≡ false
        → (is_resident (swap st js h now os).0.residency k ≡ is_resident h.residency k)
          × (view (swap st js h now os).0 k ≡ view h k)
    unfolding swap Residency.contains
    swap-other h now [] k c = (refl, refl)
    swap-other h now (o ∷ os) k c =
        let h1 = (set_residency st js o false h).0 in
        let h2 = request_unload_locked h1 now o in
        let n : same o k ≡ false = ground arith in
        let r1 = (set_residency_lem h o false k).0 n in
        let v1 = view-set_residency st js o false h k in
        on_saved_cases {A = Host F × Saved}
          (λ x. (is_resident x.0.residency k ≡ is_resident h.residency k) × (view x.0 k ≡ view h k))
          (set_residency st js o false h) _ _
          (ground (
            arith,
            swap-other h2 now os k (ground arith),
            request_unload-residency h1 now o,
            view-request_unload_locked h1 now o k,
            r1,
            v1,
            n,
          ))
          (r1, v1)

  -- What an answered load has done.
  abbrev Answered : String → Host F → Host F → ModelStatus → Type 0
  Answered id h h' s =
      (s.id ≡ id)
      × (s.resident ≡ true)
      × (is_resident h'.residency id ≡ true)
      × (s.state ≡ (view h' id).life.state)
      × (view h' id ≡ ask_load (view h id))

  module _ (st : Store F) (js : Json) where
    commit_load_lem :
        (G : Type 0) (out : List String) (now : ℕ) (id : String) (h : Host F) (s : ModelStatus)
        → Residency.contains out id ≡ false
        → (commit_load {G = G} st js out now id h).1 ≡ answer s
        → Answered id h (commit_load {G = G} st js out now id h).0 s
    unfolding commit_load
    commit_load_lem G out now id h s c =
        let h1 = (set_residency st js id true h).0 in
        let h2 = (swap st js h1 now out).0 in
        on_saved_split {A = Host F × Answer G ModelStatus}
          (λ x. x.1 ≡ answer s → Answered id h x.0 s) (set_residency st js id true h) _ _
          (λ b e.
            on_saved_cases {A = Host F × Answer G ModelStatus}
              (λ x. x.1 ≡ answer s → Answered id h x.0 s) (swap st js h1 now out) _ _
              (λ a.
                finished h1 h2 (swap-other st js h1 now out id c)
                  ((set_residency_lem st js h id true id).1 b e)
                  (view-set_residency st js id true h id) a)
              (λ a. cc))
          (λ a. cc)
      where
        finished :
            (h1 h2 : Host F)
            → (is_resident h2.residency id ≡ is_resident h1.residency id)
              × (view h2 id ≡ view h1 id)
            → is_resident h1.residency id ≡ true
            → view h1 id ≡ view h id
            → (start_load {G = G} out now id h2).1 ≡ answer s
            → Answered id h (start_load {G = G} out now id h2).0 s
        finished h1 h2 o r v a = ground (
          arith,
          start_load_lem G out now id h2 s a,
          view-start_load G out now id h2 id,
          same_refl id,
        )

    commit_load-failing :
        (G : Type 0) (out : List String) (now : ℕ) (id : String) (h : Host F) (e : HostError G)
        → (commit_load {G = G} st js out now id h).1 ≡ failing e
        → e ≡ persist
    unfolding commit_load start_load answered
    commit_load-failing G out now id h e =
        let h1 = (set_residency st js id true h).0 in
        on_saved_cases {A = Host F × Answer G ModelStatus} (λ x. x.1 ≡ failing e → e ≡ persist)
          (set_residency st js id true h) _ _
          (on_saved_cases {A = Host F × Answer G ModelStatus} (λ x. x.1 ≡ failing e → e ≡ persist)
            (swap st js h1 now out) _ _ (λ q. cc) (λ q. cc))
          (λ q. cc)

-- A host that is as it was, for the model `k`.
abbrev Unchanged : {F : Type 0} → Host F → Host F → String → Type 0
Unchanged h h' k =
    (h'.residency ≡ h.residency)
    × (h'.disk ≡ h.disk)
    × (h'.tasks ≡ h.tasks)
    × (h'.published ≡ h.published)
    × (view h' k ≡ view h k)

ask_unload-loading : (v : View) → v.life.state ≡ loading → (ask_unload v).life.state ≡ loading
unfolding request_unload
ask_unload-loading v e = ground arith

ask_load-loading : (v : View) → v.life.state ≡ loading → (ask_load v).life.state ≡ loading
unfolding request_load
ask_load-loading v e = ground arith

-- The state in which a load leaves a model, and whether it starts a thread.
abbrev pub after_load : ModelState → ModelState
after_load unloaded = loading
after_load (failed reason) = loading
after_load loading = loading
after_load loaded = loaded
after_load unloading = unloading

abbrev pub starts_load : ModelState → Bool
starts_load unloaded = true
starts_load (failed reason) = true
starts_load _ = false

ask_load_lem :
    (v : View)
    → ((ask_load v).life.state ≡ after_load v.life.state)
      × ((ask_load v).loads ≡ (if starts_load v.life.state then suc v.loads else v.loads))
      × ((ask_load v).unloads ≡ v.unloads)
      × ((ask_load v).weights ≡ v.weights)
unfolding request_load
ask_load_lem v = ground arith

module _ {G Q F : Type 0} (m : Measure G) (st : Store F) (js : Json) where
  load-Answered :
      (probe : MemoryProbe G) (catalog : List (CatalogModel G Q)) (now : ℕ) (id : String)
      (h : Host F) (s : ModelStatus)
      → (load m st js probe catalog now id h).1 ≡ answer s
      → Answered id h (load m st js probe catalog now id h).0 s
  load-Answered probe catalog now id h s =
      let h0 = put h id (entry h now id) in
      load_cases m st js probe catalog now id h (λ x. x.1 ≡ answer s → Answered id h x.0 s)
        (λ e a. cc) (λ x e d a. cc) (λ x r e n v a w. cc)
        (λ x e n a. ground (
          arith,
          commit_load_lem st js G (swap_out m h0 x id catalog) now id h0 s
              (swap_out_no_self m h0 x id catalog) a,
          view-put-entry h now id id,
        ))

  -- A load that is answered marks the model resident and answers its state after the request: an
  -- unloaded or failed model is now loading, by one more loading thread; a loading, loaded or
  -- unloading model is in the state it was, with no thread added. No unload of it starts, and its
  -- weights stay.
  pub load-answer :
      (probe : MemoryProbe G) (catalog : List (CatalogModel G Q)) (now : ℕ) (id : String)
      (h : Host F) (s : ModelStatus)
      → (load m st js probe catalog now id h).1 ≡ answer s
      → let h' = (load m st js probe catalog now id h).0 in
        (s.id ≡ id)
        × (s.resident ≡ true)
        × (is_resident h'.residency id ≡ true)
        × (s.state ≡ after_load (view h id).life.state)
        × ((view h' id).life.state ≡ s.state)
        × ((view h' id).loads ≡ (
            if starts_load (view h id).life.state
            then suc (view h id).loads
            else (view h id).loads))
        × ((view h' id).unloads ≡ (view h id).unloads)
        × ((view h' id).weights ≡ (view h id).weights)
  load-answer probe catalog now id h s e =
      ground (arith, load-Answered probe catalog now id h s e, ask_load_lem (view h id))

  -- A load of an unknown or disabled model, and one that admission refuses, changes nothing: the
  -- residency, the disk, the threads, the published transitions and the view of every model stay.
  load-refused :
      (probe : MemoryProbe G) (catalog : List (CatalogModel G Q)) (now : ℕ) (id k : String)
      (h : Host F) (e : HostError G)
      → (load m st js probe catalog now id h).1 ≡ failing e
      → e ≢ persist
      → let h' = (load m st js probe catalog now id h).0 in
        (h'.residency ≡ h.residency)
        × (h'.disk ≡ h.disk)
        × (h'.tasks ≡ h.tasks)
        × (h'.published ≡ h.published)
        × (view h' k ≡ view h k)
  unfolding put
  load-refused probe catalog now id k h e =
      let h0 = put h id (entry h now id) in
      load_cases m st js probe catalog now id h
        (λ x. x.1 ≡ failing e → e ≢ persist → Unchanged h x.0 k)
        (λ f q n. (refl, refl, refl, refl, refl)) (λ x f d q n. (refl, refl, refl, refl, refl))
        (λ x r f on v c q n. (refl, refl, refl, refl, view-put-entry h now id k))
        (λ x f on q n.
          absurd (n (commit_load-failing st js G (swap_out m h0 x id catalog) now id h0 e q)))

  -- Against the model-lifecycle document ("at most one member of an exclusive group is `loading` or
  -- `loaded`"): whenever a load of an unloaded or failed model is answered while another model is
  -- loading, both are loading afterwards, whatever their groups.
  load-both_loading :
      (probe : MemoryProbe G) (catalog : List (CatalogModel G Q)) (now : ℕ) (id other : String)
      (h : Host F) (s : ModelStatus)
      → (load m st js probe catalog now id h).1 ≡ answer s
      → starts_load (view h id).life.state ≡ true
      → (view h other).life.state ≡ loading
      → let h' = (load m st js probe catalog now id h).0 in
        ((view h' id).life.state ≡ loading) × ((view h' other).life.state ≡ loading)
  load-both_loading probe catalog now id other h s e n l = (
    ground (arith, load-answer probe catalog now id h s e),
    load-keeps st js other (λ v. v.life.state ≡ loading) ask_unload-loading ask_load-loading m probe
        catalog now id h l,
  )
