-- ===== src/Host/Keeps.antt =====
-- How `load` ends, and what every call of the host keeps of the view of one model (src/host.rs).
use studio_worker.Base.{
  ℕ, String, Bool, true, false, ◌≡◌, refl, sym, subst, none, some, List, [], ◌∷◌, inl, inr, same,
  Bool-cases, Option-cases,
}
use studio_worker.Residency.{Store, Json, Saved, changed, persist_failed}
use studio_worker.Admission.{Measure, MemoryProbe, Refused, Verdict, admitted, refused}
use studio_worker.Catalog.{CatalogModel, find}
use studio_worker.Host.State.{
  ModelStatus, Host, entry, put, status_locked, request_unload_locked, unknown_model, disabled,
  no_room, Answer, failing,
}
use studio_worker.Host.Requests.{
  set_residency, start_load, on_saved, swap, commit_load, load, load_found, load_enabled,
  if_admitted, unload, unload_found, answered, needs_load, check_room, swap_out,
}
use studio_worker.Host.View.{
  View, ask_unload, ask_load, view, view-put-entry, view-request_unload_locked,
}
use studio_worker.Host.Effects.{view-start_load, view-set_residency}

module _ {G Q F : Type 0} (m : Measure G) (st : Store F) (js : Json) where
  -- How `load` ends: an unknown or disabled model, a refusal by admission, or the load itself.
  pub load_cases :
      (probe : MemoryProbe G) (catalog : List (CatalogModel G Q)) (now : ℕ) (id : String)
      (h : Host F) (P : Host F × Answer G ModelStatus → Type 0)
      → (find catalog id ≡ none → P (h, failing (unknown_model id)))
      → ((x : CatalogModel G Q)
          → find catalog id ≡ some x
          → x.enabled ≡ false
          → P (h, failing (disabled id)))
      → ((x : CatalogModel G Q) (r : Refused G)
          → find catalog id ≡ some x
          → x.enabled ≡ true
          → needs_load (entry h now id).lifecycle.state ≡ true
          → check_room m probe catalog
              (put h id (entry h now id))
              x
              (swap_out m (put h id (entry h now id)) x id catalog)
            ≡ refused r
          → P (put h id (entry h now id), failing (no_room r)))
      → ((x : CatalogModel G Q)
          → find catalog id ≡ some x
          → x.enabled ≡ true
          → P (
              commit_load st js
                (swap_out m (put h id (entry h now id)) x id catalog)
                now
                id
                (put h id (entry h now id))))
      → P (load m st js probe catalog now id h)
  unfolding load load_found load_enabled if_admitted
  load_cases probe catalog now id h P unknown off full go = elim (Option-cases (find catalog id)) [
    | inl e ↦ rw (e, load_found) (unknown e)
    | inr (x, e) ↦
        rw (e, load_found)
          (elim (Bool-cases x.enabled) [
            | inl a ↦
                rw (a, load_found, load_enabled)
                  (elim (Bool-cases (needs_load (entry h now id).lifecycle.state)) [
                    | inl n ↦ rw (n, load_enabled) (admission x e a n)
                    | inr n ↦ rw (n, load_enabled) (go x e a)
                  ])
            | inr d ↦ rw (d, load_found) (off x e d)
          ])
  ]
    where
      Verdicts : CatalogModel G Q → Verdict G → Type 0
      Verdicts x v = P (
          if_admitted v (put h id (entry h now id))
            (commit_load st js (swap_out m (put h id (entry h now id)) x id catalog) now id))

      admission :
          (x : CatalogModel G Q)
          → find catalog id ≡ some x
          → x.enabled ≡ true
          → needs_load (entry h now id).lifecycle.state ≡ true
          → Verdicts x (
              check_room m probe catalog
                (put h id (entry h now id))
                x
                (swap_out m (put h id (entry h now id)) x id catalog))
      admission x e a n =
          split
            (check_room m probe catalog (put h id (entry h now id)) x
              (swap_out m (put h id (entry h now id)) x id catalog))
            refl
        where
          split :
              (v : Verdict G)
              → check_room m probe catalog
                  (put h id (entry h now id))
                  x
                  (swap_out m (put h id (entry h now id)) x id catalog)
                ≡ v
              → Verdicts x v
          split admitted q = go x e a
          split (refused r) q = full x r e a n q

module _ {F : Type 0} where
  -- What a saved or a failed write leads to holds whichever happens.
  pub on_saved_cases :
      {A : Type 0} (Q : A → Type 0) (x : Host F × Saved) (go stop : Host F → A)
      → Q (go x.0)
      → Q (stop x.0)
      → Q (on_saved x go stop)
  on_saved_cases Q (h, changed b) go stop a b' = a
  on_saved_cases Q (h, persist_failed) go stop a b' = b'

  -- The same, with what the write answered.
  pub on_saved_split :
      {A : Type 0} (Q : A → Type 0) (x : Host F × Saved) (go stop : Host F → A)
      → ((b : Bool) → x.1 ≡ changed b → Q (go x.0))
      → Q (stop x.0)
      → Q (on_saved x go stop)
  on_saved_split Q (h, changed b) go stop a b' = a b refl
  on_saved_split Q (h, persist_failed) go stop a b' = b'

  -- A property of the view that both requests keep is kept by every call of the host.
  module _ (st : Store F) (js : Json) (k : String) (P : View → Type 0)
      (unloads_keep : (v : View) → P v → P (ask_unload v)) where
    pub request_unload_locked-keeps :
        (h : Host F) (now : ℕ) (id : String)
        → P (view h k)
        → P (view (request_unload_locked h now id) k)
    request_unload_locked-keeps h now id p = elim (Bool-cases (same id k)) [
      | inl e ↦ rw (view-request_unload_locked h now id k, e) (unloads_keep (view h k) p)
      | inr e ↦ rw (view-request_unload_locked h now id k, e) p
    ]

    pub set_residency-keeps :
        (h : Host F) (id : String) (wanted : Bool)
        → P (view h k)
        → P (view (set_residency st js id wanted h).0 k)
    set_residency-keeps h id wanted p = subst P (sym (view-set_residency st js id wanted h k)) p

    pub swap-keeps :
        (h : Host F) (now : ℕ) (os : List String)
        → P (view h k)
        → P (view (swap st js h now os).0 k)
    unfolding swap
    swap-keeps h now [] p = p
    swap-keeps h now (o ∷ os) p =
        let h1 = (set_residency st js o false h).0 in
        let p1 = set_residency-keeps h o false p in
        on_saved_cases {A = Host F × Saved} (λ x. P (view x.0 k)) (set_residency st js o false h) _
          _
          (swap-keeps (request_unload_locked h1 now o) now os
            (request_unload_locked-keeps h1 now o p1))
          p1

    pub unload-keeps :
        {G Q : Type 0} (catalog : List (CatalogModel G Q)) (now : ℕ) (id : String) (h : Host F)
        → P (view h k)
        → P (view (unload st js catalog now id h).0 k)
    unfolding unload unload_found answered status_locked
    unload-keeps {G} catalog now id h p = elim (Option-cases (find catalog id)) [
      | inl e ↦ rw (e, unload_found) p
      | inr (model, e) ↦
          let h1 = (set_residency st js id false h).0 in
          let h2 = request_unload_locked h1 now id in
          let p1 = set_residency-keeps h id false p in
          rw (e, unload_found)
            (on_saved_cases {A = Host F × Answer G ModelStatus} (λ x. P (view x.0 k))
              (set_residency st js id false h) _ _
              (subst P (sym (view-put-entry h2 now id k))
                (request_unload_locked-keeps h1 now id p1))
              p1)
    ]

    module _ (loads_keep : (v : View) → P v → P (ask_load v)) where
      pub start_load-keeps :
          (G : Type 0) (out : List String) (now : ℕ) (id : String) (h : Host F)
          → P (view h k)
          → P (view (start_load {G = G} out now id h).0 k)
      start_load-keeps G out now id h p = elim (Bool-cases (same id k)) [
        | inl e ↦ rw (view-start_load G out now id h k, e) (loads_keep (view h k) p)
        | inr e ↦ rw (view-start_load G out now id h k, e) p
      ]

      commit_load-keeps :
          (G : Type 0) (out : List String) (now : ℕ) (id : String) (h : Host F)
          → P (view h k)
          → P (view (commit_load {G = G} st js out now id h).0 k)
      unfolding commit_load
      commit_load-keeps G out now id h p =
          let h1 = (set_residency st js id true h).0 in
          let h2 = (swap st js h1 now out).0 in
          let p1 = set_residency-keeps h id true p in
          let p2 = swap-keeps h1 now out p1 in
          on_saved_cases {A = Host F × Answer G ModelStatus} (λ x. P (view x.0 k))
            (set_residency st js id true h) _ _
            (on_saved_cases {A = Host F × Answer G ModelStatus} (λ x. P (view x.0 k))
              (swap st js h1 now out) _ _ (start_load-keeps G out now id h2 p2) p2)
            p1

      pub load-keeps :
          {G Q : Type 0} (m : Measure G) (probe : MemoryProbe G) (catalog : List (CatalogModel G Q))
          (now : ℕ) (id : String) (h : Host F)
          → P (view h k)
          → P (view (load m st js probe catalog now id h).0 k)
      unfolding load
      load-keeps {G} m probe catalog now id h p =
          let h0 = put h id (entry h now id) in
          let p0 = subst P (sym (view-put-entry h now id k)) p in
          load_cases m st js probe catalog now id h (λ x. P (view x.0 k)) (λ e. p) (λ x e d. p)
            (λ x r e a n v. p0)
            (λ x e a. commit_load-keeps G (swap_out m h0 x id catalog) now id h0 p0)
