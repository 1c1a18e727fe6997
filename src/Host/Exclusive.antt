-- ===== src/Host/Exclusive.antt =====
-- Exclusive groups (src/host.rs, `load`) in every reachable state.
use studio_worker.Base.{
  ℕ, String, Bool, true, false, ◌≡◌, ◌≢◌, refl, sym, ap, ◌∙◌, subst, Option, none, some, List, [],
  ◌∷◌, ◌++◌, arith, inl, inr, ◌⊎◌, same, same_iff, Bool-cases,
}
use studio_worker.Lifecycle.{
  ModelState, unloaded, loading, loaded, unloading, failed, Command, nothing, begin_load,
  begin_unload, Lifecycle, Outcome, done, broken, Reply, ok, err, UnexpectedEvent, request_load,
  request_unload, load_finished, unload_finished, serves, name,
}
use studio_worker.Residency.{Store, Json, Residency, Saved, changed, persist_failed, is_resident}
use studio_worker.Admission.{Measure, MemoryProbe}
use studio_worker.Catalog.{CatalogModel, find}
use studio_worker.Host.State.{ModelStatus, Host, new_entry, entry, put, Answer}
use studio_worker.Host.Requests.{
  set_residency, start_load, swap, commit_load, load, restore_from, restore_residents, swap_out,
}
use studio_worker.Host.View.{view, view-put-entry}
use studio_worker.Host.Effects.{view-start_load}
use studio_worker.Host.Keeps.{load_cases, unload-keeps}
use studio_worker.Lifecycle
use studio_worker.Residency
use studio_worker.Host.Steps.{
  Step, loads, unloads, reads, restores, works, disk_changes, Reach, fresh, next,
}
use studio_worker.Host.Keeps.{on_saved_split, on_saved_cases, swap-keeps, set_residency-keeps}
use studio_worker.Host.Invariant.{view-status}
use studio_worker.Host.Groups.{
  wanted, IsAsleep, members_has, awake_is_incoming, run_task-IsAsleep, swap-clears,
  without_task-IsAsleep, ask_unload-IsAsleep,
}

abbrev pub grouped : {G Q : Type 0} → Option (CatalogModel G Q) → Option String
grouped none = none
grouped (some x) = x.exclusive_group

grouped-some :
    {G Q : Type 0} (o : Option (CatalogModel G Q)) (g : String)
    → grouped o ≡ some g
    → (x : CatalogModel G Q) × (o ≡ some x) × (x.exclusive_group ≡ some g)
grouped-some none g e = cc
grouped-some (some x) g e = (x, refl, e)

-- One of the two is neither loaded nor on its way.
abbrev Apart : {F : Type 0} → Host F → String → String → Type 0
Apart h a b = IsAsleep (view h a) ⊎ IsAsleep (view h b)

-- A model other than `id` that is asleep or about to be swapped out.
abbrev Yields : {F : Type 0} → Host F → String → List String → String → Type 0
Yields h id out k = (same id k ≡ false) × (IsAsleep (view h k) ⊎ (Residency.contains out k ≡ true))

module _ {F : Type 0} (st : Store F) (js : Json) where
  swap-Yields :
      (h : Host F) (now : ℕ) (id : String) (out : List String) (k : String) (b : Bool)
      → (swap st js h now out).1 ≡ changed b
      → Yields h id out k
      → IsAsleep (view (swap st js h now out).0 k)
  swap-Yields h now id out k b e (n, inl a) =
      swap-keeps st js k IsAsleep (λ v p. ask_unload-IsAsleep v) h now out a
  swap-Yields h now id out k b e (n, inr c) = swap-clears st js h now out k b c e

  start_load-other :
      (G : Type 0) (out : List String) (now : ℕ) (id : String) (h : Host F) (k : String)
      → same id k ≡ false
      → IsAsleep (view h k)
      → IsAsleep (view (start_load {G = G} out now id h).0 k)
  start_load-other G out now id h k n a = rw (view-start_load G out now id h k, n) a

  Yields-set :
      (h : Host F) (id : String) (out : List String) (k : String)
      → Yields h id out k
      → Yields (set_residency st js id true h).0 id out k
  Yields-set h id out k (n, inl a) =
      (n, inl (set_residency-keeps st js k IsAsleep (λ v p. ask_unload-IsAsleep v) h id true a))
  Yields-set h id out k (n, inr c) = (n, inr c)

  commit_load-Apart :
      (G : Type 0) (out : List String) (now : ℕ) (id : String) (h : Host F) (a b : String)
      → Apart h a b
      → Yields h id out a ⊎ Yields h id out b
      → Apart (commit_load {G = G} st js out now id h).0 a b
  unfolding commit_load
  commit_load-Apart G out now id h a b p y =
      let h1 = (set_residency st js id true h).0 in
      let h2 = (swap st js h1 now out).0 in
      on_saved_cases {A = Host F × Answer G ModelStatus} (λ x. Apart x.0 a b)
        (set_residency st js id true h) _ _
        (on_saved_split {A = Host F × Answer G ModelStatus} (λ x. Apart x.0 a b)
          (swap st js h1 now out) _ _
          (λ b' e. elim y [
            | inl ya ↦ inl (
                start_load-other G out now id h2 a ya.0
                  (swap-Yields h1 now id out a b' e (Yields-set h id out a ya)))
            | inr yb ↦ inr (
                start_load-other G out now id h2 b yb.0
                  (swap-Yields h1 now id out b b' e (Yields-set h id out b yb)))
          ])
          (elim p [ inl pa ↦ inl (kept a (swapped a pa)) | inr pb ↦ inr (kept b (swapped b pb)) ]))
        (elim p [ inl pa ↦ inl (written a pa) | inr pb ↦ inr (written b pb) ])
    where
      written :
          (k : String) → IsAsleep (view h k) → IsAsleep (view (set_residency st js id true h).0 k)
      written k q = set_residency-keeps st js k IsAsleep (λ v r. ask_unload-IsAsleep v) h id true q

      swapped :
          (k : String) → IsAsleep (view h k) → IsAsleep (view (set_residency st js id true h).0 k)
      swapped k q = written k q

      kept :
          (k : String)
          → IsAsleep (view (set_residency st js id true h).0 k)
          → IsAsleep (view (swap st js (set_residency st js id true h).0 now out).0 k)
      kept k q =
          swap-keeps st js k IsAsleep (λ v r. ask_unload-IsAsleep v)
            (set_residency st js id true h).0 now out q

each :
    {F : Type 0} (h h' : Host F) (a b : String)
    → Apart h a b
    → ((k : String) → IsAsleep (view h k) → IsAsleep (view h' k))
    → Apart h' a b
each h h' a b (inl p) f = inl (f a p)
each h h' a b (inr p) f = inr (f b p)

put-Apart :
    {F : Type 0} (h : Host F) (now : ℕ) (id a b : String)
    → Apart h a b
    → Apart (put h id (entry h now id)) a b
put-Apart h now id a b (inl p) = inl (subst IsAsleep (sym (view-put-entry h now id a)) p)
put-Apart h now id a b (inr p) = inr (subst IsAsleep (sym (view-put-entry h now id b)) p)

disk-IsAsleep :
    {F : Type 0} (h : Host F) (disk : F) (k : String)
    → IsAsleep (view h k)
    → IsAsleep (view (record h { disk = disk }) k)
unfolding view
disk-IsAsleep h disk k a = a

module _ {G Q F : Type 0} (m : Measure G) (st : Store F) (js : Json) where
  -- A model of the group that `id` joins yields.
  member-Yields :
      (catalog : List (CatalogModel G Q)) (h : Host F) (id k g : String) (x y : CatalogModel G Q)
      → x.exclusive_group ≡ some g
      → find catalog k ≡ some y
      → y.exclusive_group ≡ some g
      → same id k ≡ false
      → Yields h id (swap_out m h x id catalog) k
  unfolding swap_out
  member-Yields catalog h id k g x y ex f ey n = elim (Bool-cases (wanted (view h k).life)) [
    | inl w ↦ (
      n,
      inr (
          rw (ex, swap_out)
            (members_has m h id g k catalog y f ey (ground (arith, same_iff id k, same_iff k id))
              (awake_is_incoming h k w))),
    )
    | inr a ↦ (n, inl a)
  ]

  some-Yields :
      (catalog : List (CatalogModel G Q)) (h : Host F) (id a b g : String) (x : CatalogModel G Q)
      → find catalog id ≡ some x
      → grouped (find catalog a) ≡ some g
      → grouped (find catalog b) ≡ some g
      → a ≢ b
      → Apart h a b
      → Yields h id (swap_out m h x id catalog) a ⊎ Yields h id (swap_out m h x id catalog) b
  some-Yields catalog h id a b g x f ga gb ne p = elim (Bool-cases (same id a)) [
    | inl ea ↦
        let (y, fy, ey) = grouped-some (find catalog b) g gb in
        inr (
          member-Yields catalog h id b g x y (joined a ea ga) fy ey
            (ground (arith, same_iff id a, same_iff id b)))
    | inr na ↦ elim (Bool-cases (same id b)) [
      | inl eb ↦
          let (y, fy, ey) = grouped-some (find catalog a) g ga in
          inl (member-Yields catalog h id a g x y (joined b eb gb) fy ey na)
      | inr nb ↦ elim p [ inl pa ↦ inl (na, inl pa) | inr pb ↦ inr (nb, inl pb) ]
    ]
  ]
    where
      joined :
          (k : String)
          → same id k ≡ true
          → grouped (find catalog k) ≡ some g
          → x.exclusive_group ≡ some g
      joined k e gk =
          sym (ap grouped f) ∙ ap (λ j. grouped (find catalog j)) ((same_iff id k).0 e) ∙ gk

  load-Apart :
      (probe : MemoryProbe G) (catalog : List (CatalogModel G Q)) (now : ℕ) (id : String)
      (h : Host F) (a b g : String)
      → grouped (find catalog a) ≡ some g
      → grouped (find catalog b) ≡ some g
      → a ≢ b
      → Apart h a b
      → Apart (load m st js probe catalog now id h).0 a b
  load-Apart probe catalog now id h a b g ga gb ne p =
      let h0 = put h id (entry h now id) in
      load_cases m st js probe catalog now id h (λ x. Apart x.0 a b) (λ e. p) (λ x e d. p)
        (λ x r e on n v. put-Apart h now id a b p)
        (λ x f on.
          commit_load-Apart st js G (swap_out m h0 x id catalog) now id h0 a b
            (put-Apart h now id a b p)
            (some-Yields catalog h0 id a b g x f ga gb ne (put-Apart h now id a b p)))

  restore_from-Apart :
      (at : String → ℕ × MemoryProbe G) (catalog : List (CatalogModel G Q)) (ids : List String)
      (xs : List (CatalogModel G Q)) (h : Host F) (a b g : String)
      → grouped (find catalog a) ≡ some g
      → grouped (find catalog b) ≡ some g
      → a ≢ b
      → Apart h a b
      → Apart (restore_from m st js at catalog ids xs h) a b
  unfolding restore_from
  restore_from-Apart at catalog ids [] h a b g ga gb ne p = p
  restore_from-Apart at catalog ids (x ∷ xs) h a b g ga gb ne p =
      restore_from-Apart at catalog ids xs _ a b g ga gb ne
        (elim (Bool-cases (Residency.contains ids x.id)) [
          | inl e ↦ rw e (load-Apart (at x.id).1 catalog (at x.id).0 x.id h a b g ga gb ne p)
          | inr e ↦ rw e p
        ])

  Step-Apart :
      {catalog : List (CatalogModel G Q)} {h h' : Host F} (a b g : String)
      → grouped (find catalog a) ≡ some g
      → grouped (find catalog b) ≡ some g
      → a ≢ b
      → Step m st js catalog h h'
      → Apart h a b
      → Apart h' a b
  unfolding restore_residents
  Step-Apart {catalog} a b g ga gb ne (loads h probe now id) p =
      load-Apart probe catalog now id h a b g ga gb ne p
  Step-Apart {catalog} a b g ga gb ne (restores h at) p =
      restore_from-Apart at catalog h.residency.resident catalog h a b g ga gb ne p
  Step-Apart {catalog} a b g ga gb ne (unloads h now id) p =
      each h _ a b p
        (λ k q. unload-keeps st js k IsAsleep (λ v r. ask_unload-IsAsleep v) catalog now id h q)
  Step-Apart {catalog} a b g ga gb ne (reads h now id) p =
      each h _ a b p (λ k q. subst IsAsleep (sym (view-status catalog now id h k)) q)
  Step-Apart a b g ga gb ne (works h before after t now r e) p = each h _ a b p (λ k q.
      run_task-IsAsleep t (record h { tasks = before ++ after }) now r k
        (without_task-IsAsleep h before after t k e q))
  Step-Apart a b g ga gb ne (disk_changes h disk) p =
      each h _ a b p (λ k q. disk-IsAsleep h disk k q)

  -- In every state that the host reaches, of two models that every catalogue it saw puts in one
  -- exclusive group, at most one is loaded or loading to stay loaded (loading with no unload behind
  -- it). The catalogue may change otherwise.
  pub exclusive_group_lem :
      (a b g : String) {h : Host F}
      → Reach {Q = Q} m st js
          (λ catalog. (grouped (find catalog a) ≡ some g) × (grouped (find catalog b) ≡ some g))
          h
      → a ≢ b
      → (wanted (view h a).life ≡ false) ⊎ (wanted (view h b).life ≡ false)
  unfolding view new_entry Lifecycle.new
  exclusive_group_lem a b g (fresh residency disk) ne = inl refl
  exclusive_group_lem a b g (next catalog okay r s) ne =
      Step-Apart a b g okay.0 okay.1 ne s (exclusive_group_lem a b g r ne)
