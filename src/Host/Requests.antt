-- ===== src/Host/Requests.antt =====
-- src/host.rs: the host's requests. The catalogue is the snapshot that a request takes; the probe is
-- its one reading of memory; the disk is the store that residency persists to.
use studio_worker.Base.{
  ℕ, String, Bool, true, false, not, ◌&&◌, Option, none, some, List, [], ◌∷◌, if◌then◌else◌, same,
}
use studio_worker.Lifecycle.{
  ModelState, unloaded, loading, loaded, unloading, failed, Command, nothing, begin_load,
  begin_unload, request_load,
}
use studio_worker.Residency.{Store, Json, Residency, Saved, changed, persist_failed, is_resident}
use studio_worker.Admission.{
  Measure, MemoryProbe, Verdict, admitted, refused, free_now, admit, credit,
}
use studio_worker.Catalog.{CatalogModel, find}
use studio_worker.Host.State.{
  Entry, ModelStatus, Host, entry, put, status_locked, after_transition, spawn_load,
  request_unload_locked, unknown_model, disabled, no_room, persist, Answer, answer, failing,
}
use studio_worker.Residency

-- `matches!(state, Loading | Loaded)`.
unfoldable pub is_incoming : ModelState → Bool
is_incoming loading = true
is_incoming loaded = true
is_incoming _ = false

-- `matches!(state, Loading | Loaded | Unloading)`.
unfoldable pub holds_memory : ModelState → Bool
holds_memory loading = true
holds_memory loaded = true
holds_memory unloading = true
holds_memory _ = false

-- `matches!(state, Unloaded | Failed { .. })`.
unfoldable pub needs_load : ModelState → Bool
needs_load unloaded = true
needs_load (failed reason) = true
needs_load _ = false

-- `entries.get(id).is_some_and(|e| test(e.lifecycle.state()))`.
abbrev pub entry_is : (ModelState → Bool) → Option Entry → Bool
entry_is test none = false
entry_is test (some e) = test e.lifecycle.state

unfoldable pub same_group : Option String → String → Bool
same_group none group = false
same_group (some g) group = same g group

module _ {G P : Type 0} (m : Measure G) where
  open m use {plus}

  unfoldable pub sum_of : (CatalogModel G P → Bool) → G → List (CatalogModel G P) → G
  sum_of test acc [] = acc
  sum_of test acc (x ∷ xs) = sum_of test (if test x then plus acc x.vram_gb_estimate else acc) xs

module _ {G P F : Type 0} (m : Measure G) where
  open m use {gib}

  unfoldable pub loaded_gib : List (CatalogModel G P) → Host F → G
  unfolding sum_of holds_memory
  loaded_gib catalog h = sum_of m (λ x. entry_is holds_memory (h.entries x.id)) (gib 0) catalog

  unfoldable pub members : Host F → String → String → List (CatalogModel G P) → List String
  unfolding same_group is_incoming
  members h id group [] = []
  members h id group (x ∷ xs) =
      let rest = members h id group xs in
      if not (same x.id id)
        && same_group x.exclusive_group group
        && entry_is is_incoming (h.entries x.id)
      then x.id ∷ rest
      else rest

  -- The models of the same exclusive group that the load replaces.
  unfoldable pub swap_out :
      Host F → CatalogModel G P → String → List (CatalogModel G P) → List String
  unfolding members
  swap_out h model id catalog = elim model.exclusive_group [
    | none ↦ []
    | some group ↦ members h id group catalog
  ]

  unfoldable pub check_room :
      MemoryProbe G → List (CatalogModel G P) → Host F → CatalogModel G P → List String → Verdict G
  unfolding sum_of loaded_gib free_now credit admit
  check_room probe catalog h model out =
      let freed = sum_of m (λ x. Residency.contains out x.id) (gib 0) catalog in
      admit m model.vram_gb_estimate (credit m (free_now m probe (loaded_gib catalog h)) freed)

abbrev pub on_saved : {F A : Type 0} → Host F × Saved → (Host F → A) → (Host F → A) → A
on_saved (h, changed b) go stop = go h
on_saved (h, persist_failed) go stop = stop h

unfoldable pub spawn_if : {F : Type 0} → Command → String → List String → Host F → Host F
spawn_if begin_load id out h = spawn_load h id out
spawn_if begin_unload id out h = h
spawn_if nothing id out h = h

unfoldable pub answered : {G F : Type 0} → Host F × ModelStatus → Host F × Answer G ModelStatus
answered (h, status) = (h, answer status)

unfoldable pub if_admitted :
    {G F : Type 0}
    → Verdict G
    → Host F
    → (Host F → Host F × Answer G ModelStatus)
    → Host F × Answer G ModelStatus
if_admitted admitted h go = go h
if_admitted (refused r) h go = (h, failing (no_room r))

module _ {F : Type 0} (st : Store F) (js : Json) where
  -- `residency.lock().set(id, wanted)`, on the host's disk.
  unfoldable pub set_residency : String → Bool → Host F → Host F × Saved
  set_residency id wanted h =
      let (r, disk, saved) = Residency.set st js id wanted h.residency h.disk in
      (record h { residency = r; disk = disk }, saved)

  -- The loop over the models to swap out; it stops at the first that cannot be persisted.
  unfoldable pub swap : Host F → ℕ → List String → Host F × Saved
  unfolding set_residency
  swap h now [] = (h, changed true)
  swap h now (o ∷ os) =
      on_saved (set_residency o false h) (λ h'. swap (request_unload_locked h' now o) now os)
        (λ h'. (h', persist_failed))

module _ {G F : Type 0} where
  unfoldable pub start_load : List String → ℕ → String → Host F → Host F × Answer G ModelStatus
  unfolding spawn_if answered
  start_load out now id h =
      let e = entry h now id in
      let (l, command) = request_load e.lifecycle in
      let h' = after_transition (put h id (record e { lifecycle = l })) now id e.lifecycle.state in
      answered (status_locked (spawn_if command id out h') now id)

module _ {G F : Type 0} (st : Store F) (js : Json) where
  unfoldable pub commit_load : List String → ℕ → String → Host F → Host F × Answer G ModelStatus
  unfolding set_residency swap start_load
  commit_load out now id h =
      on_saved (set_residency st js id true h)
        (λ h1.
          on_saved (swap st js h1 now out) (start_load out now id) (λ h2. (h2, failing persist)))
        (λ h1. (h1, failing persist))

module _ {G P F : Type 0} where
  unfoldable pub status_found :
      Option (CatalogModel G P) → ℕ → String → Host F → Host F × Answer G ModelStatus
  unfolding answered
  status_found none now id h = (h, failing (unknown_model id))
  status_found (some model) now id h = answered (status_locked h now id)

  unfoldable pub status :
      List (CatalogModel G P) → ℕ → String → Host F → Host F × Answer G ModelStatus
  unfolding status_found
  status catalog now id h = status_found (find catalog id) now id h

module _ {G P F : Type 0} (st : Store F) (js : Json) where
  unfoldable pub unload_found :
      Option (CatalogModel G P) → ℕ → String → Host F → Host F × Answer G ModelStatus
  unfolding set_residency answered
  unload_found none now id h = (h, failing (unknown_model id))
  unload_found (some model) now id h =
      on_saved (set_residency st js id false h)
        (λ h'. answered (status_locked (request_unload_locked h' now id) now id))
        (λ h'. (h', failing persist))

  unfoldable pub unload :
      List (CatalogModel G P) → ℕ → String → Host F → Host F × Answer G ModelStatus
  unfolding unload_found
  unload catalog now id h = unload_found (find catalog id) now id h

module _ {G P F : Type 0} (m : Measure G) (st : Store F) (js : Json) where
  unfoldable pub load_enabled :
      MemoryProbe G
      → List (CatalogModel G P)
      → CatalogModel G P
      → ℕ
      → String
      → Host F
      → Host F × Answer G ModelStatus
  unfolding commit_load if_admitted check_room swap_out
  load_enabled probe catalog model now id h =
      let h0 = put h id (entry h now id) in
      let out = swap_out m h0 model id catalog in
      if needs_load (entry h now id).lifecycle.state
      then if_admitted (check_room m probe catalog h0 model out) h0 (commit_load st js out now id)
      else commit_load st js out now id h0

  unfoldable pub load_found :
      MemoryProbe G
      → List (CatalogModel G P)
      → Option (CatalogModel G P)
      → ℕ
      → String
      → Host F
      → Host F × Answer G ModelStatus
  unfolding load_enabled
  load_found probe catalog none now id h = (h, failing (unknown_model id))
  load_found probe catalog (some model) now id h =
      if model.enabled
      then load_enabled probe catalog model now id h
      else (h, failing (disabled id))

  unfoldable pub load :
      MemoryProbe G → List (CatalogModel G P) → ℕ → String → Host F → Host F × Answer G ModelStatus
  unfolding load_found
  load probe catalog now id h = load_found probe catalog (find catalog id) now id h

  -- The loads of `restore_residents`, over the catalogue's ids; `at` is the clock and the probe's
  -- reading when each is loaded. A failure is only logged.
  unfoldable pub restore_from :
      (String → ℕ × MemoryProbe G)
      → List (CatalogModel G P)
      → List String
      → List (CatalogModel G P)
      → Host F
      → Host F
  unfolding load
  restore_from at catalog ids [] h = h
  restore_from at catalog ids (x ∷ xs) h =
      restore_from at catalog ids xs
        (if Residency.contains ids x.id then (load (at x.id).1 catalog (at x.id).0 x.id h).0 else h)

  unfoldable pub restore_residents :
      (String → ℕ × MemoryProbe G) → List (CatalogModel G P) → Host F → Host F
  unfolding restore_from
  restore_residents at catalog h = restore_from at catalog h.residency.resident catalog h
