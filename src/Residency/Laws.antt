-- ===== src/Residency/Laws.antt =====
-- What residency (src/residency.rs) promises: a save that fails changes nothing, one that succeeds
-- is what the next start reads.
use studio_worker.Base.{
  String, Bool, true, false, not, ◌&&◌, ◌≡◌, ◌≢◌, refl, subst, Option, none, some, List, [], ◌∷◌,
  arith, inl, inr, ◌⊎◌, if◌then◌else◌, same, same_iff, sym, if_both, Option-cases,
}
use studio_worker.Residency.{
  commit, read_as, contents, Store, Json, Residency, Saved, changed, persist_failed, contains,
  remove, is_resident, version, agree, parse, load_for_serving, set,
}

contains-remove :
    (xs : List String) (id k : String)
    → contains (remove xs id) k ≡ (not (same id k) && contains xs k)
unfolding contains remove
contains-remove [] id k = ground arith
contains-remove (x ∷ xs) id k =
    ground (arith, contains-remove xs id k, same_iff x id, same_iff x k, same_iff id k)

-- What a save needs of the disk: a file that was written is read back.
pub record IsFaithful {F : Type 0} (st : Store F) : Type 0 where
  pub reads_back :
      (fs fs' : F) (path text : String)
      → st.write fs path text ≡ some fs'
      → st.read fs' path ≡ contents text

module _ {F : Type 0} (st : Store F) (js : Json) where
  -- A commit takes the new set, or fails at the file and leaves all as it was.
  abbrev Commits : Residency → List String → Option String → F → Residency × F × Saved → Type 0
  Commits r ids path fs (r', fs', answer) =
      ((r' ≡ record r { resident = ids })
        × (answer ≡ changed true)
        × ((path ≡ none)
            ⊎ ((p : String) × (path ≡ some p)
                × (st.write fs p (js.encode version ids) ≡ some fs'))))
      ⊎ ((r' ≡ r) × (fs' ≡ fs) × (answer ≡ persist_failed) × (path ≢ none))

  commit_lem :
      (r : Residency) (ids : List String) (path : Option String) (fs : F)
      → Commits r ids path fs (commit st js r ids path fs)
  unfolding commit
  commit_lem r ids none fs = ground arith
  commit_lem r ids (some p) fs = elim (Option-cases (st.write fs p (js.encode version ids))) [
    | inl e ↦ rw (e, commit) (ground arith)
    | inr (fs', e) ↦ rw (e, commit) (inl (refl, refl, inr (p, refl, e)))
  ]

  -- Setting a model's residency either answers whether the wish was another one before, and then
  -- exactly that model's residency is as wished, or the save failed and residency and disk are as
  -- they were; it fails only with a file to persist to. The path never changes.
  pub set_lem :
      (id : String) (wanted : Bool) (r : Residency) (fs : F) (k : String)
      → let (r', fs', answer) = set st js id wanted r fs in
        (((answer ≡ changed (not (agree (is_resident r id) wanted)))
            × (is_resident r' k ≡ (if same id k then wanted else is_resident r k)))
          ⊎ ((answer ≡ persist_failed) × (r' ≡ r) × (fs' ≡ fs) × (r.path ≢ none)))
        × (r'.path ≡ r.path)
  unfolding set contains
  set_lem id true r fs k = ground (arith, commit_lem r (id ∷ r.resident) r.path fs, same_iff id k)
  set_lem id false r fs k = ground (
    arith,
    commit_lem r (remove r.resident id) r.path fs,
    contains-remove r.resident id k,
    same_iff id k,
  )

  -- The set that is wished, as JSON holds it, is read back as the same set, in an order of its own.
  abbrev Survives : List String → List String → Type 0
  Survives next ids =
      (js.decode (js.encode version next) ≡ some (version, ids))
      × ((k : String) → contains ids k ≡ contains next k)

  -- The next start finds the same set, at the same path, and leaves the disk alone.
  abbrev pub Restores : String → Residency → F → Type 0
  Restores path r' fs' =
      let (r, fs) = load_for_serving st js (some path) fs' in
      ((k : String) → is_resident r k ≡ is_resident r' k) × (r.path ≡ r'.path) × (fs ≡ fs')

  reload :
      (r : Residency) (next ids : List String) (path : String) (fs fs' : F)
      → IsFaithful st
      → Survives next ids
      → r.path ≡ some path
      → st.write fs path (js.encode version next) ≡ some fs'
      → Restores path (record r { resident = next }) fs'
  unfolding load_for_serving parse is_resident
  reload r next ids path fs fs' h (t, same_set) p e =
      rw (h.reads_back fs fs' path _ e, read_as, t) (same_set, sym p, refl)

  commit-reload :
      (r : Residency) (next ids : List String) (path : String) (q : Option String) (fs : F)
      → IsFaithful st
      → Survives next ids
      → r.path ≡ some path
      → q ≡ some path
      → let (r', fs', answer) = commit st js r next q fs in
        answer ≡ changed true → Restores path r' fs'
  unfolding commit
  commit-reload r next ids path none fs h t p e = λ a. cc
  commit-reload r next ids path (some q) fs h t p e =
      elim (Option-cases (st.write fs q (js.encode version next))) [
        | inl w ↦ rw (w, commit) (λ a. cc)
        | inr (fs', w) ↦
            rw (w, commit)
              (λ a. reload r next ids path fs fs' h t p (
                subst (λ (z : String). st.write fs z (js.encode version next) ≡ some fs')
                  (ground arith) w))
      ]

  -- What a change saved is what the next start reads, whatever the disk held before: every model is
  -- wanted then exactly if it is wanted now, at the same path, and the disk is left alone. On a disk
  -- that reads back what was written, and for a set whose JSON is read back as the same set, in
  -- whatever order.
  pub set-reload :
      (id path : String) (wanted : Bool) (r : Residency) (fs : F) (ids : List String)
      → IsFaithful st
      → (let next = if wanted then id ∷ r.resident else remove r.resident id in
          (js.decode (js.encode version next) ≡ some (version, ids))
          × ((k : String) → contains ids k ≡ contains next k))
      → r.path ≡ some path
      → (set st js id wanted r fs).2 ≡ changed true
      → let (r', fs', answer) = set st js id wanted r fs in Restores path r' fs'
  unfolding set
  set-reload id path true r fs ids h t p =
      if_both (λ (q : Residency × F × Saved). q.2 ≡ changed true → Restores path q.0 q.1)
        (agree (is_resident r id) true) _ _ (λ _. cc)
        (λ _. commit-reload r (id ∷ r.resident) ids path r.path fs h t p p)
  set-reload id path false r fs ids h t p =
      if_both (λ (q : Residency × F × Saved). q.2 ≡ changed true → Restores path q.0 q.1)
        (agree (is_resident r id) false) _ _ (λ _. cc)
        (λ _. commit-reload r (remove r.resident id) ids path r.path fs h t p p)
