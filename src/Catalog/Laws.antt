-- ===== src/Catalog/Laws.antt =====
-- What the catalogue (src/catalog.rs) promises: lookups after each change, and deleted seeds.
use studio_worker.Base.{
  ◌≤◌, String, Bool, true, false, not, ◌&&◌, ◌||◌, ◌≡◌, refl, Option, none, some, List, [], ◌∷◌,
  ◌++◌, arith, ◌↔◌, ◌⊎◌, if◌then◌else◌, ◌==◌, same, same_iff, same_refl, length,
}
use studio_worker.Catalog.{
  CatalogModel, Catalog, contains, find, get, has, missing, ensure_seeds, drop_id, put, upsert,
  sync_found, sync_studio_model, drop_model, remove,
}

contains-drop_id :
    (xs : List String) (id k : String)
    → contains (drop_id xs id) k ≡ (not (same id k) && contains xs k)
unfolding contains drop_id
contains-drop_id [] id k = ground arith
contains-drop_id (x ∷ xs) id k =
    ground (arith, contains-drop_id xs id k, same_iff x id, same_iff x k, same_iff id k)

contains-append :
    (xs : List String) (id k : String) → contains (xs ++ id ∷ []) k ≡ (contains xs k || same id k)
unfolding contains
contains-append [] id k = ground arith
contains-append (x ∷ xs) id k = ground (arith, contains-append xs id k)

module _ {G P : Type 0} where
  find-put :
      (xs : List (CatalogModel G P)) (m : CatalogModel G P) (k : String)
      → find (put xs m) k ≡ (if same m.id k then some m else find xs k)
  unfolding find put
  find-put [] m k = refl
  find-put (x ∷ xs) m k =
      ground (arith, find-put xs m k, same_iff x.id m.id, same_iff x.id k, same_iff m.id k)

  find-append :
      (xs ys : List (CatalogModel G P)) (k : String)
      → find (xs ++ ys) k ≡ (if has xs k then find xs k else find ys k)
  unfolding find has
  find-append [] ys k = refl
  find-append (x ∷ xs) ys k = ground (arith, find-append xs ys k)

  find-drop_model :
      (xs : List (CatalogModel G P)) (id k : String)
      → find (drop_model xs id) k ≡ (if same id k then none else find xs k)
  unfolding find drop_model
  find-drop_model [] id k = ground arith
  find-drop_model (x ∷ xs) id k =
      ground (arith, find-drop_model xs id k, same_iff x.id id, same_iff x.id k, same_iff id k)

  has-find : (xs : List (CatalogModel G P)) (k : String) → (has xs k ≡ false) ↔ (find xs k ≡ none)
  unfolding find has
  has-find [] k = ground arith
  has-find (x ∷ xs) k = ground (arith, has-find xs k)

  length-drop_model :
      (xs : List (CatalogModel G P)) (id : String)
      → (length (drop_model xs id) ≤ length xs)
        × (has xs id ≡ not (length (drop_model xs id) == length xs))
  unfolding has drop_model
  length-drop_model [] id = ground arith
  length-drop_model (x ∷ xs) id = ground (arith, length-drop_model xs id)

  -- A seed is missing when the catalogue neither has it nor dismissed it.
  find-missing :
      (c : Catalog G P) (seeds : List (CatalogModel G P)) (k : String)
      → find (missing c seeds) k
        ≡ (if has c.models k || contains c.dismissed_seeds k then none else find seeds k)
  unfolding find missing
  find-missing c [] k = ground arith
  find-missing c (s ∷ seeds) k = ground (arith, find-missing c seeds k, same_iff s.id k)

  -- After an upsert the model is found under its id, every other id finds what it did, and only
  -- that model's dismissal is forgotten.
  get-upsert :
      (m : CatalogModel G P) (c : Catalog G P) (k : String)
      → (get (upsert m c) k ≡ (if same m.id k then some m else get c k))
        × (contains (upsert m c).dismissed_seeds k
            ≡ (not (same m.id k) && contains c.dismissed_seeds k))
  unfolding get upsert
  get-upsert m c k = (find-put c.models m k, contains-drop_id c.dismissed_seeds m.id k)

  -- What `sync_studio_model` promises, for the entry `o` that it finds.
  abbrev Synced :
      (CatalogModel G P → CatalogModel G P → Bool)
      → CatalogModel G P
      → Catalog G P
      → String
      → Option (CatalogModel G P)
      → Catalog G P × Bool
      → Type 0
  Synced eq m c k o (c', told) =
      (((told ≡ true)
          × (find c'.models k ≡ (if same m.id k then some m else find c.models k))
          × (c'.dismissed_seeds ≡ c.dismissed_seeds))
        ⊎ ((told ≡ false) × (c' ≡ c)))
      × ((told ≡ false)
          ↔ ((e : CatalogModel G P) × (o ≡ some e) × ((e.origin ≡ "local") ⊎ (eq e m ≡ true))))

  sync_found-Synced :
      (eq : CatalogModel G P → CatalogModel G P → Bool) (m : CatalogModel G P) (c : Catalog G P)
      (k : String) (o : Option (CatalogModel G P))
      → find c.models m.id ≡ o
      → Synced eq m c k o (sync_found eq m o c)
  unfolding sync_found find
  sync_found-Synced eq m c k none h = (
    ground (arith, find-append c.models (m ∷ []) k, has-find c.models k, same_iff m.id k),
    ground arith,
  )
  sync_found-Synced eq m c k (some e) h = (
    ground (arith, find-put c.models m k, same_iff e.origin "local"),
    (
      λ t. (e, refl, ground (arith, same_iff e.origin "local")),
      λ (e', q, d). ground (arith, same_iff e.origin "local"),
    ),
  )

  -- A model mirrored from a studio offer is stored under its id, unless the operator owns the entry
  -- of that id or that entry is already equal: then nothing changes and the answer is false. Every
  -- other id finds what it did, and the dismissed seeds stay.
  sync_studio_model_lem :
      (eq : CatalogModel G P → CatalogModel G P → Bool) (m : CatalogModel G P) (c : Catalog G P)
      (k : String)
      → let (c', told) = sync_studio_model eq m c in
        (((told ≡ true)
            × (get c' k ≡ (if same m.id k then some m else get c k))
            × (c'.dismissed_seeds ≡ c.dismissed_seeds))
          ⊎ ((told ≡ false) × (c' ≡ c)))
        × ((told ≡ false) ↔ (
            (e : CatalogModel G P) × (get c m.id ≡ some e)
            × ((e.origin ≡ "local") ⊎ (eq e m ≡ true))))
  unfolding get sync_studio_model
  sync_studio_model_lem eq m c k = sync_found-Synced eq m c k (find c.models m.id) refl

  -- Removing an id leaves no entry of it and every other entry, answers whether there was one, and
  -- dismisses it exactly if it was there and is a seed's id (or was dismissed before).
  get-remove :
      (seeds : List (CatalogModel G P)) (id : String) (c : Catalog G P) (k : String)
      → let (c', told) = remove seeds id c in
        (get c' k ≡ (if same id k then none else get c k))
        × (told ≡ has c.models id)
        × (contains c'.dismissed_seeds k
            ≡ (contains c.dismissed_seeds k || (same id k && has c.models id && has seeds id)))
  unfolding get remove
  get-remove seeds id c k = (
    find-drop_model c.models id k,
    ground (arith, length-drop_model c.models id),
    ground (
      arith,
      length-drop_model c.models id,
      contains-append c.dismissed_seeds id k,
      same_iff id k,
    ),
  )

  -- Seeding answers every id by the operator's entry, if there is one, else by the seed, unless that
  -- was dismissed; it never forgets a dismissal.
  get-ensure_seeds :
      (seeds : List (CatalogModel G P)) (c : Catalog G P) (k : String)
      → let (c', told) = ensure_seeds seeds c in
        (get c' k ≡ (
          if has c.models k
          then get c k
          else if contains c.dismissed_seeds k
          then none
          else find seeds k))
        × (c'.dismissed_seeds ≡ c.dismissed_seeds)
  unfolding get ensure_seeds
  get-ensure_seeds seeds c k =
      ground (arith, find-append c.models (missing c seeds) k, find-missing c seeds k)

  -- A seed that the operator deleted stays deleted however often the daemon starts and seeds again.
  remove-ensure_seeds :
      (seeds : List (CatalogModel G P)) (id : String) (c : Catalog G P)
      → has c.models id ≡ true
      → has seeds id ≡ true
      → get (ensure_seeds seeds (remove seeds id c).0).0 id ≡ none
  unfolding get
  remove-ensure_seeds seeds id c h s =
      let c' = (remove seeds id c).0 in
      ground (
        arith,
        get-ensure_seeds seeds c' id,
        get-remove seeds id c id,
        has-find c'.models id,
        same_refl id,
      )
