-- ===== src/Download/Ensuring.antt =====
-- The three ways in which engines ask for a model file (src/engine/download.rs).
use studio_worker.Base.{
  ℕ, Bool, true, false, Option, none, some, ◌≡◌, refl, sym, subst, arith, inl, inr, ◌⊎◌, Bool-cases,
  if_both, if◌then◌else◌,
}
use studio_worker.Base.Chars.{Chars}
use studio_worker.Download.Names.{Folder, FilePath, is_plain, model_cache_path, model_dir}
use studio_worker.Download.Fetch.{Bytes, Store, Outside, not_plain, Fetched, got, failed}
use studio_worker.Download.Cache.{
  ModelFile, is_file, of_size, root_copy, existing_copy, downloaded_to, ensure_file,
  ensure_file_reusing, unless_legacy, ensure_file_for_model,
}
use studio_worker.Download.Holding.{
  IsHeld, IsApart, path, unchanged-IsHeld, cached-IsHeld, downloaded_to-IsHeld, cached_or_fetched,
}

model_cache_path-plain :
    (dir : Folder) (name : Chars)
    → is_plain name ≡ true
    → model_cache_path dir name ≡ some (record { folder = dir; name = name })
unfolding model_cache_path
model_cache_path-plain dir name e = rw e refl

model_cache_path-refused :
    (dir : Folder) (name : Chars) → is_plain name ≡ false → model_cache_path dir name ≡ none
unfolding model_cache_path
model_cache_path-refused dir name e = rw e refl

module _ (out : Outside) (In : Folder → Type 0) (file : ModelFile) (apart : IsApart file) (fuel : ℕ)
    (store : Store) where
  abbrev Held : Store × Fetched FilePath → Type 0
  Held r = IsHeld out In file store r

  abbrev at : Folder → FilePath
  at dir = record { folder = dir; name = file.filename }

  refused : Held (store, failed not_plain)
  refused = unchanged-IsHeld out In file store not_plain

  ensure_file-IsHeld : (dir : Folder) → In dir → Held (ensure_file out fuel dir file store)
  unfolding ensure_file path
  ensure_file-IsHeld dir here = elim (Bool-cases (is_plain file.filename)) [
    | inl e ↦
        let q : ensure_file out fuel dir file store ≡ (
            if is_file (at dir) store
            then (store, got (at dir))
            else downloaded_to out fuel file (at dir) store) =
          rw (model_cache_path-plain dir file.filename e, ensure_file) refl in
        subst Held (sym q) (cached_or_fetched out In file apart fuel store dir e here)
    | inr e ↦
        let q : ensure_file out fuel dir file store ≡ (store, failed not_plain) =
          rw (model_cache_path-refused dir file.filename e, ensure_file) refl in
        subst Held (sym q) refused
  ]

  -- The root's copy counts if its size is the declared one.
  reused-IsHeld :
      (dir root : Folder) (o : Option Bytes)
      → is_plain file.filename ≡ true
      → In dir
      → In root
      → store (at root) ≡ o
      → existing_copy dir root file store ≡ some (root_copy (at root) file.approx_bytes o)
      → Held (ensure_file_reusing out fuel dir root file store)
  unfolding ensure_file_reusing root_copy
  reused-IsHeld dir root none plain here there e q =
      let p : ensure_file_reusing out fuel dir root file store
          ≡ ensure_file out fuel dir file store =
        rw (q, ensure_file_reusing) refl in
      subst Held (sym p) (ensure_file-IsHeld dir here)
  reused-IsHeld dir root (some content) plain here there e q =
      elim (Bool-cases (of_size file.approx_bytes content)) [
        | inl fits ↦
            let p : ensure_file_reusing out fuel dir root file store ≡ (store, got (at root)) =
              rw (q, ensure_file_reusing) (rw fits refl) in
            subst Held (sym p)
              ((refl, plain, there, content, e, λ k. absurd (ground (arith, e, k))), λ p c a k. k)
        | inr other ↦
            let p : ensure_file_reusing out fuel dir root file store
                ≡ ensure_file out fuel dir file store =
              rw (q, ensure_file_reusing) (rw other refl) in
            subst Held (sym p) (ensure_file-IsHeld dir here)
      ]

  by_copy :
      (dir root : Folder) (b : Bool)
      → is_plain file.filename ≡ true
      → In dir
      → In root
      → is_file (at dir) store ≡ b
      → Held (ensure_file_reusing out fuel dir root file store)
  unfolding ensure_file_reusing existing_copy path
  by_copy dir root true e here there has =
      let m = model_cache_path-plain dir file.filename e in
      let p : ensure_file_reusing out fuel dir root file store ≡ (store, got (at dir)) =
        rw (m, ensure_file_reusing) (rw has refl) in
      subst Held (sym p) (cached-IsHeld out In file store dir e here has)
  by_copy dir root false e here there lacks =
      let m = model_cache_path-plain dir file.filename e in
      let n = model_cache_path-plain root file.filename e in
      let p : existing_copy dir root file store
          ≡ some (root_copy (at root) file.approx_bytes (store (at root))) =
        rw (m, existing_copy) (rw lacks (rw (n, existing_copy) refl)) in
      reused-IsHeld dir root (store (at root)) e here there refl p

  ensure_file_reusing-IsHeld :
      (dir root : Folder)
      → In dir
      → In root
      → Held (ensure_file_reusing out fuel dir root file store)
  unfolding ensure_file_reusing existing_copy
  ensure_file_reusing-IsHeld dir root here there = elim (Bool-cases (is_plain file.filename)) [
    | inl e ↦ by_copy dir root (is_file (at dir) store) e here there refl
    | inr e ↦
        let p : ensure_file_reusing out fuel dir root file store ≡ (store, failed not_plain) =
          rw (model_cache_path-refused dir file.filename e, ensure_file_reusing) refl in
        subst Held (sym p) refused
  ]

  ensure_file_for_model-IsHeld :
      (root : Folder) (model_id : Chars)
      → In (model_dir root model_id)
      → In root
      → Held (ensure_file_for_model out fuel root model_id file store)
  unfolding ensure_file_for_model unless_legacy path
  ensure_file_for_model-IsHeld root model_id here there =
      let sub = model_dir root model_id in
      elim (Bool-cases (is_plain file.filename)) [
        | inl e ↦
            let m = model_cache_path-plain sub file.filename e in
            let n = model_cache_path-plain root file.filename e in
            let p : ensure_file_for_model out fuel root model_id file store ≡ (
                if is_file (at sub) store
                then (store, got (at sub))
                else unless_legacy out fuel file (at sub) store (some (at root))) =
              rw (m, n, ensure_file_for_model) refl in
            subst Held (sym p) (
              if_both Held (is_file (at sub) store) _ _
                (λ has. cached-IsHeld out In file store sub e here has)
                (λ lacks.
                  if_both Held (is_file (at root) store) _ _
                    (λ has. cached-IsHeld out In file store root e there has)
                    (λ _. downloaded_to-IsHeld out In file apart fuel store sub e here lacks)))
        | inr e ↦
            let p : ensure_file_for_model out fuel root model_id file store
                ≡ (store, failed not_plain) =
              rw (model_cache_path-refused sub file.filename e, ensure_file_for_model) refl in
            subst Held (sym p) refused
      ]

-- For a file whose name is not the name of its own part (as x.part would be), and whatever the network
-- and the disk do: a path that an engine gets names a file that is there, under
-- the plain name asked for and in a folder where it may be: the one given, and in two of the three ways
-- also the models root. A file that was not there before has the registry's digest, if there is one, and
-- no file that was there has changed, parts of that name left aside.
pub ensure_file_lem :
    (out : Outside) (fuel : ℕ) (dir root : Folder) (model_id : Chars) (file : ModelFile)
    (store : Store)
    → IsApart file
    → IsHeld out (λ d. d ≡ dir) file store (ensure_file out fuel dir file store)
      × IsHeld out
          (λ d. (d ≡ dir) ⊎ (d ≡ root))
          file
          store
          (ensure_file_reusing out fuel dir root file store)
      × IsHeld out
          (λ d. (d ≡ model_dir root model_id) ⊎ (d ≡ root))
          file
          store
          (ensure_file_for_model out fuel root model_id file store)
ensure_file_lem out fuel dir root model_id file store apart = (
  ensure_file-IsHeld out _ file apart fuel store dir refl,
  ensure_file_reusing-IsHeld out _ file apart fuel store dir root (inl refl) (inr refl),
  ensure_file_for_model-IsHeld out _ file apart fuel store root model_id (inl refl) (inr refl),
)
