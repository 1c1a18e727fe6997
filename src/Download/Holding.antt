-- ===== src/Download/Holding.antt =====
-- What the engines get when they ask for a model file (src/engine/download.rs).
use studio_worker.Base.{
  ℕ, true, false, Option, none, some, [], ◌≡◌, refl, sym, subst, ◌∙◌, arith, inl, inr, Bool-cases,
  if_both, if◌then◌else◌,
}
use studio_worker.Base.Chars.{Chars, same_chars}
use studio_worker.Download.Names.{
  Folder, FilePath, same_path, same_path_iff, is_plain, with_extension,
}
use studio_worker.Download.Fetch.{
  Bytes, Store, Outside, DownloadError, no_space, Fetched, got, failed, unfinished, part_of,
  verify_sha256, download_file_verified,
}
use studio_worker.Download.Cache.{
  ModelFile, is_file, at_path, wanted, downloaded_to, preflight_disk_space,
}
use studio_worker.Download.Safety.{IsCareful, download_file_verified-IsCareful}

-- The name of a file's part.
abbrev pub part_name : Chars → Chars
part_name name = (part_of (record { folder = []; name = name })).name

-- The file is there, under its plain name and in a folder that was asked for; if it had to be fetched,
-- it has the digest that the registry gives.
abbrev pub Found :
    Outside → (Folder → Type 0) → ModelFile → Store → Store → Fetched FilePath → Type 0
Found out In file before after (got p) =
    (p.name ≡ file.filename)
    × (is_plain file.filename ≡ true)
    × In p.folder
    × (content : Bytes) × (after p ≡ some content)
    × (before p ≡ none → verify_sha256 (out.sha256_hex content) file.sha256 ≡ true)
Found out In file before after (failed e) = Unit
Found out In file before after unfinished = Unit

-- No file that was there changes, parts of this name left aside.
abbrev pub Keeps : ModelFile → Store → Store → Type 0
Keeps file before after =
    (q : FilePath) (content : Bytes)
    → same_chars q.name (part_name file.filename) ≡ false
    → before q ≡ some content
    → after q ≡ some content

abbrev pub IsHeld :
    Outside → (Folder → Type 0) → ModelFile → Store → Store × Fetched FilePath → Type 0
IsHeld out In file before r = Found out In file before r.0 r.1 × Keeps file before r.0

-- The name does not end the way its own part's does.
abbrev pub IsApart : ModelFile → Type 0
IsApart file = same_chars file.filename (part_name file.filename) ≡ false

module _ (out : Outside) (In : Folder → Type 0) (file : ModelFile) where
  same_path-name : (p q : FilePath) → same_chars p.name q.name ≡ false → same_path p q ≡ false
  unfolding same_path
  same_path-name p q h = ground (arith, h)

  pub unchanged-IsHeld :
      (store : Store) (e : DownloadError) → IsHeld out In file store (store, failed e)
  unchanged-IsHeld store e = (tt, λ q c a h. h)

  unfoldable pub path : Folder → FilePath
  path dir = record { folder = dir; name = file.filename }

  pub cached-IsHeld :
      (store : Store) (dir : Folder)
      → is_plain file.filename ≡ true
      → In dir
      → is_file (path dir) store ≡ true
      → IsHeld out In file store (store, got (path dir))
  unfolding is_file path
  cached-IsHeld store dir plain here h =
      let has : (content : Bytes) × (store (path dir) ≡ some content) =
        content_there (store (path dir)) h in
      ((refl, plain, here, has.0, has.1, λ e. absurd (ground (arith, e, has.1))), λ q c a k. k)
    where
      content_there :
          (o : Option Bytes)
          → (elim o [ none ↦ false | some content ↦ true ]) ≡ true
          → (content : Bytes) × (o ≡ some content)
      content_there none e = absurd (ground (arith, e))
      content_there (some content) e = (content, refl)

  kept-Keeps :
      (store after : Store) (dir : Folder)
      → store (path dir) ≡ none
      → ((q : FilePath)
          → same_path q (path dir) ≡ false
          → same_path q (part_of (path dir)) ≡ false
          → after q ≡ store q)
      → Keeps file store after
  unfolding part_of with_extension path
  kept-Keeps store after dir absent others q content a k =
      elim (Bool-cases (same_path q (path dir))) [
        | inl e ↦
            let missing : store q ≡ none =
              subst (λ p. store p ≡ none) (sym ((same_path_iff q (path dir)).0 e)) absent in
            absurd (ground (arith, missing, k))
        | inr e ↦ others q e (same_path-name q (part_of (path dir)) a) ∙ k
      ]

  at_path-IsHeld :
      (store : Store) (dir : Folder) (r : Store × Fetched (Unit {0}))
      → is_plain file.filename ≡ true
      → In dir
      → store (path dir) ≡ none
      → IsCareful out (wanted out file (path dir)) store r
      → IsHeld out In file store (at_path out (path dir) r)
  unfolding at_path wanted path
  at_path-IsHeld store dir (after, got _) plain here absent (s, others) =
      ((refl, plain, here, s.0, s.1, λ _. s.2), kept-Keeps store after dir absent others)
  at_path-IsHeld store dir (after, failed e) plain here absent (s, others) =
      (tt, kept-Keeps store after dir absent others)
  at_path-IsHeld store dir (after, unfinished) plain here absent (s, others) =
      (tt, kept-Keeps store after dir absent others)

  pub is_file-none : (p : FilePath) (store : Store) → is_file p store ≡ false → store p ≡ none
  unfolding is_file
  is_file-none p store h = ground (arith, h)

  module _ (apart : IsApart file) where
    path-apart : (dir : Folder) → same_path (path dir) (part_of (path dir)) ≡ false
    unfolding part_of with_extension path
    path-apart dir = same_path-name (path dir) (part_of (path dir)) apart

    pub downloaded_to-IsHeld :
        (fuel : ℕ) (store : Store) (dir : Folder)
        → is_plain file.filename ≡ true
        → In dir
        → is_file (path dir) store ≡ false
        → IsHeld out In file store (downloaded_to out fuel file (path dir) store)
    unfolding downloaded_to wanted path
    downloaded_to-IsHeld fuel store dir plain here absent =
        if_both (IsHeld out In file store) (preflight_disk_space out dir file.approx_bytes) _ _
          (λ _.
            at_path-IsHeld store dir
              (download_file_verified out fuel 0 (wanted out file (path dir)) store) plain here
              (is_file-none (path dir) store absent)
              (download_file_verified-IsCareful out (wanted out file (path dir)) fuel 0 store
                (path-apart dir)))
          (λ _. unchanged-IsHeld store no_space)

    -- A file that is there is used, another is fetched.
    pub cached_or_fetched :
        (fuel : ℕ) (store : Store) (dir : Folder)
        → is_plain file.filename ≡ true
        → In dir
        → IsHeld out In file store (
            if is_file (path dir) store
            then (store, got (path dir))
            else downloaded_to out fuel file (path dir) store)
    cached_or_fetched fuel store dir plain here =
        if_both (IsHeld out In file store) (is_file (path dir) store) _ _
          (λ e. cached-IsHeld store dir plain here e)
          (λ e. downloaded_to-IsHeld fuel store dir plain here e)
