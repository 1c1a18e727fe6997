-- ===== src/Download/Cache.antt =====
-- Which copy of a model file is used, and the files that a job brings (src/engine/download.rs).
use studio_worker.Base.{
  ℕ, ◌+◌, ◌-◌, ◌/◌, ◌^◌, min, Bool, true, false, not, Option, none, some, length, ltb, ◌==◌,
  if◌then◌else◌,
}
use studio_worker.Base.Chars.{Chars}
use studio_worker.Download.Names.{Folder, FilePath, model_dir, model_cache_path}
use studio_worker.Download.Fetch.{
  Bytes, Store, Outside, not_plain, no_space, Fetched, got, failed, unfinished, Wanted,
  download_file_verified,
}

pub record ModelFile : Type 0 where
  pub filename : Chars
  pub url : Chars
  pub sha256 : Option Chars
  pub approx_bytes : Option ℕ

unfoldable pub is_file : FilePath → Store → Bool
is_file p store = elim (store p) [ none ↦ false | some content ↦ true ]

-- The part of a root copy's metadata that counts: a declared size must be its size.
unfoldable pub of_size : Option ℕ → Bytes → Bool
of_size none content = true
of_size (some want) content = want == length content

unfoldable pub root_copy : FilePath → Option ℕ → Option Bytes → Option FilePath
root_copy p approx_bytes none = none
root_copy p approx_bytes (some content) = if of_size approx_bytes content then some p else none

-- `none` is a name that is refused.
unfoldable pub existing_copy : Folder → Folder → ModelFile → Store → Option (Option FilePath)
unfolding is_file root_copy of_size model_cache_path
existing_copy dir models_root file store = elim (model_cache_path dir file.filename) [
  | none ↦ none
  | some cached ↦
      if is_file cached store
      then some (some cached)
      else elim (model_cache_path models_root file.filename) [
        | none ↦ none
        | some p ↦ some (root_copy p file.approx_bytes (store p))
      ]
]

-- A sum of two `u64`s that stops at the largest.
unfoldable pub saturating_add : ℕ → ℕ → ℕ → ℕ
saturating_add limit a b = min (a + b) limit

unfoldable pub check_disk_space : ℕ → ℕ → ℕ → Bool
unfolding saturating_add
check_disk_space largest available approx_bytes =
    not (ltb available (saturating_add largest approx_bytes (approx_bytes / 10)))

module _ (out : Outside) where
  unfoldable pub fits : ℕ → Option ℕ → Bool
  unfolding check_disk_space
  fits needed none = true
  fits needed (some available) = check_disk_space (2 ^ 64 - 1) available needed

  unfoldable pub preflight_disk_space : Folder → Option ℕ → Bool
  unfolding fits
  preflight_disk_space dir none = true
  preflight_disk_space dir (some needed) = if ltb 0 needed then fits needed (out.free dir) else true

  -- The path, once the download ended.
  unfoldable pub at_path : FilePath → Store × Fetched (Unit {0}) → Store × Fetched FilePath
  at_path p (store, got _) = (store, got p)
  at_path p (store, failed e) = (store, failed e)
  at_path p (store, unfinished) = (store, unfinished)

  unfoldable pub wanted : ModelFile → FilePath → Wanted
  wanted file p = record { url = file.url; dest = p; sha256 = file.sha256 }

  -- What both do when the file is missing.
  unfoldable pub downloaded_to : ℕ → ModelFile → FilePath → Store → Store × Fetched FilePath
  unfolding at_path wanted preflight_disk_space download_file_verified
  downloaded_to fuel file p store =
      if preflight_disk_space p.folder file.approx_bytes
      then at_path p (download_file_verified out fuel 0 (wanted file p) store)
      else (store, failed no_space)

  unfoldable pub ensure_file : ℕ → Folder → ModelFile → Store → Store × Fetched FilePath
  unfolding downloaded_to is_file model_cache_path
  ensure_file fuel dir file store = elim (model_cache_path dir file.filename) [
    | none ↦ (store, failed not_plain)
    | some local ↦
        if is_file local store then (store, got local) else downloaded_to fuel file local store
  ]

  unfoldable pub ensure_file_reusing :
      ℕ → Folder → Folder → ModelFile → Store → Store × Fetched FilePath
  unfolding existing_copy ensure_file
  ensure_file_reusing fuel dir models_root file store =
      elim (existing_copy dir models_root file store) [
        | none ↦ (store, failed not_plain)
        | some (some p) ↦ (store, got p)
        | some none ↦ ensure_file fuel dir file store
      ]

  unfoldable pub unless_legacy :
      ℕ → ModelFile → FilePath → Store → Option FilePath → Store × Fetched FilePath
  unfolding is_file downloaded_to
  unless_legacy fuel file target store none = (store, failed not_plain)
  unless_legacy fuel file target store (some legacy) =
      if is_file legacy store then (store, got legacy) else downloaded_to fuel file target store

  unfoldable pub ensure_file_for_model :
      ℕ → Folder → Chars → ModelFile → Store → Store × Fetched FilePath
  unfolding model_dir model_cache_path is_file unless_legacy
  ensure_file_for_model fuel models_root model_id file store =
      elim (model_cache_path (model_dir models_root model_id) file.filename) [
        | none ↦ (store, failed not_plain)
        | some target ↦
            if is_file target store
            then (store, got target)
            else unless_legacy fuel file target store (model_cache_path models_root file.filename)
      ]
