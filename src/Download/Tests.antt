-- ===== src/Download/Tests.antt =====
-- A file of three bytes, one of which is already there.
use studio_worker.Base.{
  ℕ, zero, suc, ◌+◌, ◌<◌, true, false, ◌≡◌, refl, none, some, [], ◌∷◌, ◌++◌, arith, ◌⊎◌, take,
}
use studio_worker.Base.Chars.{
  Chars, codes, same_chars, same_ignoring_case, is_digit, is_whitespace, is_alphanumeric, trim,
  strip_prefix,
}
use studio_worker.Download.Names.{
  Folder, FilePath, same_path, same_folder, sanitise_model_dir, model_dir,
}
use studio_worker.Download.Fetch.{
  Bytes, Store, Outside, no_host, Wanted, part_of, download_file_verified, content_range_start,
  content_of, verify_sha256, validate_download_url, digits_from, is_success, starts_at,
  verify_download_len,
}
use studio_worker.Download.Cache.{
  ModelFile, ensure_file, ensure_file_reusing, ensure_file_for_model,
}
use studio_worker.Download.Inputs.{ensure_correct_image_extension}
use studio_worker.Download.Safety.{IsCareful, download_file_verified-IsCareful}
use studio_worker.Download.Resume.{serving, Works, Complete, download_file_verified-Complete}
use studio_worker.Download.Ending.{IsEnded, download_file_verified-IsEnded}
use studio_worker.Download.Holding.{IsHeld}
use studio_worker.Download.Ensuring.{ensure_file_lem}
use studio_worker.Download.Pictures.{IsCorrected, ensure_correct_image_extension-IsCorrected}

abbrev weights : Bytes
weights = 1 ∷ 2 ∷ 3 ∷ []

abbrev header : ℕ → Chars
header from = codes "bytes " ++ (b'0' + from) ∷ codes "-2/3"

-- The digest of a file is its bytes.
abbrev out : Outside
out = record {
  parse_url = λ u. some (record { scheme = codes "https"; host = no_host });
  send = λ m u from. serving weights header from;
  sha256_hex = λ b. b;
  from_base64 = λ s. some s;
  free = λ d. none;
  folder_fails = false;
  remove_fails = false;
  read_fails = false;
  append_fails = false;
  create_fails = false;
  rename_fails = false;
}

abbrev models : Folder
models = codes "models" ∷ []

abbrev dest : FilePath
dest = record { folder = models; name = codes "m.gguf" }

abbrev request : Wanted
request = record { url = codes "https://x"; dest = dest; sha256 = some weights }

-- One byte came before.
abbrev store : Store
store p = elim p.name [ [] ↦ none | c ∷ cs ↦ elim p.folder [ [] ↦ none | d ∷ ds ↦ some (1 ∷ []) ] ]

abbrev empty : Store
empty p = none

-- The part of `m.gguf` is `m.part`.
part_of_run : part_of dest ≡ record { folder = models; name = codes "m.part" }
unfolding part_of
part_of_run = refl

-- Two files of one folder whose names differ only in their extension have the same part.
part_of_shared :
    part_of (record { folder = models; name = codes "m.gguf" })
    ≡ part_of (record { folder = models; name = codes "m.safetensors" })
unfolding part_of
part_of_shared = refl

content_range_start_run : content_range_start (codes " bytes 12-99/100") ≡ some 12
unfolding content_range_start is_whitespace digits_from is_digit
content_range_start_run = refl

resumed_run : (download_file_verified out 2 0 request store).0 dest ≡ some weights
unfolding download_file_verified validate_download_url same_chars content_of is_success starts_at
    content_range_start is_whitespace digits_from is_digit verify_download_len verify_sha256
    same_ignoring_case same_folder
resumed_run = refl

apart : same_path dest (part_of dest) ≡ false
unfolding same_path same_folder part_of same_chars
apart = refl

ranges : (from : ℕ) → from < 3 → content_range_start (header from) ≡ some from
unfolding content_range_start is_whitespace digits_from is_digit
ranges zero h = refl
ranges (suc zero) h = refl
ranges (suc (suc zero)) h = refl
ranges (suc (suc (suc n))) h = absurd (omega (arith, h))

accepted : validate_download_url (out.parse_url request.url) ≡ true
unfolding validate_download_url same_chars
accepted = refl

digest : verify_sha256 weights (some weights) ≡ true
unfolding verify_sha256 same_ignoring_case same_chars is_whitespace trim
digest = refl

works : Works out
works = record {
  folder = refl;
  removes = refl;
  reads = refl;
  appends = refl;
  creates = refl;
  renames = refl;
}

download_file_verified-IsCareful_example :
    IsCareful out request store (download_file_verified out 2 0 request store)
download_file_verified-IsCareful_example =
    download_file_verified-IsCareful out request 2 0 store apart

one_byte : content_of (store (part_of dest)) ≡ take 1 weights
unfolding content_of part_of
one_byte = refl

download_file_verified-Complete_example :
    Complete request weights (download_file_verified out 2 0 request store)
download_file_verified-Complete_example =
    download_file_verified-Complete out request weights header 0 0 1 store works accepted
      (λ m from. refl) ranges digest apart one_byte

download_file_verified-IsEnded_example : IsEnded (download_file_verified out 2 0 request store).1
download_file_verified-IsEnded_example = download_file_verified-IsEnded out request 0 0 store refl

abbrev model : ModelFile
model = record {
  filename = codes "m.gguf";
  url = codes "https://x";
  sha256 = some weights;
  approx_bytes = some 3;
}

model_apart : same_chars (codes "m.gguf") (codes "m.part") ≡ false
unfolding same_chars
model_apart = refl

abbrev sub : Folder
sub = codes "models" ∷ codes "m" ∷ []

ensure_file_lem_example :
    IsHeld out (λ d. d ≡ sub) model empty (ensure_file out 2 sub model empty)
    × IsHeld out
        (λ d. (d ≡ sub) ⊎ (d ≡ models))
        model
        empty
        (ensure_file_reusing out 2 sub models model empty)
    × IsHeld out
        (λ d. (d ≡ model_dir models (codes "m")) ⊎ (d ≡ models))
        model
        empty
        (ensure_file_for_model out 2 models (codes "m") model empty)
unfolding part_of
ensure_file_lem_example = ensure_file_lem out 2 sub models (codes "m") model empty model_apart

sanitise_model_dir_run : sanitise_model_dir (codes "../a b") ≡ codes "_._a_b"
unfolding sanitise_model_dir is_alphanumeric is_digit
sanitise_model_dir_run = refl

abbrev picture : FilePath
picture = record { folder = models; name = codes "latest.webp" }

abbrev jpeg : Bytes
jpeg = 0xff ∷ 0xd8 ∷ 0xff ∷ 0 ∷ []

abbrev one_picture : Store
one_picture p = some jpeg

renamed_run :
    (ensure_correct_image_extension false false picture one_picture).1
    ≡ some (record { folder = models; name = codes "latest.jpg" })
unfolding ensure_correct_image_extension strip_prefix
renamed_run = refl

ensure_correct_image_extension-IsCorrected_example :
    IsCorrected false false jpeg one_picture
      (ensure_correct_image_extension false false picture one_picture)
ensure_correct_image_extension-IsCorrected_example =
    ensure_correct_image_extension-IsCorrected false false picture jpeg one_picture refl (λ e. cc e)
