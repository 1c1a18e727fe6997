-- ===== src/Download/Inputs.antt =====
-- The pictures that a job brings, and the files that it drops (src/engine/download.rs).
use studio_worker.Base.{
  ℕ, Bool, true, false, ◌&&◌, ◌||◌, Option, none, some, List, [], ◌∷◌, length, take, drop, leb,
  if◌then◌else◌,
}
use studio_worker.Base.Chars.{Chars, codes, same_chars, strip_prefix, lower}
use studio_worker.Download.Names.{FilePath, extension, with_extension}
use studio_worker.Download.Fetch.{
  Bytes, Store, put_file, Outside, not_inline, not_written, no_folder, Fetched, got, failed,
  download_file_verified, remove_temp_file,
}

-- `split_once(";base64,")`, what follows it.
unfoldable pub after_mark : Chars → Chars → Option Chars
after_mark mark [] = strip_prefix mark []
after_mark mark (c ∷ cs) = elim (strip_prefix mark (c ∷ cs)) [
  | some rest ↦ some rest
  | none ↦ after_mark mark cs
]

unfoldable pub not_empty : Option Bytes → Option Bytes
not_empty none = none
not_empty (some []) = none
not_empty (some (b ∷ bs)) = some (b ∷ bs)

-- Does the text begin so.
unfoldable pub begins_so : Chars → Chars → Bool
begins_so prefix text = elim (strip_prefix prefix text) [ none ↦ false | some rest ↦ true ]

module _ (out : Outside) (write_fails : Bool) where
  unfoldable pub decode_image_data_url : Chars → Option Bytes
  unfolding after_mark not_empty
  decode_image_data_url url = elim (strip_prefix (codes "data:image/") url) [
    | none ↦ none
    | some rest ↦ elim (after_mark (codes ";base64,") rest) [
      | none ↦ none
      | some payload ↦ not_empty (out.from_base64 payload)
    ]
  ]

  unfoldable pub write_data_url : Chars → FilePath → Store → Store × Fetched (Unit {0})
  unfolding decode_image_data_url put_file
  write_data_url url dest store = elim (decode_image_data_url url) [
    | none ↦ (store, failed not_inline)
    | some bytes ↦
        if out.folder_fails
        then (store, failed no_folder)
        else if write_fails
        then (store, failed not_written)
        else (put_file dest (some bytes) store, got tt)
  ]

  unfoldable pub download_file : ℕ → Chars → FilePath → Store → Store × Fetched (Unit {0})
  unfolding write_data_url download_file_verified begins_so
  download_file fuel url dest store =
      if begins_so (codes "data:") url
      then write_data_url url dest store
      else download_file_verified out fuel 0 (record { url = url; dest = dest; sha256 = none })
          store

-- The first four bytes, and those from the ninth on, of a WebP.
unfoldable pub is_webp : Bytes → Bool
unfolding same_chars
is_webp bytes =
    leb 12 (length bytes)
    && same_chars (take 4 bytes) (codes "RIFF")
    && same_chars (take 4 (drop 8 bytes)) (codes "WEBP")

unfoldable pub sniff_image_extension : Bytes → Option Chars
unfolding begins_so is_webp
sniff_image_extension bytes =
    if begins_so (0xff ∷ 0xd8 ∷ 0xff ∷ []) bytes
    then some (codes "jpg")
    else if begins_so (0x89 ∷ b'P' ∷ b'N' ∷ b'G' ∷ 0x0d ∷ 0x0a ∷ 0x1a ∷ 0x0a ∷ []) bytes
    then some (codes "png")
    else if is_webp bytes
    then some (codes "webp")
    else if begins_so (codes "GIF87a") bytes || begins_so (codes "GIF89a") bytes
    then some (codes "gif")
    else if begins_so (codes "BM") bytes
    then some (codes "bmp")
    else if begins_so (0x49 ∷ 0x49 ∷ 0x2a ∷ 0x00 ∷ []) bytes
        || begins_so (0x4d ∷ 0x4d ∷ 0x00 ∷ 0x2a ∷ []) bytes
    then some (codes "tif")
    else none

-- `jpeg` and `jpg` are the same to the decoder.
unfoldable pub fits_extension : Chars → Option Chars → Bool
unfolding same_chars
fits_extension actual none = false
fits_extension actual (some current) =
    same_chars current actual
    || (same_chars actual (codes "jpg") && same_chars current (codes "jpeg"))

unfoldable pub lower_extension : Option Chars → Option Chars
unfolding lower
lower_extension none = none
lower_extension (some e) = some (lower e)

module _ (open_fails rename_fails : Bool) where
  -- By what the first sixteen bytes say; `none` is an error.
  unfoldable pub by_content : FilePath → Bytes → Option Chars → Store → Store × Option FilePath
  unfolding fits_extension lower_extension extension with_extension put_file
  by_content path content none store = (store, some path)
  by_content path content (some actual) store =
      if fits_extension actual (lower_extension (extension path))
      then (store, some path)
      else if rename_fails
      then (store, none)
      else (
        put_file (with_extension actual path) (some content) (put_file path none store),
        some (with_extension actual path),
      )

  unfoldable pub ensure_correct_image_extension : FilePath → Store → Store × Option FilePath
  unfolding by_content sniff_image_extension
  ensure_correct_image_extension path store = elim (store path) [
    | none ↦ (store, none)
    | some content ↦
        if open_fails
        then (store, none)
        else by_content path content (sniff_image_extension (take 16 content)) store
  ]

-- `TempFileGuard`: the paths, and what its drop leaves.
unfoldable pub drop_guard : Outside → List FilePath → Store → Store
unfolding remove_temp_file
drop_guard out [] store = store
drop_guard out (p ∷ ps) store = drop_guard out ps (remove_temp_file out p store)
