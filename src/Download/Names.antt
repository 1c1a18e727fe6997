-- ===== src/Download/Names.antt =====
-- File names and paths (src/engine/download.rs), by the rules of Unix.
use studio_worker.Base.{
  ℕ, Bool, true, false, not, ◌&&◌, ◌||◌, Option, none, some, List, [], ◌∷◌, ◌++◌, map, ◌==◌,
  if◌then◌else◌, ◌≡◌, ◌↔◌, arith,
}
use studio_worker.Base.Chars.{
  Chars, codes, same_chars, same_chars_iff, is_alphanumeric, contains_char,
}

-- A folder, by the segments from the root on.
abbrev pub Folder : Type 0
Folder = List Chars

pub record FilePath : Type 0 where
  pub folder : Folder
  pub name : Chars

unfoldable pub same_folder : Folder → Folder → Bool
same_folder [] [] = true
same_folder [] (d ∷ ds) = false
same_folder (c ∷ cs) [] = false
same_folder (c ∷ cs) (d ∷ ds) = same_chars c d && same_folder cs ds

pub same_folder_iff : (s t : Folder) → (same_folder s t ≡ true) ↔ (s ≡ t)
unfolding same_folder
same_folder_iff [] [] = ground arith
same_folder_iff [] (d ∷ ds) = ground arith
same_folder_iff (c ∷ cs) [] = ground arith
same_folder_iff (c ∷ cs) (d ∷ ds) = ground (arith, same_chars_iff c d, same_folder_iff cs ds)

unfoldable pub same_path : FilePath → FilePath → Bool
same_path p q = same_folder p.folder q.folder && same_chars p.name q.name

pub same_path_iff : (p q : FilePath) → (same_path p q ≡ true) ↔ (p ≡ q)
unfolding same_path
same_path_iff p q = ground (arith, same_folder_iff p.folder q.folder, same_chars_iff p.name q.name)

-- A character of a directory segment.
unfoldable pub segment_char : ℕ → ℕ
segment_char c = if is_alphanumeric c || c == b'.' || c == b'_' || c == b'-' then c else b'_'

-- An empty segment, and one with a dot first, get a `_`.
unfoldable pub visible : Chars → Chars
visible [] = b'_' ∷ []
visible (c ∷ cs) = if c == b'.' then b'_' ∷ cs else c ∷ cs

unfoldable pub sanitise_model_dir : Chars → Chars
unfolding segment_char visible
sanitise_model_dir model_id = visible (map segment_char model_id)

unfoldable pub model_dir : Folder → Chars → Folder
unfolding sanitise_model_dir
model_dir models_root model_id = models_root ++ sanitise_model_dir model_id ∷ []

-- The name is one `Component::Normal`, with neither separator in it.
unfoldable pub is_plain : Chars → Bool
unfolding contains_char same_chars
is_plain name =
    not (contains_char b'/' name)
    && not (contains_char b'\\' name)
    && not (same_chars name [])
    && not (same_chars name (codes "."))
    && not (same_chars name (codes ".."))

unfoldable pub model_cache_path : Folder → Chars → Option FilePath
unfolding is_plain
model_cache_path dir filename =
    if is_plain filename then some (record { folder = dir; name = filename }) else none

-- What stands before and after the last dot of a name.
unfoldable pub at_last_dot : Chars → Option (Chars × Chars)
at_last_dot [] = none
at_last_dot (c ∷ cs) = elim (at_last_dot cs) [
  | some (before, after) ↦ some (c ∷ before, after)
  | none ↦ if c == b'.' then some ([], cs) else none
]

-- `Path::file_stem` and `Path::extension`: a dot in front starts no extension.
unfoldable pub stem_of : Chars → Option (Chars × Chars) → Chars
stem_of name none = name
stem_of name (some ([], after)) = name
stem_of name (some (c ∷ before, after)) = c ∷ before

unfoldable pub extension_of : Option (Chars × Chars) → Option Chars
extension_of none = none
extension_of (some ([], after)) = none
extension_of (some (c ∷ before, after)) = some after

unfoldable pub extension : FilePath → Option Chars
unfolding at_last_dot extension_of
extension p = extension_of (at_last_dot p.name)

-- `Path::with_extension`.
unfoldable pub with_extension : Chars → FilePath → FilePath
unfolding at_last_dot stem_of
with_extension ext p = record p { name = stem_of p.name (at_last_dot p.name) ++ (b'.' ∷ ext) }
