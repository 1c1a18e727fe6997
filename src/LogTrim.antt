-- ===== src/LogTrim.antt =====
-- `trim` of src/log_trim.rs: a log file that has grown too large becomes its first numbered copy.
mod Laws
mod Tests
use studio_worker.Base.{
  ℕ, zero, suc, ◌+◌, ◌-◌, String, Bool, true, false, ◌||◌, Option, none, some, List, [], length,
  ltb, leb, ◌==◌, if◌then◌else◌,
}

-- The live file and its numbered copies, by their bytes; the live one is number 0.
abbrev pub Files : Type 0
Files = ℕ → Option (List ℕ)

unfoldable pub with_file : ℕ → Option (List ℕ) → Files → Files
with_file n content files i = if i == n then content else files i

-- Which operations fail.
pub record Disk : Type 0 where
  pub metadata_fails : Bool
  pub rename_fails : ℕ → Bool
  pub copy_fails : Bool
  pub truncate_fails : Bool

-- `Ok(None)`, `Ok(Some(size))` and `Err`.
pub data Trimmed : Type 0 where
  untouched : Trimmed
  trimmed : ℕ → Trimmed
  failed : Trimmed

module _ (disk : Disk) where
  -- `<name>.n` becomes `<name>.n+1`; a copy that is not there is no error.
  unfoldable pub moved_up : ℕ → Option (List ℕ) → Files → Files × Bool
  unfolding with_file
  moved_up n none files = (files, true)
  moved_up n (some content) files =
      if disk.rename_fails n
      then (files, false)
      else (with_file n none (with_file (suc n) (some content) files), true)

  unfoldable pub go_on : Files × Bool → (Files → Files × Bool) → Files × Bool
  go_on (files, true) rest = rest files
  go_on (files, false) rest = (files, false)

  -- `for n in (1..keep).rev()`, with `n` below `keep`.
  unfoldable pub shift_up : ℕ → Files → Files × Bool
  unfolding moved_up go_on
  shift_up zero files = (files, true)
  shift_up (suc n) files = go_on (moved_up (suc n) (files (suc n)) files) (shift_up n)

  unfoldable pub copied : List ℕ → Files × Bool → Files × Trimmed
  unfolding with_file
  copied content (files, false) = (files, failed)
  copied content (files, true) =
      if disk.copy_fails
      then (files, failed)
      else if disk.truncate_fails
      then (with_file 1 (some content) files, failed)
      else (with_file 0 (some []) (with_file 1 (some content) files), trimmed (length content))

  unfoldable pub trim_file : ℕ → ℕ → Option (List ℕ) → Files → Files × Trimmed
  unfolding copied shift_up
  trim_file max_bytes keep none files = (files, untouched)
  trim_file max_bytes keep (some content) files =
      if leb (length content) max_bytes || keep == 0
      then (files, untouched)
      else copied content (shift_up (keep - 1) files)

  unfoldable pub trim_log : ℕ → ℕ → Files → Files × Trimmed
  unfolding trim_file
  trim_log max_bytes keep files =
      if disk.metadata_fails then (files, failed) else trim_file max_bytes keep (files 0) files
