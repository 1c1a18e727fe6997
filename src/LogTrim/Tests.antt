-- ===== src/LogTrim/Tests.antt =====
-- A log of three bytes, trimmed at two, with one copy before.
use studio_worker.Base.{ℕ, zero, suc, false, ◌≡◌, refl, none, some, List, [], ◌∷◌, arith}
use studio_worker.LogTrim.{Files, Disk, trim_log}
use studio_worker.LogTrim.Laws.{TrimmedTo, trim_log_lem}

abbrev disk : Disk
disk = record {
  metadata_fails = false;
  rename_fails = λ n. false;
  copy_fails = false;
  truncate_fails = false;
}

abbrev live : List ℕ
live = 1 ∷ 2 ∷ 3 ∷ []

abbrev files : Files
files zero = some live
files (suc zero) = some (9 ∷ [])
files (suc (suc n)) = none

second_copy_run : (trim_log disk 2 3 files).0 2 ≡ some (9 ∷ [])
unfolding trim_log
second_copy_run = refl

trim_log_lem_example : TrimmedTo 3 files live (trim_log disk 2 3 files)
trim_log_lem_example =
    trim_log_lem disk 2 3 files live (λ n. refl) refl refl refl (omega arith) refl (omega arith)
