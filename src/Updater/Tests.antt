-- ===== src/Updater/Tests.antt =====
-- The updater at concrete inputs, with versions that are numbers.
use studio_worker.Base.{
  ℕ, String, true, false, ◌≡◌, refl, ltb, same, push_str, none, some, List, [], ◌∷◌, arith,
  if◌then◌else◌,
}
use studio_worker.Base.Chars.{Chars, codes}
use studio_worker.Updater.Checksum.{parse_checksum_file, reads_variant}
use studio_worker.Updater.Releases.{GithubRelease, Semver, newer_available, parse_tag, cpu}
use studio_worker.Updater.Install.{Disk, UpdateHost, Failure, Outside, apply_variant_with}
use studio_worker.Updater.Drain.{Shared, auto_update_tick}
use studio_worker.Updater.Choice.{IsOrder}
use studio_worker.Updater.Replacing.{Safe}
use studio_worker.Updater.Safety.{apply_variant_with-Safe}
use studio_worker.Updater.Integrity.{Vouched, apply_variant_with-Vouched}
use studio_worker.Updater.Slot.{Careful, auto_update_tick-Careful}

abbrev semver : Semver ℕ
semver = record {
  parse = λ text. if same text "2" then some 2 else if same text "3" then some 3 else none;
  greater = λ a b. ltb b a;
  equal = λ a b. true;
}

-- The tags that the repository pushes.
tags_run :
    (parse_tag semver "studio-worker-v2" ≡ some 2)
    × (parse_tag semver "v3" ≡ some 3)
    × (parse_tag semver "3" ≡ some 3)
    × (parse_tag semver "nightly" ≡ none)
unfolding parse_tag same
tags_run = (refl, refl, refl, refl)

over-asym : (a b : ℕ) → ltb b a ≡ true → ltb a b ≡ false
over-asym a b h = ground (arith, h)

over-trans_not : (a b c : ℕ) → ltb b a ≡ false → ltb c b ≡ false → ltb c a ≡ false
over-trans_not a b c h k = ground (arith, h, k)

semver-IsOrder : IsOrder semver
semver-IsOrder = record { asym = over-asym; trans_not = over-trans_not }

abbrev release_with : String → GithubRelease
release_with tag = record {
  tag_name = tag;
  draft = false;
  prerelease = false;
  assets =
      record { name = "studio-worker-installer.ps1"; browser_download_url = "https://x/i.ps1" }
      ∷ [];
}

abbrev releases : List GithubRelease
releases = release_with "v2" ∷ release_with "studio-worker-v3" ∷ []

-- An installer that writes nothing at the worker's path.
abbrev outside : Outside
outside = record {
  releases = some releases;
  folder = true;
  download = λ url. some "script";
  fetch_checksum = λ url.
      some (some "\nE3B0C44298FC1C149AFBF4C8996FB92427AE41E4649B934CA495991B7852B855  i.ps1");
  extract = λ archive. none;
  exe_known = true;
  remove_fails = false;
  rename_fails = false;
  rollback_fails = false;
  copy_fails = false;
  chmod_fails = false;
  torn = none;
  install = λ script variant disk. (disk, true);
}

abbrev sha256 : String → Chars
sha256 content = codes "e3b0c44298fc1c149afbf4c8996fb92427ae41e4649b934ca495991b7852b855"

abbrev host : UpdateHost
host = record {
  running = cpu;
  target = some "x86_64-pc-windows-msvc";
  nvidia_driver = false;
  self_install_exe = false;
  windows = true;
  unix = false;
}

abbrev disk : Disk
disk = record { exe = some "v2"; parked = none }

-- It is rolled back.
not_replaced_run :
    apply_variant_with outside sha256 semver 3 host disk
    ≡ record { failure = some Failure.not_replaced; disk = disk }
unfolding apply_variant_with same push_str
not_replaced_run = refl

apply_variant_with-Safe_example : Safe disk (apply_variant_with outside sha256 semver 3 host disk)
apply_variant_with-Safe_example =
    apply_variant_with-Safe semver outside sha256 host disk 3 refl refl refl (λ s v d. refl)

parse_checksum_file_run :
    (parse_checksum_file "e3b0c44298fc1c149afbf4c8996fb92427ae41e4649b934ca495991b7852b855 *f"
      ≡ some (codes "e3b0c44298fc1c149afbf4c8996fb92427ae41e4649b934ca495991b7852b855"))
    × (parse_checksum_file "e3b0c44298fc1c149afbf4c8996fb92427ae41e4649b934ca495991b7852b8550"
        ≡ none)
    × (parse_checksum_file "\n not a digest" ≡ none)
unfolding parse_checksum_file
parse_checksum_file_run = (refl, refl, refl)

reads_variant_run :
    (reads_variant "echo $STUDIO_WORKER_VARIANT" ≡ true) × (reads_variant "echo cpu" ≡ false)
unfolding reads_variant
reads_variant_run = (refl, refl)

-- A worker that installs itself from an archive.
abbrev archives : Outside
archives = record outside {
  releases = some (
      record {
        tag_name = "v3";
        draft = false;
        prerelease = false;
        assets =
            record { name = "studio-worker-t.zip"; browser_download_url = "https://x/t.zip" } ∷ [];
      }
      ∷ []);
  extract = λ archive. some "v3 binary";
}

abbrev self_host : UpdateHost
self_host = record host { target = some "t"; self_install_exe = true }

placed_run :
    (apply_variant_with archives sha256 semver 3 self_host disk).disk.exe ≡ some "v3 binary"
unfolding apply_variant_with same push_str
placed_run = refl

apply_variant_with-Vouched_example :
    Vouched semver archives sha256 self_host disk
      (apply_variant_with archives sha256 semver 3 self_host disk).failure
      "v3 binary"
apply_variant_with-Vouched_example =
    apply_variant_with-Vouched semver archives sha256 self_host disk 3 "v3 binary" placed_run

abbrev running : Shared
running = record { gate = record { busy = true }; pending = false }

auto_update_tick-Careful_example : Careful (
    auto_update_tick {V = ℕ} true
      (some (newer_available 2 3))
      (λ v. true)
      ((λ g. g) ∷ (λ g. record { busy = false }) ∷ [])
      running)
auto_update_tick-Careful_example =
    auto_update_tick-Careful {V = ℕ} true (some (newer_available 2 3)) (λ v. true)
      ((λ g. g) ∷ (λ g. record { busy = false }) ∷ []) running refl
