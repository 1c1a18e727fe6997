-- ===== src/Updater/Install.antt =====
-- How an update is installed, and undone when it fails (src/update.rs, src/self_install.rs).
use studio_worker.Base.{
  String, Bool, true, false, ◌&&◌, Option, none, some, List, push_str, if◌then◌else◌,
}
use studio_worker.Base.Chars.{Chars, same_chars}
use studio_worker.Updater.Releases.{
  GithubRelease, Semver, release_of, url_of, resolve_installer_url, Variant, cpu, cuda,
  choose_variant,
}
use studio_worker.Updater.Checksum.{parse_checksum_file, reads_variant}

-- The worker's executable, and the one parked beside it; `none` for no file.
pub record Disk : Type 0 where
  pub exe : Option String
  pub parked : Option String

-- `UpdateHost`, and what is compiled in: is this Windows, is it Unix.
pub record UpdateHost : Type 0 where
  pub running : Variant
  pub target : Option String
  pub nvidia_driver : Bool
  pub self_install_exe : Bool
  pub windows : Bool
  pub unix : Bool

-- Where an update can fail.
pub data Failure : Type 0 where
  feed not_in_feed no_target missing_asset no_folder download checksum_fetch no_checksum
        unreadable_checksum mismatch ignores_variant exe_unknown stale_kept not_parked installer
        not_replaced extract copy permissions :
      Failure

-- What the outside answers: the feed, what a URL downloads, the checksum file beside it (`none` when
-- it does not answer, then none or the text), the archive's binary, and which file operations fail.
-- `install` is what the installer does, and whether it succeeds.
pub record Outside : Type 0 where
  pub releases : Option (List GithubRelease)
  pub folder : Bool
  pub download : String → Option String
  pub fetch_checksum : String → Option (Option String)
  pub extract : String → Option String
  pub exe_known : Bool
  pub remove_fails : Bool
  pub rename_fails : Bool
  pub rollback_fails : Bool
  pub copy_fails : Bool
  pub chmod_fails : Bool
  -- What a copy that fails leaves at its destination.
  pub torn : Option String
  pub install : String → Variant → Disk → Disk × Bool

-- How an update ended (`none` for success).
pub record Installed : Type 0 where
  pub failure : Option Failure
  pub disk : Disk

unfoldable pub refuse : Failure → Disk → Installed
refuse f disk = record { failure = some f; disk = disk }

unfoldable pub installed : Option Failure → Disk → Installed
installed failure disk = record { failure = failure; disk = disk }

unfoldable pub unless_failed : Option Failure → Disk → Installed → Installed
unfolding refuse
unless_failed (some f) disk rest = refuse f disk
unless_failed none disk rest = rest

unfoldable pub archive_asset_name : String → String
archive_asset_name target = push_str "studio-worker-" (push_str target ".zip")

module _ (out : Outside) where
  -- `rename` of the executable to the parked name; there must be one.
  unfoldable pub parked_from : Option String → Disk → Option Failure × Disk
  parked_from none disk = (some not_parked, disk)
  parked_from (some b) disk =
      if out.rename_fails
      then (some not_parked, disk)
      else (none, record { exe = none; parked = some b })

  -- `ExeReplaceGuard::park`: a stale parked file goes first.
  unfoldable pub park : Disk → Option Failure × Disk
  unfolding parked_from
  park disk = elim disk.parked [
    | none ↦ parked_from disk.exe disk
    | some stale ↦
        if out.remove_fails
        then (some stale_kept, disk)
        else parked_from disk.exe (record disk { parked = none })
  ]

  unfoldable pub is_file : Option String → Bool
  is_file none = false
  is_file (some b) = true

  -- `ExeReplaceGuard::rollback`; its own failure only gets into the log.
  unfoldable pub rollback : Disk → Disk
  rollback disk = elim disk.parked [
    | none ↦ disk
    | some b ↦ if out.rollback_fails then disk else record { exe = some b; parked = none }
  ]

  -- `ExeReplaceGuard::confirm_replaced`, with the rollback that both callers run.
  unfoldable pub confirmed : Disk → Installed
  unfolding is_file installed rollback
  confirmed disk =
      if is_file disk.exe
      then installed none disk
      else installed (some not_replaced) (rollback disk)

  unfoldable pub after_installer : Bool → Disk × Bool → Installed
  unfolding confirmed installed rollback
  after_installer false (disk, true) = installed none disk
  after_installer false (disk, false) = installed (some installer) disk
  after_installer true (disk, true) = confirmed disk
  after_installer true (disk, false) = installed (some installer) (rollback disk)

  unfoldable pub guarded_run : String → Variant → Option Failure × Disk → Installed
  unfolding after_installer refuse
  guarded_run script variant (some f, disk) = refuse f disk
  guarded_run script variant (none, disk) = after_installer true (out.install script variant disk)

  -- From the parking on, which only Windows does.
  unfoldable pub run_installer : UpdateHost → String → Variant → Disk → Installed
  unfolding after_installer guarded_run park refuse
  run_installer host script variant disk =
      if host.windows
      then (if out.exe_known
          then guarded_run script variant (park disk)
          else refuse exe_unknown disk)
      else after_installer false (out.install script variant disk)

  -- What was copied is there, so `confirm_replaced` passes it.
  unfoldable pub placed : UpdateHost → String → Option Failure × Disk → Installed
  unfolding refuse installed rollback
  placed host binary (some f, disk) = refuse f disk
  placed host binary (none, disk) =
      if out.copy_fails
      then installed (some copy) (rollback (record disk { exe = out.torn }))
      else if host.unix && out.chmod_fails
      then installed (some permissions) (record disk { exe = some binary })
      else installed none (record disk { exe = some binary })

  module _ (sha256 : String → Chars) where
    -- `verify_file_sha256`, with the sha256 in hexadecimal: what is wrong with the file, if anything.
    unfoldable pub compared : String → Option Chars → Option Failure
    unfolding same_chars
    compared content none = some unreadable_checksum
    compared content (some expected) =
        if same_chars (sha256 content) expected then none else some mismatch

    unfoldable pub verify : String → String → Option Failure
    unfolding compared parse_checksum_file
    verify content sidecar = compared content (parse_checksum_file sidecar)

    unfoldable pub by_sidecar : String → Option (Option String) → Option Failure
    unfolding verify
    by_sidecar script none = some checksum_fetch
    by_sidecar script (some none) = none
    by_sidecar script (some (some text)) = verify script text

    -- A release without a checksum file is tolerated.
    unfoldable pub installer_check : String → String → Option Failure
    unfolding by_sidecar
    installer_check url script = by_sidecar script (out.fetch_checksum (push_str url ".sha256"))

    unfoldable pub supports_variants : String → Variant → Bool
    unfolding reads_variant
    supports_variants script cpu = true
    supports_variants script cuda = reads_variant script

    unfoldable pub downloaded : UpdateHost → Variant → String → Option String → Disk → Installed
    unfolding refuse unless_failed installer_check supports_variants run_installer
    downloaded host variant url none disk = refuse download disk
    downloaded host variant url (some script) disk =
        unless_failed (installer_check url script) disk (
          if supports_variants script variant
          then run_installer host script variant disk
          else refuse ignores_variant disk)

    unfoldable pub by_installer : UpdateHost → GithubRelease → Option String → Disk → Installed
    unfolding refuse downloaded choose_variant
    by_installer host release none disk = refuse missing_asset disk
    by_installer host release (some url) disk =
        if out.folder
        then downloaded host
            (choose_variant release host.running host.target host.nvidia_driver).variant url
            (out.download url) disk
        else refuse no_folder disk

    unfoldable pub by_required_sidecar : String → Option (Option String) → Option Failure
    unfolding verify
    by_required_sidecar archive none = some checksum_fetch
    by_required_sidecar archive (some none) = some no_checksum
    by_required_sidecar archive (some (some text)) = verify archive text

    -- A self-install verifies or refuses.
    unfoldable pub archive_check : String → String → Option Failure
    unfolding by_required_sidecar
    archive_check url archive =
        by_required_sidecar archive (out.fetch_checksum (push_str url ".sha256"))

    unfoldable pub archived : UpdateHost → String → Option String → Disk → Installed
    unfolding refuse unless_failed archive_check placed park
    archived host url none disk = refuse download disk
    archived host url (some archive) disk =
        unless_failed (archive_check url archive) disk (elim (out.extract archive) [
          | none ↦ refuse extract disk
          | some binary ↦ placed host binary (park disk)
        ])

    unfoldable pub in_folder : UpdateHost → Option String → Disk → Installed
    unfolding refuse archived
    in_folder host none disk = refuse missing_asset disk
    in_folder host (some url) disk =
        if out.folder then archived host url (out.download url) disk else refuse no_folder disk

    unfoldable pub self_install : UpdateHost → GithubRelease → String → Disk → Installed
    unfolding url_of archive_asset_name in_folder
    self_install host release target disk =
        in_folder host (url_of (archive_asset_name target) release.assets) disk

    unfoldable pub by_release : UpdateHost → Option GithubRelease → Disk → Installed
    unfolding refuse self_install by_installer resolve_installer_url
    by_release host none disk = refuse not_in_feed disk
    by_release host (some release) disk =
        if host.self_install_exe
        then elim host.target [
          | none ↦ refuse no_target disk
          | some target ↦ self_install host release target disk
        ]
        else by_installer host release (resolve_installer_url host.windows release) disk

    unfoldable pub apply_variant_with : {V : Type 0} → Semver V → V → UpdateHost → Disk → Installed
    unfolding refuse by_release release_of
    apply_variant_with semver latest host disk = elim out.releases [
      | none ↦ refuse feed disk
      | some releases ↦ by_release host (release_of semver latest releases) disk
    ]
