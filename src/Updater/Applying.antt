-- ===== src/Updater/Applying.antt =====
-- What every update comes to (`apply_variant_with` of src/update.rs): it is refused, or it gets as far
-- as the installer or the new binary.
use studio_worker.Base.{
  String, false, ◌≡◌, refl, sym, subst, Option, none, some, inl, inr, Bool-cases, Option-cases,
  if◌then◌else◌,
}
use studio_worker.Base.Chars.{Chars}
use studio_worker.Updater.Releases.{
  GithubRelease, Semver, release_of, url_of, resolve_installer_url, Variant,
}
use studio_worker.Updater.Install.{
  Disk, UpdateHost, Failure, Outside, Installed, refuse, unless_failed, park, run_installer,
  installer_check, supports_variants, downloaded, by_installer, archive_check, placed, archived,
  in_folder, self_install, by_release, apply_variant_with, archive_asset_name,
}

module _ {V : Type 0} (semver : Semver V) (out : Outside) (sha256 : String → Chars)
    (host : UpdateHost) (disk : Disk) where
  -- How far an update gets.
  abbrev pub Installs : (Installed → Type 0) → Type 0
  Installs Q =
      (url script : String) (variant : Variant)
      → host.self_install_exe ≡ false
      → out.download url ≡ some script
      → installer_check out sha256 url script ≡ none
      → Q (run_installer out host script variant disk)

  abbrev pub Places : (Installed → Type 0) → Type 0
  Places Q =
      (url archive binary : String)
      → out.download url ≡ some archive
      → archive_check out sha256 url archive ≡ none
      → out.extract archive ≡ some binary
      → Q (placed out host binary (park out disk))

  module _ (Q : Installed → Type 0) (refused : (f : Failure) → Q (refuse f disk))
      (installs : Installs Q) (places : Places Q) where
    unless_failed_cases :
        (check : Option Failure) (rest : Installed)
        → (check ≡ none → Q rest)
        → Q (unless_failed check disk rest)
    unfolding unless_failed
    unless_failed_cases (some f) rest h = refused f
    unless_failed_cases none rest h = h refl

    downloaded_cases :
        (url : String) (variant : Variant) (script : Option String)
        → host.self_install_exe ≡ false
        → out.download url ≡ script
        → Q (downloaded out sha256 host variant url script disk)
    unfolding downloaded
    downloaded_cases url variant none s d = refused Failure.download
    downloaded_cases url variant (some script) s d =
        let v = supports_variants out sha256 script variant in
        let run = run_installer out host script variant disk in
        unless_failed_cases (installer_check out sha256 url script)
          (if v then run else refuse Failure.ignores_variant disk)
          (λ e. elim (Bool-cases v) [
            | inl x ↦
                subst (λ b. Q (if b then run else refuse Failure.ignores_variant disk)) (sym x)
                  (installs url script variant s d e)
            | inr x ↦
                subst (λ b. Q (if b then run else refuse Failure.ignores_variant disk)) (sym x)
                  (refused Failure.ignores_variant)
          ])

    by_installer_cases :
        (release : GithubRelease) (url : Option String)
        → host.self_install_exe ≡ false
        → Q (by_installer out sha256 host release url disk)
    unfolding by_installer
    by_installer_cases release none s = refused Failure.missing_asset
    by_installer_cases release (some url) s = elim (Bool-cases out.folder) [
      | inl e ↦ rw e (downloaded_cases url _ (out.download url) s refl)
      | inr e ↦ rw e (refused Failure.no_folder)
    ]

    archived_cases :
        (url : String) (archive : Option String)
        → out.download url ≡ archive
        → Q (archived out sha256 host url archive disk)
    unfolding archived
    archived_cases url none d = refused Failure.download
    archived_cases url (some archive) d =
        unless_failed_cases (archive_check out sha256 url archive) _ (λ e.
          elim (Option-cases (out.extract archive)) [
            | inl x ↦ rw x (refused Failure.extract)
            | inr (binary, x) ↦ rw x (places url archive binary d e x)
          ])

    in_folder_cases : (url : Option String) → Q (in_folder out sha256 host url disk)
    unfolding in_folder
    in_folder_cases none = refused Failure.missing_asset
    in_folder_cases (some url) = elim (Bool-cases out.folder) [
      | inl e ↦ rw e (archived_cases url (out.download url) refl)
      | inr e ↦ rw e (refused Failure.no_folder)
    ]

    by_release_cases :
        (release : Option GithubRelease) → Q (by_release out sha256 host release disk)
    unfolding by_release self_install
    by_release_cases none = refused Failure.not_in_feed
    by_release_cases (some release) = elim (Bool-cases host.self_install_exe) [
      | inr e ↦ rw e (by_installer_cases release (resolve_installer_url host.windows release) e)
      | inl e ↦ elim (Option-cases host.target) [
        | inl t ↦ rw (e, t) (refused Failure.no_target)
        | inr (target, t) ↦
            rw (e, t) (in_folder_cases (url_of (archive_asset_name target) release.assets))
      ]
    ]

    pub apply_cases : (latest : V) → Q (apply_variant_with out sha256 semver latest host disk)
    unfolding apply_variant_with
    apply_cases latest = elim (Option-cases out.releases) [
      | inl e ↦ rw e (refused Failure.feed)
      | inr (releases, e) ↦ rw e (by_release_cases (release_of semver latest releases))
    ]
