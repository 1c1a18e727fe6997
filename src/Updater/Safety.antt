-- ===== src/Updater/Safety.antt =====
-- An update runs what it verified, and leaves a worker that starts (src/update.rs,
-- src/self_install.rs).
use studio_worker.Base.{String, true, false, ◌≡◌, refl, sym, subst, inl, inr, Bool-cases}
use studio_worker.Base.Chars.{Chars}
use studio_worker.Updater.Releases.{Semver, Variant}
use studio_worker.Updater.Install.{
  Disk, UpdateHost, Failure, Outside, refuse, park, guarded_run, run_installer, apply_variant_with,
}
use studio_worker.Updater.Replacing.{Safe, KeepsParked, guarded_run-Safe, placed-Safe}
use studio_worker.Updater.Applying.{apply_cases}

module _ {V : Type 0} (semver : Semver V) (out : Outside) (sha256 : String → Chars)
    (host : UpdateHost) (disk : Disk) where
  run_installer-Safe :
      (script : String) (variant : Variant)
      → host.windows ≡ true
      → out.rollback_fails ≡ false
      → KeepsParked out
      → Safe disk (run_installer out host script variant disk)
  unfolding run_installer refuse
  run_installer-Safe script variant w ok keeps = elim (Bool-cases out.exe_known) [
    | inl e ↦
        let q : run_installer out host script variant disk
            ≡ guarded_run out script variant (park out disk) =
          rw (w, e) refl in
        subst (Safe disk) (sym q) (guarded_run-Safe out ok keeps disk script variant)
    | inr e ↦
        let q : run_installer out host script variant disk ≡ refuse Failure.exe_unknown disk =
          rw (w, e) refl in
        subst (Safe disk) (sym q) (inr (Failure.exe_unknown, refl, refl))
  ]

  -- On Windows, if the installer leaves the parked executable alone and a rollback's rename succeeds:
  -- an update that fails, at whatever point, leaves the executable as it was, and one that succeeds
  -- leaves an executable to start.
  pub apply_variant_with-Safe :
      (latest : V)
      → host.windows ≡ true
      → host.unix ≡ false
      → out.rollback_fails ≡ false
      → KeepsParked out
      → Safe disk (apply_variant_with out sha256 semver latest host disk)
  unfolding refuse
  apply_variant_with-Safe latest w u ok keeps =
      apply_cases semver out sha256 host disk (Safe disk) (λ f. inr (f, refl, refl))
        (λ url script variant s d e. run_installer-Safe script variant w ok keeps)
        (λ url archive binary d e x. placed-Safe out ok keeps host disk binary u) latest
