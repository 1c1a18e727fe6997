-- ===== src/Updater/Integrity.antt =====
-- What an update leaves at the executable's path (src/update.rs, src/self_install.rs).
use studio_worker.Base.{
  String, Bool, true, false, ◌&&◌, ◌≡◌, ◌≢◌, refl, sym, subst, ◌∙◌, Option, none, some, arith, inl,
  inr, ◌⊎◌, Bool-cases, Option-cases, if_both, push_str,
}
use studio_worker.Base.Chars.{Chars, same_chars_iff}
use studio_worker.Updater.Checksum.{parse_checksum_file}
use studio_worker.Updater.Releases.{Semver, Variant}
use studio_worker.Updater.Install.{
  Disk, UpdateHost, Failure, Outside, Installed, refuse, compared, by_sidecar, by_required_sidecar,
  installed, park, rollback, confirmed, after_installer, guarded_run, run_installer, verify,
  installer_check, archive_check, placed, apply_variant_with, is_file,
}
use studio_worker.Updater.Replacing.{park-Parked, parked_disk}
use studio_worker.Updater.Applying.{apply_cases}

module _ {V : Type 0} (semver : Semver V) (out : Outside) (sha256 : String → Chars)
    (host : UpdateHost) (disk : Disk) where
  -- The checksum file of a URL names a sha256, and the content has it.
  abbrev pub Verified : String → String → Type 0
  Verified url content =
      (text : String) × (expected : Chars) × (out.fetch_checksum (push_str url ".sha256")
        ≡ some (some text))
      × (parse_checksum_file text ≡ some expected)
      × (sha256 content ≡ expected)

  -- A file at the executable's path or parked beside it.
  abbrev pub Holds : Disk → String → Type 0
  Holds d b = (d.exe ≡ some b) ⊎ (d.parked ≡ some b)

  -- The binary of a verified archive.
  abbrev pub FromArchive : String → Type 0
  FromArchive b =
      (url : String) × (archive : String) × (out.download url ≡ some archive)
      × Verified url archive
      × (out.extract archive ≡ some b)

  -- What an installer left that was verified, or whose release publishes no checksum. It ran on the
  -- disk as it was, or with the executable parked.
  abbrev pub FromInstaller : String → Type 0
  FromInstaller b =
      (url : String) × (script : String) × (variant : Variant) × (before : Disk)
      × (host.self_install_exe ≡ false)
      × (out.download url ≡ some script)
      × (Verified url script ⊎ (out.fetch_checksum (push_str url ".sha256") ≡ some none))
      × ((before ≡ disk) ⊎ (park out disk ≡ (none, before)))
      × Holds (out.install script variant before).0 b

  -- Where the file at the executable's path comes from. After a failure it may be an old one, or what
  -- the copy that failed left.
  abbrev pub Vouched : Option Failure → String → Type 0
  Vouched failure b =
      ((failure ≢ none) × Holds disk b)
      ⊎ (((failure ≡ some Failure.copy) × (out.torn ≡ some b)) ⊎ (FromArchive b ⊎ FromInstaller b))

  abbrev Vouches : Installed → Type 0
  Vouches i = (b : String) → i.disk.exe ≡ some b → Vouched i.failure b

  compared-none :
      (content : String) (parsed : Option Chars)
      → compared out sha256 content parsed ≡ none
      → (expected : Chars) × (parsed ≡ some expected) × (sha256 content ≡ expected)
  unfolding compared
  compared-none content none h = absurd (ground (arith, h))
  compared-none content (some expected) h =
      (expected, refl, ground (arith, h, same_chars_iff (sha256 content) expected))

  verify-Verified :
      (url content text : String)
      → out.fetch_checksum (push_str url ".sha256") ≡ some (some text)
      → verify out sha256 content text ≡ none
      → Verified url content
  unfolding verify
  verify-Verified url content text f h =
      let (expected, e, d) = compared-none content (parse_checksum_file text) h in
      (text, expected, f, e, d)

  by_sidecar-Verified :
      (url script : String) (sidecar : Option (Option String))
      → out.fetch_checksum (push_str url ".sha256") ≡ sidecar
      → by_sidecar out sha256 script sidecar ≡ none
      → Verified url script ⊎ (out.fetch_checksum (push_str url ".sha256") ≡ some none)
  unfolding by_sidecar
  by_sidecar-Verified url script none f h = absurd (ground (arith, h))
  by_sidecar-Verified url script (some none) f h = inr f
  by_sidecar-Verified url script (some (some text)) f h = inl (verify-Verified url script text f h)

  by_required_sidecar-Verified :
      (url archive : String) (sidecar : Option (Option String))
      → out.fetch_checksum (push_str url ".sha256") ≡ sidecar
      → by_required_sidecar out sha256 archive sidecar ≡ none
      → Verified url archive
  unfolding by_required_sidecar
  by_required_sidecar-Verified url archive none f h = absurd (ground (arith, h))
  by_required_sidecar-Verified url archive (some none) f h = absurd (ground (arith, h))
  by_required_sidecar-Verified url archive (some (some text)) f h =
      verify-Verified url archive text f h

  refuse-Vouches : (f : Failure) (d : Disk) → d.exe ≡ disk.exe → Vouches (refuse f d)
  unfolding refuse
  refuse-Vouches f d e b q = inl (ground arith, inl (sym e ∙ q))

  rollback-Holds : (d : Disk) (b : String) → (rollback out d).exe ≡ some b → Holds d b
  unfolding rollback
  rollback-Holds d b = elim (Option-cases d.parked) [
    | inl e ↦ rw e (λ q. inl q)
    | inr (p, e) ↦ elim (Bool-cases out.rollback_fails) [
      | inl x ↦ rw (e, x) (λ q. inl q)
      | inr x ↦ rw (e, x) (λ q. inr q)
    ]
  ]

  after_installer-Holds :
      (guarded : Bool) (r : Disk × Bool) (b : String)
      → (after_installer out guarded r).disk.exe ≡ some b
      → Holds r.0 b
  unfolding after_installer confirmed installed
  after_installer-Holds false (d, true) b = λ q. inl q
  after_installer-Holds false (d, false) b = λ q. inl q
  after_installer-Holds true (d, true) b =
      if_both (λ (i : Installed). i.disk.exe ≡ some b → Holds d b) (is_file out d.exe) _ _
        (λ _ q. inl q) (λ _. rollback-Holds d b)
  after_installer-Holds true (d, false) b = rollback-Holds d b

  -- A script that may run.
  abbrev Allowed : String → String → Type 0
  Allowed url script =
      (host.self_install_exe ≡ false)
      × (out.download url ≡ some script)
      × (Verified url script ⊎ (out.fetch_checksum (push_str url ".sha256") ≡ some none))

  installed-Vouches :
      (guarded : Bool) (url script : String) (variant : Variant) (before : Disk)
      → Allowed url script
      → (before ≡ disk) ⊎ (park out disk ≡ (none, before))
      → Vouches (after_installer out guarded (out.install script variant before))
  installed-Vouches guarded url script variant before (s, d, v) p b q =
      let r = out.install script variant before in
      let held = after_installer-Holds guarded r b q in
      inr (inr (inr (url, script, variant, before, s, d, v, p, held)))

  run_installer-Vouches :
      (url script : String) (variant : Variant)
      → Allowed url script
      → Vouches (run_installer out host script variant disk)
  unfolding run_installer guarded_run
  run_installer-Vouches url script variant a = elim (Bool-cases host.windows) [
    | inr w ↦ rw w (installed-Vouches false url script variant disk a (inl refl))
    | inl w ↦ elim (Bool-cases out.exe_known) [
      | inr e ↦ rw (w, e) (refuse-Vouches Failure.exe_unknown disk refl)
      | inl e ↦ elim (park-Parked out disk) [
        | inl (f, d, q, x) ↦
            rw (w, e)
              (subst (λ p. Vouches (guarded_run out script variant p)) (sym q)
                (refuse-Vouches f d x))
        | inr (b, x, q) ↦
            rw (w, e)
              (subst (λ p. Vouches (guarded_run out script variant p)) (sym q)
                (installed-Vouches true url script variant (parked_disk b) a (inr q)))
      ]
    ]
  ]

  -- Once the old executable is parked.
  placed_over-Vouches :
      (binary old : String)
      → FromArchive binary
      → disk.exe ≡ some old
      → Vouches (placed out host binary (none, parked_disk old))
  unfolding placed installed
  placed_over-Vouches binary old from x = elim (Bool-cases out.copy_fails) [
    | inl c ↦ rw c (λ b h.
        elim (rollback-Holds (record { exe = out.torn; parked = some old }) b h) [
          | inl t ↦ inr (inl (refl, t))
          | inr o ↦ inl (ground arith, inl (x ∙ o))
        ])
    | inr c ↦ elim (Bool-cases (host.unix && out.chmod_fails)) [
      | inl m ↦ rw (c, m) (λ b h. inr (inr (inl (subst FromArchive (cc h) from))))
      | inr m ↦ rw (c, m) (λ b h. inr (inr (inl (subst FromArchive (cc h) from))))
    ]
  ]

  placed-Vouches :
      (binary : String) → FromArchive binary → Vouches (placed out host binary (park out disk))
  unfolding placed
  placed-Vouches binary from = elim (park-Parked out disk) [
    | inl (f, d, q, x) ↦
        subst (λ p. Vouches (placed out host binary p)) (sym q) (refuse-Vouches f d x)
    | inr (old, x, q) ↦
        subst (λ p. Vouches (placed out host binary p)) (sym q)
          (placed_over-Vouches binary old from x)
  ]

  -- Whatever the feed, the downloads and the file operations do: the file that stands at the
  -- executable's path after an update is the binary of a downloaded archive, or what a downloaded
  -- installer left there or parked, and the archive or installer has the sha256 that its checksum
  -- file names, save an installer whose release publishes no checksum file; if the update failed, it
  -- may also be the executable or parked file of before, or what a copy that failed left.
  pub apply_variant_with-Vouched :
      (latest : V) (b : String)
      → let i = apply_variant_with out sha256 semver latest host disk in
        i.disk.exe ≡ some b → Vouched i.failure b
  unfolding installer_check archive_check
  apply_variant_with-Vouched latest =
      apply_cases semver out sha256 host disk Vouches (λ f. refuse-Vouches f disk refl)
        (λ url script variant s d e.
          run_installer-Vouches url script variant (s, d, by_sidecar-Verified url script _ refl e))
        (λ url archive binary d e x.
          placed-Vouches binary
            (url, archive, d, by_required_sidecar-Verified url archive _ refl e, x))
        latest
