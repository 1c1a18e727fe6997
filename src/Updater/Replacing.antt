-- ===== src/Updater/Replacing.antt =====
-- What an update runs, and what it leaves when it fails (src/update.rs, src/self_install.rs).
use studio_worker.Base.{
  String, Bool, true, false, ◌≡◌, refl, sym, subst, ◌∙◌, Option, none, some, inl, inr, ◌⊎◌,
  Bool-cases, Option-cases,
}
use studio_worker.Updater.Releases.{Variant}
use studio_worker.Updater.Install.{
  Disk, UpdateHost, Failure, Outside, Installed, refuse, installed, park, parked_from, confirmed,
  after_installer, guarded_run, rollback, placed, is_file,
}

abbrev pub parked_disk : String → Disk
parked_disk b = record { exe = none; parked = some b }

module _ (out : Outside) where
  -- The executable is where it was, or parked.
  abbrev pub Parked : Disk → Option Failure × Disk → Type 0
  Parked disk p =
      ((f : Failure) × (d : Disk) × (p ≡ (some f, d)) × (d.exe ≡ disk.exe))
      ⊎ ((b : String) × (disk.exe ≡ some b) × (p ≡ (none, record { exe = none; parked = some b })))

  parked_from-Parked :
      (disk d : Disk) (exe : Option String)
      → disk.exe ≡ exe
      → d.exe ≡ exe
      → Parked disk (parked_from out exe d)
  unfolding parked_from
  parked_from-Parked disk d none e q = inl (Failure.not_parked, d, refl, q ∙ sym e)
  parked_from-Parked disk d (some b) e q = elim (Bool-cases out.rename_fails) [
    | inl x ↦ inl (Failure.not_parked, d, rw x refl, q ∙ sym e)
    | inr x ↦ inr (b, e, rw x refl)
  ]

  pub park-Parked : (disk : Disk) → Parked disk (park out disk)
  unfolding park
  park-Parked disk = elim (Option-cases disk.parked) [
    | inl e ↦
        let q : park out disk ≡ parked_from out disk.exe disk = rw e refl in
        subst (Parked disk) (sym q) (parked_from-Parked disk disk disk.exe refl refl)
    | inr (stale, e) ↦ elim (Bool-cases out.remove_fails) [
      | inl x ↦ inl (Failure.stale_kept, disk, rw (e, x) refl, refl)
      | inr x ↦
          let d = record disk { parked = none } in
          let q : park out disk ≡ parked_from out disk.exe d = rw (e, x) refl in
          subst (Parked disk) (sym q) (parked_from-Parked disk d disk.exe refl refl)
    ]
  ]

  -- A rollback brings back what is parked.
  rollback_lem :
      (d : Disk) (b : String)
      → out.rollback_fails ≡ false
      → d.parked ≡ some b
      → (rollback out d).exe ≡ some b
  unfolding rollback
  rollback_lem d b ok e = rw (e, ok) refl

-- An update that fails leaves the executable as it was, one that succeeds leaves an executable.
abbrev pub Safe : Disk → Installed → Type 0
Safe disk i =
    ((i.failure ≡ none) × ((b : String) × (i.disk.exe ≡ some b)))
    ⊎ ((f : Failure) × (i.failure ≡ some f) × (i.disk.exe ≡ disk.exe))

-- The installer leaves the parked executable alone.
abbrev pub KeepsParked : Outside → Type 0
KeepsParked out =
    (script : String) (variant : Variant) (disk : Disk)
    → (out.install script variant disk).0.parked ≡ disk.parked

module _ (out : Outside) (ok : out.rollback_fails ≡ false) (keeps : KeepsParked out) where
  after_installer-Safe :
      (disk : Disk) (b : String) (r : Disk × Bool)
      → disk.exe ≡ some b
      → r.0.parked ≡ some b
      → Safe disk (after_installer out true r)
  unfolding after_installer confirmed installed is_file
  after_installer-Safe disk b (d, true) e q = elim (Option-cases d.exe) [
    | inl x ↦
        let v : confirmed out d ≡ installed (some Failure.not_replaced) (rollback out d) =
          rw x refl in
        subst (Safe disk) (sym v)
          (inr (Failure.not_replaced, refl, rollback_lem out d b ok q ∙ sym e))
    | inr (new, x) ↦
        let v : confirmed out d ≡ installed none d = rw x refl in
        subst (Safe disk) (sym v) (inl (refl, (new, x)))
  ]
  after_installer-Safe disk b (d, false) e q =
      inr (Failure.installer, refl, rollback_lem out d b ok q ∙ sym e)

  pub guarded_run-Safe :
      (disk : Disk) (script : String) (variant : Variant)
      → Safe disk (guarded_run out script variant (park out disk))
  unfolding guarded_run refuse
  guarded_run-Safe disk script variant = elim (park-Parked out disk) [
    | inl (f, d, q, e) ↦
        subst (λ p. Safe disk (guarded_run out script variant p)) (sym q) (inr (f, refl, e))
    | inr (b, e, q) ↦
        subst (λ p. Safe disk (guarded_run out script variant p)) (sym q)
          (after_installer-Safe disk b (out.install script variant (parked_disk b)) e
            (keeps script variant (parked_disk b)))
  ]

  pub placed-Safe :
      (host : UpdateHost) (disk : Disk) (binary : String)
      → host.unix ≡ false
      → Safe disk (placed out host binary (park out disk))
  unfolding placed refuse installed
  placed-Safe host disk binary u = elim (park-Parked out disk) [
    | inl (f, d, q, e) ↦
        subst (λ p. Safe disk (placed out host binary p)) (sym q) (inr (f, refl, e))
    | inr (b, e, q) ↦ elim (Bool-cases out.copy_fails) [
      | inl x ↦
          subst (λ p. Safe disk (placed out host binary p)) (sym q)
            (inr (Failure.copy, rw x refl, rw x (rollback_lem out _ b ok refl ∙ sym e)))
      | inr x ↦
          subst (λ p. Safe disk (placed out host binary p)) (sym q)
            (inl (rw (x, u) refl, (binary, rw (x, u) refl)))
    ]
  ]
