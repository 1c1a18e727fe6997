-- ===== src/LogTrim/Laws.antt =====
-- Trimming loses only the oldest copy (src/log_trim.rs).
use studio_worker.Base.{
  ℕ, zero, suc, ◌-◌, ◌≤◌, ◌<◌, Bool, true, false, ◌||◌, ◌≡◌, refl, sym, subst, ◌∙◌, Option, none,
  some, List, [], length, leb, ◌==◌, arith, inl, inr, ◌⊎◌, Bool-cases,
}
use studio_worker.LogTrim.{
  Files, with_file, Disk, Trimmed, trimmed, moved_up, go_on, shift_up, copied, trim_file, trim_log,
}

below : (i n : ℕ) → i ≤ suc n → (i ≤ n) ⊎ (i ≡ suc n)
below i n h = elim (Bool-cases (leb i n)) [
  | inl e ↦ inl (ground (arith, e))
  | inr e ↦ inr (ground (arith, e, h))
]

module _ (disk : Disk) (works : (n : ℕ) → disk.rename_fails n ≡ false) where
  -- What stands where after the copies up to `n` have moved.
  abbrev Shifted : ℕ → Files → Files × Bool → Type 0
  Shifted n files r =
      (r.1 ≡ true)
      × ((i : ℕ) (content : List ℕ)
          → 1 ≤ i
          → i ≤ n
          → files i ≡ some content
          → r.0 (suc i) ≡ some content)
      × ((i : ℕ) → suc n < i → r.0 i ≡ files i)
      × (r.0 0 ≡ files 0)

  -- What stands where after one copy has moved.
  abbrev Moved : ℕ → Files → Files × Bool → Type 0
  Moved n files r =
      (r.1 ≡ true)
      × ((content : List ℕ) → files (suc n) ≡ some content → r.0 (suc (suc n)) ≡ some content)
      × ((i : ℕ) → i ≤ n → r.0 i ≡ files i)
      × ((i : ℕ) → suc (suc n) < i → r.0 i ≡ files i)

  moved_up-Moved :
      (n : ℕ) (files : Files) (o : Option (List ℕ))
      → files (suc n) ≡ o
      → Moved n files (moved_up disk (suc n) o files)
  unfolding moved_up with_file
  moved_up-Moved n files none e =
      (refl, λ content q. absurd (ground (arith, e, q)), λ i h. refl, λ i h. refl)
  moved_up-Moved n files (some content) e =
      let f = with_file (suc n) none (with_file (suc (suc n)) (some content) files) in
      let q : moved_up disk (suc n) (some content) files ≡ (f, true) = rw (works (suc n)) refl in
      subst (Moved n files) (sym q)
        (refl, λ c x. ground (arith, e, x), λ i h. ground (arith, h), λ i h. ground (arith, h))

  go_on-true :
      (r : Files × Bool) (rest : Files → Files × Bool) → r.1 ≡ true → go_on disk r rest ≡ rest r.0
  unfolding go_on
  go_on-true (files, true) rest h = refl
  go_on-true (files, false) rest h = absurd (ground (arith, h))

  shift_up-Shifted : (n : ℕ) (files : Files) → Shifted n files (shift_up disk n files)
  unfolding shift_up
  shift_up-Shifted zero files =
      (refl, λ i content l u e. absurd (omega (arith, l, u)), λ i h. refl, refl)
  shift_up-Shifted (suc n) files =
      let r = moved_up disk (suc n) (files (suc n)) files in
      let m = moved_up-Moved n files (files (suc n)) refl in
      let s = shift_up-Shifted n r.0 in
      subst (Shifted (suc n) files) (sym (go_on-true r (shift_up disk n) m.0)) (
        s.0,
        λ i content l u e. elim (below i n u) [
          | inl h ↦ s.1 i content l h (m.2 i h ∙ e)
          | inr h ↦
              subst (λ j. (shift_up disk n r.0).0 (suc j) ≡ some content) (sym h)
                (s.2 (suc (suc n)) (omega arith)
                  ∙ m.1 content (subst (λ j. files j ≡ some content) h e))
        ],
        λ i h. s.2 i (omega (arith, h)) ∙ m.3 i h,
        s.3 ∙ m.2 0 (omega arith),
      )

-- The copies below the last one kept are each one number higher.
abbrev pub CopiesMoved : ℕ → Files → Files → Type 0
CopiesMoved keep files after =
    (i : ℕ) (content : List ℕ)
    → 1 ≤ i
    → suc i ≤ keep
    → files i ≡ some content
    → after (suc i) ≡ some content

-- What a trim should leave and tell.
abbrev pub TrimmedTo : ℕ → Files → List ℕ → Files × Trimmed → Type 0
TrimmedTo keep files content r =
    (r.1 ≡ trimmed (length content))
    × (r.0 0 ≡ some [])
    × (r.0 1 ≡ some content)
    × CopiesMoved keep files r.0

copied-TrimmedTo :
    (disk : Disk) (keep : ℕ) (files : Files) (content : List ℕ) (r : Files × Bool)
    → disk.copy_fails ≡ false
    → disk.truncate_fails ≡ false
    → r.1 ≡ true
    → CopiesMoved keep files r.0
    → TrimmedTo keep files content (copied disk content r)
unfolding copied with_file
copied-TrimmedTo disk keep files content (after, false) c t e m = absurd (ground (arith, e))
copied-TrimmedTo disk keep files content (after, true) c t e m =
    let f = with_file 0 (some []) (with_file 1 (some content) after) in
    let q : copied disk content (after, true) ≡ (f, trimmed (length content)) = rw (c, t) refl in
    subst (TrimmedTo keep files content) (sym q)
      (refl, refl, refl, λ i x l u h. ground (arith, l, m i x l u h))

-- If no file operation fails, and copies are kept, a live file above the limit becomes the first copy,
-- whole, and is then empty; every copy but the last one kept moves up by one; and the size told is that
-- of the live file.
pub trim_log_lem :
    (disk : Disk) (max_bytes keep : ℕ) (files : Files) (content : List ℕ)
    → ((n : ℕ) → disk.rename_fails n ≡ false)
    → disk.metadata_fails ≡ false
    → disk.copy_fails ≡ false
    → disk.truncate_fails ≡ false
    → 1 ≤ keep
    → files 0 ≡ some content
    → max_bytes < length content
    → TrimmedTo keep files content (trim_log disk max_bytes keep files)
unfolding trim_log trim_file
trim_log_lem disk max_bytes keep files content works md cp tr kept live large =
    let s = shift_up-Shifted disk works (keep - 1) files in
    let g : (leb (length content) max_bytes || keep == 0) ≡ false = ground (arith, kept, large) in
    let q : trim_log disk max_bytes keep files
        ≡ copied disk content (shift_up disk (keep - 1) files) =
      rw (md, live, g) refl in
    subst (TrimmedTo keep files content) (sym q) (
      copied-TrimmedTo disk keep files content (shift_up disk (keep - 1) files) cp tr s.0
        (λ i x l u h. s.1 i x l (omega (arith, u)) h))
