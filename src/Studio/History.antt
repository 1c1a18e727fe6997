-- ===== src/Studio/History.antt =====
-- The recent jobs (`record_recent_job` and `record_local_job` of src/runtime.rs).
use studio_worker.Base.{
  ℕ, zero, suc, ◌+◌, ◌≤◌, ◌≡◌, refl, sym, ap, ◌∙◌, List, [], ◌∷◌, arith, inl, inr, Bool-cases, ltb,
  length, take,
}
use studio_worker.Studio.Worker.{recent_jobs_cap, pop_back, trim, record_job}

module _ {A : Type 0} where
  take_all : (n : ℕ) (xs : List A) → length xs ≤ n → take n xs ≡ xs
  take_all zero [] h = refl
  take_all (suc n) [] h = refl
  take_all zero (x ∷ xs) h = absurd (omega (arith, h))
  take_all (suc n) (x ∷ xs) h = ap {B = List A} (λ r. x ∷ r) (take_all n xs (omega (arith, h)))

  length-pop_back : (x : A) (xs : List A) → length (pop_back (x ∷ xs)) ≡ length xs
  unfolding pop_back
  length-pop_back x [] = refl
  length-pop_back x (y ∷ ys) = omega (arith, length-pop_back y ys)

  take-pop_back :
      (n : ℕ) (x : A) (xs : List A) → n ≤ length xs → take n (pop_back (x ∷ xs)) ≡ take n (x ∷ xs)
  unfolding pop_back
  take-pop_back zero x xs h = refl
  take-pop_back (suc n) x [] h = absurd (omega (arith, h))
  take-pop_back (suc n) x (y ∷ ys) h =
      ap {B = List A} (λ r. x ∷ r) (take-pop_back n y ys (omega (arith, h)))

  -- Enough rounds leave the front fifty entries.
  trim_lem :
      (fuel : ℕ) (ring : List A)
      → length ring ≤ fuel + recent_jobs_cap
      → trim fuel ring ≡ take recent_jobs_cap ring
  unfolding trim
  trim_lem zero ring h = sym (take_all 50 ring h)
  trim_lem (suc fuel) [] h = refl
  trim_lem (suc fuel) (x ∷ xs) h = elim (Bool-cases (ltb recent_jobs_cap (suc (length xs)))) [
    | inl more ↦ rw more (
        trim_lem fuel (pop_back (x ∷ xs)) (omega (arith, h, length-pop_back x xs))
        ∙ take-pop_back 50 x xs (ground (arith, more)))
    | inr few ↦ rw few (sym (take_all 50 (x ∷ xs) (ground (arith, few))))
  ]

  -- Whatever was recorded before: recording puts the job first, keeps the latest fifty jobs in order,
  -- and drops the rest.
  record_job_lem : (entry : A) (ring : List A) → record_job entry ring ≡ take 50 (entry ∷ ring)
  unfolding record_job
  record_job_lem entry ring = trim_lem (suc (length ring)) (entry ∷ ring) (omega arith)
