-- ===== src/LogRing/Laws.antt =====
-- What a client that polls the log ring gets (src/job_log.rs, src/runtime.rs).
use studio_worker.Base.{
  ℕ, zero, suc, ◌+◌, ◌-◌, ◌^◌, ◌%◌, ◌≤◌, ◌<◌, max, ◌≡◌, refl, sym, ap, subst, ◌∙◌, List, [], ◌∷◌,
  ◌++◌, length, drop, ltb, leb, if◌then◌else◌, arith, inl, inr, Bool-cases, length-append,
  length-drop, append-nil, append_assoc,
}
use studio_worker.LogRing.{WorkerLogRing, recent_logs_cap, shrink, push, recent_logs_after}

module _ {A : Type 0} where
  drop-append : (n : ℕ) (xs ys : List A) → n ≤ length xs → drop n (xs ++ ys) ≡ drop n xs ++ ys
  drop-append zero xs ys h = refl
  drop-append (suc n) [] ys h = absurd (omega (arith, h))
  drop-append (suc n) (x ∷ xs) ys h = drop-append n xs ys (omega (arith, h))

  drop_none : (n : ℕ) → drop {A = A} n [] ≡ []
  drop_none zero = refl
  drop_none (suc n) = refl

  pub drop-drop : (n k : ℕ) (xs : List A) → drop n (drop k xs) ≡ drop (k + n) xs
  drop-drop n zero xs = ap (λ i. drop i xs) (omega arith)
  drop-drop n (suc k) [] = drop_none n ∙ sym (drop_none (suc k + n))
  drop-drop n (suc k) (x ∷ xs) =
      drop-drop n k xs ∙ ap (λ i. drop i (x ∷ xs)) {x = suc (k + n)} (omega arith)

  -- Enough rounds leave the last entries.
  pub shrink_lem :
      (fuel : ℕ) (ring : List A)
      → length ring ≤ fuel + recent_logs_cap
      → shrink fuel ring ≡ drop (length ring - recent_logs_cap) ring
  unfolding shrink
  shrink_lem zero ring h = ap (λ i. drop i ring) {x = 0} (omega (arith, h))
  shrink_lem (suc fuel) ring h = elim (Bool-cases (ltb recent_logs_cap (length ring))) [
    | inl more ↦ rw more (
        shrink_lem fuel (drop 1 ring) (omega (arith, h, length-drop 1 ring))
        ∙ drop-drop (length (drop 1 ring) - recent_logs_cap) 1 ring
        ∙ ap (λ i. drop i ring) (ground (arith, more, length-drop 1 ring)))
    | inr few ↦ rw few (ap (λ i. drop i ring) {x = 0} (ground (arith, few)))
  ]

  -- Everything that was ever pushed, oldest first, as the ring shows it.
  abbrev pub Shows : List A → WorkerLogRing A → Type 0
  Shows log r =
      (r.entries ≡ drop (length log - recent_logs_cap) log) × (r.seq ≡ length log % 2 ^ 64)

  push-Shows :
      (log : List A) (entry : A) (r : WorkerLogRing A)
      → Shows log r
      → Shows (log ++ entry ∷ []) (push entry r)
  unfolding push
  push-Shows log entry r h =
      let k = length log - recent_logs_cap in
      let ring = r.entries ++ entry ∷ [] in
      let q : ring ≡ drop k (log ++ entry ∷ []) =
        ap (λ es. es ++ entry ∷ []) h.0 ∙ sym (drop-append k log (entry ∷ []) (omega arith)) in
      let n : k + (length ring - recent_logs_cap) ≡ length (log ++ entry ∷ []) - recent_logs_cap =
        omega
          (arith, ap length q, length-drop k (log ++ entry ∷ []), length-append log (entry ∷ [])) in
      (
        shrink_lem (length ring) ring (omega arith)
            ∙ ap (drop (length ring - recent_logs_cap)) q
            ∙ drop-drop (length ring - recent_logs_cap) k (log ++ entry ∷ [])
            ∙ ap (λ i. drop i (log ++ entry ∷ [])) n,
        omega (arith, h.1, length-append log (entry ∷ [])),
      )

  -- The ring after everything of a log was pushed, the newest first in `log`.
  unfoldable pub pushed : List A → WorkerLogRing A → WorkerLogRing A
  pushed [] r = r
  pushed (entry ∷ log) r = pushed log (push entry r)

  pub pushed-Shows :
      (log before : List A) (r : WorkerLogRing A)
      → Shows before r
      → Shows (before ++ log) (pushed log r)
  unfolding pushed
  pushed-Shows [] before r h = subst (λ l. Shows l r) (sym (append-nil before)) h
  pushed-Shows (entry ∷ log) before r h =
      subst (λ l. Shows l (pushed log (push entry r))) (append_assoc before (entry ∷ []) log)
        (pushed-Shows log (before ++ entry ∷ []) (push entry r) (push-Shows before entry r h))

  abbrev pub fresh_ring : WorkerLogRing A
  fresh_ring = record { entries = []; seq = 0 }

  -- What a client should get of a log: all after the number it has, of the last entries that are held.
  abbrev pub newer : List A → ℕ → List A
  newer log after = drop (max after (length log - recent_logs_cap)) log

  drop_all : (n : ℕ) (xs : List A) → length xs ≤ n → drop n xs ≡ []
  drop_all n [] h = drop_none n
  drop_all zero (x ∷ xs) h = absurd (omega (arith, h))
  drop_all (suc n) (x ∷ xs) h = drop_all n xs (omega (arith, h))

  -- The answer skips that many entries, and what is then left of the log.
  skips :
      (log : List A) (r : WorkerLogRing A) (after n : ℕ)
      → Shows log r
      → length log < 2 ^ 64
      → ((if ltb r.seq after then 0 else max after (r.seq - length r.entries))
            + 2 ^ 64
            - (r.seq - length r.entries))
          % 2 ^ 64
        ≡ n
      → recent_logs_after r after ≡ (drop (length log - recent_logs_cap + n) log, length log)
  unfolding recent_logs_after
  skips log r after n h small e =
      let k = length log - recent_logs_cap in
      let s : r.seq ≡ length log = omega (arith, h.1, small) in
      ap (λ i. (drop i r.entries, r.seq)) e
      ∙ ap (λ es. (drop n es, r.seq)) h.0
      ∙ ap (λ d. (d, r.seq)) (drop-drop n k log)
      ∙ ap (λ q. (drop (k + n) log, q)) s

  Shows-length :
      (log : List A) (r : WorkerLogRing A)
      → Shows log r
      → length log < 2 ^ 64
      → (r.seq ≡ length log) × (length r.entries ≡ length log - (length log - recent_logs_cap))
  Shows-length log r h small =
      (omega (arith, h.1, small), ap length h.0 ∙ length-drop (length log - recent_logs_cap) log)

  within-Shows :
      (log : List A) (r : WorkerLogRing A) (after : ℕ)
      → Shows log r
      → length log < 2 ^ 64
      → after ≤ length log
      → recent_logs_after r after ≡ (newer log after, length log)
  within-Shows log r after h small le =
      let k = length log - recent_logs_cap in
      let l = Shows-length log r h small in
      skips log r after (max after k - k) h small (ground (arith, l, small, le))
      ∙ ap (λ i. (drop i log, length log)) (omega arith)

  beyond-Shows :
      (log : List A) (r : WorkerLogRing A) (after : ℕ)
      → Shows log r
      → length log < 2 ^ 64
      → length log < after
      → recent_logs_after r after
        ≡ (if leb (length log) recent_logs_cap then log else [], length log)
  beyond-Shows log r after h small lt =
      let k = length log - recent_logs_cap in
      let l = Shows-length log r h small in
      elim (Bool-cases (leb (length log) recent_logs_cap)) [
        | inl held ↦
            skips log r after 0 h small (ground (arith, l, small, lt, held))
            ∙ ap (λ i. (drop i log, length log)) {x = k + 0} {y = 0} (ground (arith, held))
            ∙ rw held refl
        | inr more ↦
            skips log r after (2 ^ 64 - k) h small (ground (arith, l, small, lt, more))
            ∙ ap (λ d. (d, length log)) (drop_all (k + (2 ^ 64 - k)) log (omega (arith, small)))
            ∙ rw more refl
      ]

  -- While fewer than 2^64 entries were logged: a client that asks with a number it was given gets
  -- exactly what was logged since, as far as the last thousand entries, and the number to ask with
  -- next. With a number from before a restart, beyond the newest, it gets all entries if there were no
  -- more than a thousand, and otherwise none.
  pub recent_logs_after_lem :
      (log : List A) (after : ℕ)
      → length log < 2 ^ 64
      → recent_logs_after (pushed log fresh_ring) after ≡ (
        if ltb (length log) after
            then (if leb (length log) recent_logs_cap then log else [])
            else newer log after,
        length log,
      )
  recent_logs_after_lem log after small =
      let h = pushed-Shows log [] fresh_ring (refl, refl) in
      elim (Bool-cases (ltb (length log) after)) [
        | inl lt ↦
            beyond-Shows log (pushed log fresh_ring) after h small (ground (arith, lt)) ∙ rw lt refl
        | inr le ↦
            within-Shows log (pushed log fresh_ring) after h small (ground (arith, le)) ∙ rw le refl
      ]
