-- ===== src/DaemonLink/Mirroring.antt =====
-- The UI's log is the daemon's (src/daemon_link.rs, src/runtime.rs, src/job_log.rs).
use studio_worker.Base.{
  ℕ, ◌-◌, ◌^◌, ◌≤◌, ◌<◌, false, List, [], ◌∷◌, ◌++◌, length, drop, length-append, length-drop,
  drop-append, ltb, ◌≡◌, refl, sym, ap, ◌∙◌, inl, inr, arith, le_cases, if◌then◌else◌,
}
use studio_worker.LogRing.{recent_logs_cap, shrink, recent_logs_after}
use studio_worker.LogRing.Laws.{
  drop-drop, shrink_lem, pushed, pushed-Shows, fresh_ring, newer, recent_logs_after_lem,
}
use studio_worker.DaemonLink.Replica.{Replica, LogsPage, apply_logs, clear}

module _ {A : Type 0} where
  -- The last entries of a log, as many as a ring holds.
  abbrev pub latest : List A → List A
  latest log = drop (length log - recent_logs_cap) log

  latest-drop :
      (k : ℕ) (log : List A) → k ≤ length log - recent_logs_cap → latest (drop k log) ≡ latest log
  latest-drop k log h =
      drop-drop (length (drop k log) - recent_logs_cap) k log
      ∙ ap (λ i. drop i log) {y = length log - recent_logs_cap}
          (omega (arith, h, length-drop k log))

  drop-length : (xs ys : List A) → drop (length xs) (xs ++ ys) ≡ ys
  drop-length [] ys = refl
  drop-length (x ∷ xs) ys = drop-length xs ys

  -- A page of the entries since, behind the last ones before.
  latest-append :
      (log more : List A)
      → latest (latest log ++ newer (log ++ more) (length log)) ≡ latest (log ++ more)
  latest-append log more =
      let n = length (log ++ more) in
      let k = length log - recent_logs_cap in
      let l = length-append log more in
      elim (le_cases (n - recent_logs_cap) (length log)) [
        | inl held ↦
            let page : newer (log ++ more) (length log) ≡ more =
              ap (λ i. drop i (log ++ more)) {y = length log} (omega (arith, held))
              ∙ drop-length log more in
            ap (λ p. latest (latest log ++ p)) page
            ∙ ap latest (sym (drop-append k log more (omega arith)))
            ∙ latest-drop k (log ++ more) (omega (arith, l))
        | inr lost ↦
            let page : newer (log ++ more) (length log) ≡ latest (log ++ more) =
              ap (λ i. drop i (log ++ more)) {y = n - recent_logs_cap} (omega (arith, lost)) in
            let whole = latest (log ++ more) in
            let long : length whole ≡ recent_logs_cap =
              length-drop (n - recent_logs_cap) (log ++ more) ∙ omega (arith, lost) in
            let size = length-append (latest log) whole in
            ap (λ p. latest (latest log ++ p)) page
            ∙ ap (λ i. drop i (latest log ++ whole)) {y = length (latest log)}
                (omega (arith, size, long))
            ∙ drop-length (latest log) whole
      ]

  shrunk : (ring : List A) → shrink (length ring) ring ≡ latest ring
  shrunk ring = shrink_lem (length ring) ring (omega arith)

  -- All that was logged.
  abbrev pub logged : List (List A) → List A → List A
  logged [] log = log
  logged (more ∷ batches) log = logged batches (log ++ more)

  length-logged :
      (batches : List (List A)) (log : List A) → length log ≤ length (logged batches log)
  length-logged [] log = omega arith
  length-logged (more ∷ batches) log =
      omega (arith, length-append log more, length-logged batches (log ++ more))

module _ {A C S P M L : Type 0} where
  -- The replica's log is the daemon's, and it knows its number.
  abbrev pub Mirrors : List A → Replica A C S P M L → Type 0
  Mirrors log r = (r.recent_logs ≡ latest log) × (r.logs_seq ≡ length log)

  -- What the daemon answers to the replica's question, once it has logged `log`.
  abbrev pub page_of : List A → Replica A C S P M L → LogsPage A
  page_of log r =
      let a = recent_logs_after (pushed log fresh_ring) r.logs_seq in
      record { entries = a.0; seq = a.1 }

  apply_logs-Mirrors :
      (log more : List A) (r : Replica A C S P M L)
      → length (log ++ more) < 2 ^ 64
      → Mirrors log r
      → Mirrors (log ++ more) (apply_logs (page_of (log ++ more) r) r)
  unfolding apply_logs
  apply_logs-Mirrors log more r small (same_logs, same_seq) =
      let all = log ++ more in
      let l = length-append log more in
      let a = recent_logs_after_lem all r.logs_seq small in
      let newest : ltb (length all) r.logs_seq ≡ false = ground (arith, l, same_seq) in
      let answer : recent_logs_after (pushed all fresh_ring) r.logs_seq
          ≡ (newer all r.logs_seq, length all) =
        a ∙ rw newest refl in
      let entries : (page_of all r).entries ≡ newer all (length log) =
        ap (λ (z : List A × ℕ). z.0) answer ∙ ap (newer all) same_seq in
      let seq : (page_of all r).seq ≡ length all = ap (λ (z : List A × ℕ). z.1) answer in
      let held : (if ltb (page_of all r).seq r.logs_seq then [] else r.recent_logs) ≡ latest log =
        rw (seq, newest) same_logs in
      (
        ap (λ h. shrink (length (h ++ (page_of all r).entries)) (h ++ (page_of all r).entries)) held
            ∙ ap (λ e. shrink (length (latest log ++ e)) (latest log ++ e)) entries
            ∙ shrunk (latest log ++ newer all (length log))
            ∙ latest-append log more,
        seq,
      )

  -- Polls, each after the daemon has logged some more.
  unfoldable pub polled_logs : List (List A) → List A → Replica A C S P M L → Replica A C S P M L
  polled_logs [] log r = r
  polled_logs (more ∷ batches) log r =
      polled_logs batches (log ++ more) (apply_logs (page_of (log ++ more) r) r)

  polled_logs-Mirrors :
      (batches : List (List A)) (log : List A) (r : Replica A C S P M L)
      → length (logged batches log) < 2 ^ 64
      → Mirrors log r
      → Mirrors (logged batches log) (polled_logs batches log r)
  unfolding polled_logs
  polled_logs-Mirrors [] log r small m = m
  polled_logs-Mirrors (more ∷ batches) log r small m =
      polled_logs-Mirrors batches (log ++ more) (apply_logs (page_of (log ++ more) r) r) small (
        apply_logs-Mirrors log more r (omega (arith, small, length-logged batches (log ++ more))) m)

  -- From a replica that was emptied, however much a daemon logs between the polls, the replica's log is
  -- after each poll the daemon's ring, entry for entry, and it knows its number (for fewer than 2^64
  -- entries).
  pub polled_logs_lem :
      (batches : List (List A)) (r : Replica A C S P M L)
      → length (logged batches []) < 2 ^ 64
      → ((polled_logs batches [] (clear r)).recent_logs
          ≡ (pushed (logged batches []) fresh_ring).entries)
        × ((polled_logs batches [] (clear r)).logs_seq
            ≡ (pushed (logged batches []) fresh_ring).seq)
  unfolding clear
  polled_logs_lem batches r small =
      let m = polled_logs-Mirrors batches [] (clear r) small (refl, refl) in
      let s = pushed-Shows (logged batches []) [] fresh_ring (refl, refl) in
      (m.0 ∙ sym s.0, omega (arith, m.1, s.1, small))
