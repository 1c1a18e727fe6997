-- ===== src/Presence/Laws.antt =====
-- What the presence monitor (src/presence.rs) keeps and logs over any run of samples.
use studio_worker.Base.{ℕ, ◌≤◌, true, false, ◌≡◌, refl, some, List, [], ◌∷◌, arith, ◌↔◌, same_refl}
use studio_worker.Presence.{
  classify, holds_back, unsupported, failed, Sample, measured, probe_failed, Monitor, note,
}

unfoldable pub after : List Sample → Monitor → Monitor
after [] w = w
after (s ∷ ss) w = after ss (note s w).0

free_iff : (t : ℕ) → (holds_back true (some (classify t)) ≡ false) ↔ (120000 ≤ t)
unfolding holds_back classify
free_iff t = ground arith

-- After any samples, the last of them alone decides whether an `only_when_idle` worker takes work:
-- it does exactly if that sample measured at least two minutes without input; a worker without that
-- wish always does.
holds_back_iff :
    (ss : List Sample) (s : Sample) (w : Monitor)
    → ((holds_back true (note s (after ss w)).0.slot ≡ false)
        ↔ ((t : ℕ) × (s ≡ measured t) × (120000 ≤ t)))
      × (holds_back false (note s (after ss w)).0.slot ≡ false)
unfolding note holds_back
holds_back_iff ss (measured t) w = (
  ((λ h. (t, refl, (free_iff t).0 h)), (λ (u, q, k). (free_iff t).1 (ground (arith, q, k)))),
  refl,
)
holds_back_iff ss (probe_failed e) w =
    (((λ h. ground (arith, h)), (λ (t, q, k). ground (arith, q))), refl)

-- A sample that repeats the one before changes nothing and logs nothing.
note-repeat :
    (s : Sample) (w : Monitor)
    → note s (note s w).0
      ≡ ((note s w).0, record { readable_again = false; changed = false; unknown = false })
unfolding note classify
note-repeat (measured t) w = ground arith
note-repeat (probe_failed unsupported) w = ground arith
note-repeat (probe_failed (failed s d)) w = ground (arith, same_refl s, same_refl d)
