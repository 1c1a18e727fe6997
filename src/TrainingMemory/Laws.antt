-- ===== src/TrainingMemory/Laws.antt =====
-- What the memory admission of a training (src/wake_word/memory.rs) decides, and when a wait ends.
use studio_worker.Base.{
  ℕ, ◌+◌, ◌*◌, ◌^◌, ◌≤◌, ◌<◌, ◌≡◌, ◌≢◌, Option, none, some, List, [], ◌∷◌, ◌++◌, arith, ◌↔◌, length,
}
use studio_worker.TrainingMemory.{Snapshot, admit, verdict, Look, wait_for}

-- The worker's scope has no limit, or room for the need.
abbrev pub HasRoom : Option ℕ → ℕ → Type 0
HasRoom none need_bytes = Unit
HasRoom (some room) need_bytes = need_bytes ≤ room

verdict_parts :
    (share : ℕ → ℕ) (need_bytes total available : ℕ) (scope : Option ℕ)
    → need_bytes + share total + 2 * 2 ^ 30 < 2 ^ 64
    → (verdict share need_bytes
          (record { total = total; available = available; scope_headroom = scope })
        ≡ admit)
      ↔ ((need_bytes + share total + 2 * 2 ^ 30 ≤ available) × HasRoom scope need_bytes)
unfolding verdict
verdict_parts share need_bytes total available none h = ground (arith, h)
verdict_parts share need_bytes total available (some room) h = ground (arith, h)

-- A stage may start exactly if its need, the share of the machine that stays free and 2 GiB are
-- available together, and the worker's scope, where it has a limit, has room for the need (when
-- those amounts add up to less than 2^64 bytes).
pub verdict-admit_iff :
    (share : ℕ → ℕ) (need_bytes : ℕ) (now : Snapshot)
    → need_bytes + share now.total + 2 * 2 ^ 30 < 2 ^ 64
    → (verdict share need_bytes now ≡ admit) ↔ (
        (need_bytes + share now.total + 2 * 2 ^ 30 ≤ now.available)
        × HasRoom now.scope_headroom need_bytes)
verdict-admit_iff share need_bytes now h =
    verdict_parts share need_bytes now.total now.available now.scope_headroom h

-- A wait is over by the first look that comes after the timeout, whatever came before it, and was
-- told of at most once for each look before that.
wait_for-ends :
    (share : ℕ → ℕ) (need_bytes timeout : ℕ) (before : List Look) (l : Look) (later : List Look)
    → timeout ≤ l.elapsed
    → ((wait_for share need_bytes timeout (before ++ l ∷ later)).1 ≢ none)
      × (length (wait_for share need_bytes timeout (before ++ l ∷ later)).0 ≤ length before)
unfolding wait_for
wait_for-ends share need_bytes timeout [] l later h = ground (arith, h)
wait_for-ends share need_bytes timeout (b ∷ before) l later h =
    ground (arith, wait_for-ends share need_bytes timeout before l later h)
