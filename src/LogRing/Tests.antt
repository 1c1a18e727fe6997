-- ===== src/LogRing/Tests.antt =====
-- The log ring after three entries.
use studio_worker.Base.{String, ◌≡◌, refl, [], ◌∷◌, List, ltb, leb, length, if◌then◌else◌, arith}
use studio_worker.LogRing.{push, recent_logs_after, recent_logs_cap}
use studio_worker.LogRing.Laws.{pushed, fresh_ring, newer, recent_logs_after_lem}

abbrev log : List String
log = "a" ∷ "b" ∷ "c" ∷ []

recent_logs_after_lem_example : recent_logs_after (pushed log fresh_ring) 1 ≡ (
  if ltb (length log) 1
      then (if leb (length log) recent_logs_cap then log else [])
      else newer log 1,
  length log,
)
recent_logs_after_lem_example = recent_logs_after_lem log 1 (omega arith)

one_new : recent_logs_after (pushed log fresh_ring) 2 ≡ ("c" ∷ [], 3)
unfolding recent_logs_after pushed push
one_new = refl
