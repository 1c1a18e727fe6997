-- ===== src/StopHold/Tests.antt =====
-- A stream of two pieces with a stop of two characters.
use studio_worker.Base.{◌≡◌, refl, List, [], ◌∷◌}
use studio_worker.StopHold.{Text, kept, hold_new, push_piece, streamed}
use studio_worker.StopHold.Streaming.{Whole, joined, streamed_lem}

abbrev stops : List Text
stops = (7 ∷ 8 ∷ []) ∷ [] ∷ []

abbrev pieces : List Text
pieces = (1 ∷ 7 ∷ []) ∷ (8 ∷ 2 ∷ []) ∷ []

-- The first character of the stop is held back, and never sent.
held_back_run :
    ((push_piece (1 ∷ 7 ∷ []) (hold_new stops)).0 ≡ 1 ∷ [])
    × ((streamed pieces (hold_new stops)).0 ≡ 1 ∷ [])
unfolding push_piece hold_new streamed
held_back_run = (refl, refl)

streamed_lem_example :
    Whole
      (kept stops)
      (joined pieces)
      (streamed pieces (hold_new stops)).0
      (streamed pieces (hold_new stops)).1
streamed_lem_example = streamed_lem stops pieces
