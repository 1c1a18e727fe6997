-- ===== src/StopHold.antt =====
-- `StopHold` of src/engine/llm_core.rs: text is held back while it may still become a stop string.
-- A text is the list of its characters' codes; the source counts bytes where this counts characters.
pub mod Laws
pub mod Cutting
mod Streaming
mod Tests
use studio_worker.Base.{
  ℕ, zero, suc, ◌+◌, ◌-◌, max, Bool, true, false, ◌&&◌, Option, none, some, List, [], ◌∷◌, ◌++◌,
  length, take, drop, any, ltb, ◌==◌, if◌then◌else◌,
}

abbrev pub Text : Type 0
Text = List ℕ

-- `str::starts_with`.
unfoldable pub begins : Text → Text → Bool
begins text [] = true
begins [] (s ∷ ss) = false
begins (t ∷ ts) (s ∷ ss) = t == s && begins ts ss

pub record StopHold : Type 0 where
  pub stops : List Text
  pub out : Text
  pub emitted : ℕ
  pub stopped : Option ℕ

-- The stops that are not empty.
unfoldable pub kept : List Text → List Text
kept [] = []
kept ([] ∷ stops) = kept stops
kept ((s ∷ ss) ∷ stops) = (s ∷ ss) ∷ kept stops

unfoldable pub hold_new : List Text → StopHold
unfolding kept
hold_new stops = record { stops = kept stops; out = []; emitted = 0; stopped = none }

shifted : Option ℕ → Option ℕ
shifted none = none
shifted (some i) = some (suc i)

-- The least of the places at which `find` finds a stop, for stops that are not empty: the first place
-- where one begins.
unfoldable pub first_stop : List Text → Text → Option ℕ
unfolding begins shifted
first_stop stops [] = none
first_stop stops (t ∷ ts) =
    let rest = first_stop stops ts in if any (begins (t ∷ ts)) stops then some 0 else shifted rest

-- A text is a proper prefix of a stop.
unfoldable pub may_become : Text → Text → Bool
unfolding begins
may_become tail stop = ltb (length tail) (length stop) && begins stop tail

-- The length of the longest suffix that may still become a stop.
unfoldable pub held_suffix : List Text → Text → ℕ
unfolding may_become
held_suffix stops [] = 0
held_suffix stops (t ∷ ts) =
    let rest = held_suffix stops ts in
    if any (may_become (t ∷ ts)) stops then length (t ∷ ts) else rest

unfoldable pub let_out : ℕ → StopHold → Text × StopHold
let_out upto h =
    let end = max upto h.emitted in
    (take (end - h.emitted) (drop h.emitted h.out), record h { emitted = end })

-- `push` once the piece is added, by where a stop begins.
unfoldable pub after_piece : Option ℕ → StopHold → Text × StopHold
unfolding let_out held_suffix
after_piece (some i) h =
    let at = i + h.emitted in let_out at (record h { out = take at h.out; stopped = some at })
after_piece none h = let_out (length h.out - held_suffix h.stops (drop h.emitted h.out)) h

unfoldable pub push_piece : Text → StopHold → Text × StopHold
unfolding after_piece first_stop
push_piece piece h = elim h.stopped [
  | some at ↦ ([], h)
  | none ↦
      let more = record h { out = h.out ++ piece } in
      after_piece (first_stop h.stops (drop h.emitted more.out)) more
]

-- `finish`.
unfoldable pub let_rest : StopHold → Text × StopHold
unfolding let_out
let_rest h = let_out (length h.out) h

-- What a stream of pieces sends, its end included, and what is then the whole text.
unfoldable pub streamed : List Text → StopHold → Text × StopHold
unfolding push_piece let_rest
streamed [] h = let_rest h
streamed (piece ∷ pieces) h =
    let (sent, h1) = push_piece piece h in let (rest, h2) = streamed pieces h1 in (sent ++ rest, h2)
