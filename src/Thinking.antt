-- ===== src/Thinking.antt =====
-- The rest of the rules of src/engine/llm_core.rs: the budget, and the split of a streamed answer into
-- reasoning and content. A text is the list of its characters' codes.
pub mod Laws
pub mod Deltas
pub mod Splitting
pub mod Agreeing
pub mod Budget
mod Tests
use studio_worker.Base.{
  ℕ, zero, suc, ◌+◌, ◌-◌, ◌^◌, min, max, Bool, true, false, not, ◌&&◌, ◌||◌, Option, none, some,
  List, [], ◌∷◌, ◌++◌, length, ltb, leb, ◌==◌, if◌then◌else◌,
}
use studio_worker.Base.Chars.{Chars, codes, strip_prefix, trim_start, trim}

pub data Finish : Type 0 where
  stop : Finish
  length_reached : Finish

default_context_size : ℕ
default_context_size = 8192

abbrev pub u32_max : ℕ
u32_max = 2 ^ 32 - 1

-- `checked_sub` and the filter: the room that the prompt leaves, if any.
unfoldable pub room_for : ℕ → ℕ → Option ℕ
room_for n_ctx prompt_tokens =
    if ltb prompt_tokens n_ctx then some (n_ctx - prompt_tokens) else none

-- `none` is `ContextOverflow`.
unfoldable pub plan_budget : ℕ → ℕ → ℕ → Option ℕ
unfolding room_for
plan_budget prompt_tokens max_tokens n_ctx = elim (room_for n_ctx prompt_tokens) [
  | none ↦ none
  | some room ↦ some (min (max max_tokens 1) (min room u32_max))
]

unfoldable pub or_default_size : Option ℕ → ℕ
unfolding default_context_size
or_default_size none = default_context_size
or_default_size (some n) = n

unfoldable pub effective_context : Option ℕ → ℕ → ℕ
unfolding or_default_size
effective_context configured trained =
    let wanted = or_default_size configured in if ltb 0 trained then min wanted trained else wanted

pub record ChatMessage : Type 0 where
  pub role : Chars
  pub content : Chars

unfoldable pub chat_messages : Option Chars → List ChatMessage → List ChatMessage
chat_messages none messages = messages
chat_messages (some system) messages = record { role = codes "system"; content = system } ∷ messages

unfoldable pub begins_with : Chars → Chars → Bool
begins_with prefix text = elim (strip_prefix prefix text) [ none ↦ false | some rest ↦ true ]

unfoldable pub is_empty : Chars → Bool
is_empty [] = true
is_empty (c ∷ cs) = false

unfoldable pub should_add_bos : Bool → Chars → Chars → Bool
unfolding begins_with is_empty
should_add_bos model_adds_bos prompt bos_text =
    model_adds_bos && (is_empty bos_text || not (begins_with bos_text prompt))

unfoldable pub finish_for : ℕ → ℕ → Bool → Finish
finish_for generated budget hit_end =
    if not hit_end && leb budget generated then length_reached else stop

-- What stands before and behind the first place where `mark` begins (`find`, `split_once`).
unfoldable pub one_later : ℕ → Option (Chars × Chars) → Option (Chars × Chars)
one_later c none = none
one_later c (some (before, rest)) = some (c ∷ before, rest)

unfoldable pub here_or : Option Chars → Option (Chars × Chars) → Option (Chars × Chars)
here_or none later = later
here_or (some rest) later = some ([], rest)

unfoldable pub split_once : Chars → Chars → Option (Chars × Chars)
unfolding one_later here_or
split_once mark [] = here_or (strip_prefix mark []) none
split_once mark (c ∷ cs) = here_or (strip_prefix mark (c ∷ cs)) (one_later c (split_once mark cs))

abbrev pub think_open : Chars
think_open = codes "<think>"

abbrev pub think_close : Chars
think_close = codes "</think>"

-- `trim_start_matches`, which takes as many as there are; the fuel is the length.
unfoldable pub trim_start_matches : ℕ → Chars → Chars → Chars
trim_start_matches zero mark text = text
trim_start_matches (suc fuel) mark text = elim (strip_prefix mark text) [
  | none ↦ text
  | some rest ↦ trim_start_matches fuel mark rest
]

unfoldable pub split_reasoning : Chars → Chars × Option Chars
unfolding split_once trim_start_matches
split_reasoning text = elim (split_once think_close text) [
  | none ↦ (trim text, none)
  | some (thought, answer) ↦
      (trim answer, some (trim (trim_start_matches (length thought) think_open (trim thought))))
]

pub data Delta : Type 0 where
  reasoning : Chars → Delta
  content : Chars → Delta

pub data ThinkState : Type 0 where
  undecided thinking answering : ThinkState

pub record ThinkSplitter : Type 0 where
  pub state : ThinkState
  pub buf : Chars

-- A delta, unless its text is empty.
unfoldable pub sent : (Chars → Delta) → Chars → List Delta
sent kind [] = []
sent kind (c ∷ cs) = kind (c ∷ cs) ∷ []

-- The rounds of `push`, each state's own; a round only ever goes on to a later state.
unfoldable pub in_answering : Chars → List Delta × ThinkSplitter
unfolding sent
in_answering buf = (sent content buf, record { state = answering; buf = [] })

unfoldable pub in_thinking : Chars → List Delta × ThinkSplitter
unfolding split_once sent in_answering
in_thinking buf = elim (split_once think_close buf) [
  | none ↦ ([], record { state = thinking; buf = buf })
  | some (thought, rest) ↦
      let (out, s) = in_answering (trim_start rest) in (sent reasoning (trim thought) ++ out, s)
]

unfoldable pub in_undecided : Chars → List Delta × ThinkSplitter
unfolding in_thinking in_answering begins_with
in_undecided buf =
    let trimmed = trim_start buf in
    elim (strip_prefix think_open trimmed) [
      | some rest ↦ in_thinking rest
      | none ↦
          if begins_with trimmed think_open
          then ([], record { state = undecided; buf = buf })
          else in_answering buf
    ]

unfoldable pub run_state : ThinkState → Chars → List Delta × ThinkSplitter
unfolding in_undecided in_thinking in_answering
run_state undecided buf = in_undecided buf
run_state thinking buf = in_thinking buf
run_state answering buf = in_answering buf

unfoldable pub push_delta : Chars → ThinkSplitter → List Delta × ThinkSplitter
unfolding run_state
push_delta piece s = run_state s.state (s.buf ++ piece)

-- `finish`, by the state.
unfoldable pub finish_state : ThinkState → Chars → List Delta
unfolding sent
finish_state undecided rest = sent content rest
finish_state thinking rest = sent reasoning (trim rest)
finish_state answering rest = sent content rest

unfoldable pub finish_delta : ThinkSplitter → List Delta
unfolding finish_state
finish_delta s = finish_state s.state s.buf

-- A streamed answer: its pieces in order, and the end.
unfoldable pub stream : List Chars → ThinkSplitter → List Delta
unfolding push_delta finish_delta
stream [] s = finish_delta s
stream (piece ∷ pieces) s = let (out, s') = push_delta piece s in out ++ stream pieces s'

abbrev pub new_splitter : ThinkSplitter
new_splitter = record { state = undecided; buf = [] }
