-- ===== src/Thinking/Tests.antt =====
-- An answer that thinks first, in pieces (src/engine/llm_core.rs).
use studio_worker.Base.{none, some, List, [], ◌∷◌, ◌≡◌, refl}
use studio_worker.Base.Chars.{Chars, codes, strip_prefix, trim, trim_start, is_whitespace}
use studio_worker.Thinking.{
  reasoning, content, stream, new_splitter, split_reasoning, split_once, think_open, think_close,
  begins_with, sent,
}
use studio_worker.Thinking.Deltas.{said, join, whole_split}
use studio_worker.Thinking.Splitting.{SplitsAs, stream_lem}
use studio_worker.Thinking.Agreeing.{stream-split_reasoning}

abbrev pieces : List Chars
pieces = codes " <thi" ∷ codes "nk> so </thin" ∷ codes "k>" ∷ codes " yes" ∷ []

stream_run : stream pieces new_splitter ≡ reasoning (codes "so") ∷ content (codes " yes") ∷ []
unfolding stream begins_with trim is_whitespace sent strip_prefix
stream_run = refl

-- In one piece the blank behind the block is gone.
stream_whole :
    stream (join pieces ∷ []) new_splitter ≡ reasoning (codes "so") ∷ content (codes "yes") ∷ []
unfolding stream begins_with trim is_whitespace sent strip_prefix
stream_whole = refl

-- A block that is never closed is reasoning in a stream, and content in a whole answer.
unclosed_stream : stream (codes "<think>so" ∷ []) new_splitter ≡ reasoning (codes "so") ∷ []
unfolding stream begins_with trim is_whitespace sent strip_prefix
unclosed_stream = refl

unclosed_whole : split_reasoning (codes "<think>so") ≡ (codes "<think>so", none)
unfolding split_reasoning trim is_whitespace strip_prefix
unclosed_whole = refl

stream_lem_example : SplitsAs (whole_split (join pieces)) (stream pieces new_splitter)
stream_lem_example = stream_lem pieces

opens : strip_prefix think_open (trim_start (join pieces)) ≡ some (codes " so </think> yes")
unfolding strip_prefix trim_start is_whitespace
opens = refl

closes : split_once think_close (codes " so </think> yes") ≡ some (codes " so ", codes " yes")
unfolding split_once strip_prefix
closes = refl

stream-split_reasoning_example :
    trim (said (stream pieces new_splitter)) ≡ (split_reasoning (join pieces)).0
stream-split_reasoning_example =
    stream-split_reasoning pieces (codes " so </think> yes") (codes " so ") (codes " yes") opens
      closes
