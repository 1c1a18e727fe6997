-- ===== src/Thinking/Splitting.antt =====
-- What a streamed answer's deltas add up to, however the text comes (src/engine/llm_core.rs).
use studio_worker.Base.{
  Bool, true, false, Option, none, some, List, [], ◌∷◌, ◌++◌, ◌≡◌, ◌≢◌, refl, sym, ap, subst, ◌∙◌,
  arith, append_assoc, append-nil,
}
use studio_worker.Base.Chars.{Chars, strip_prefix, trim_start, trim, codes}
use studio_worker.Thinking.{
  Delta, reasoning, content, undecided, thinking, answering, ThinkSplitter, think_open, think_close,
  split_once, begins_with, sent, in_answering, in_thinking, in_undecided, run_state, push_delta,
  finish_state, finish_delta, stream, new_splitter,
}
use studio_worker.Thinking.Laws.{
  strip_prefix-append, Differs-append, split_once-append, trim_start-append, trim_start-append_ne,
}
use studio_worker.Thinking.Deltas.{
  reasoned, said, join, after_open, opened, whole_split, reasoned-append, said-append, sent_content,
  sent_reasoning, at, stream-answering,
}

-- The reasoning exactly, and the content but for blanks before it.
abbrev Shows : Chars × Chars → List Delta → Type 0
Shows (r, c) ds = (reasoned ds ≡ r) × (trim_start (said ds) ≡ trim_start c)

pub trim_start_idem : (t : Chars) → trim_start (trim_start t) ≡ trim_start t
trim_start_idem t =
    subst (λ s. trim_start s ≡ trim_start t) (append-nil (trim_start t))
      (trim_start-append t [] ∙ ap trim_start (append-nil t))

-- The answer begins behind the thought that the last piece has closed.
Shows-closed :
    (thought rest : Chars) (pieces : List Chars)
    → Shows
        (trim thought, trim_start (rest ++ join pieces))
        ((sent reasoning (trim thought) ++ sent content (trim_start rest))
          ++ stream pieces (at answering []))
Shows-closed thought rest pieces =
    let a = sent reasoning (trim thought) in
    let b = sent content (trim_start rest) in
    let more = stream pieces (at answering []) in
    let r = sent_reasoning (trim thought) in
    let c = sent_content (trim_start rest) in
    let m = stream-answering pieces in
    let all : said ((a ++ b) ++ more) ≡ trim_start rest ++ join pieces =
      said-append (a ++ b) more ∙ rw (said-append a b, r.1, c.1, m.1) refl in
    (
      reasoned-append (a ++ b) more
          ∙ rw (reasoned-append a b, r.0, c.0, m.0) (append-nil _ ∙ append-nil _),
      ap trim_start all
          ∙ trim_start-append rest (join pieces)
          ∙ sym (trim_start_idem (rest ++ join pieces)),
    )

-- What is streamed once a push has ended.
abbrev resumed : List Delta × ThinkSplitter → List Chars → List Delta
resumed r pieces = r.0 ++ stream pieces r.1

in_thinking-none :
    (text : Chars) → split_once think_close text ≡ none → in_thinking text ≡ ([], at thinking text)
unfolding in_thinking
in_thinking-none text e = rw (e, in_thinking) refl

in_thinking-some :
    (text thought rest : Chars)
    → split_once think_close text ≡ some (thought, rest)
    → in_thinking text
      ≡ (sent reasoning (trim thought) ++ sent content (trim_start rest), at answering [])
unfolding in_thinking in_answering
in_thinking-some text thought rest e = rw (e, in_thinking) refl

abbrev spec_open : Chars → Chars × Chars
spec_open text = after_open (split_once think_close text) text

thinking_resumed :
    (text : Chars) (pieces : List Chars) (o : Option (Chars × Chars))
    → split_once think_close text ≡ o
    → (split_once think_close text ≡ none
        → Shows (spec_open (text ++ join pieces)) (stream pieces (at thinking text)))
    → Shows (spec_open (text ++ join pieces)) (resumed (in_thinking text) pieces)
thinking_resumed text pieces none e ih =
    subst (λ r. Shows (spec_open (text ++ join pieces)) (resumed r pieces))
      (sym (in_thinking-none text e)) (ih e)
thinking_resumed text pieces (some (t, r)) e ih =
    let later = split_once-append (b'<') (codes "/think>") text (join pieces) e in
    subst (λ o. Shows (after_open o (text ++ join pieces)) (resumed (in_thinking text) pieces))
      (sym later)
      (subst (λ q. Shows (trim t, trim_start (r ++ join pieces)) (resumed q pieces))
        (sym (in_thinking-some text t r e)) (Shows-closed t r pieces))

-- While the block is open nothing is sent, and its end sends what was thought.
stream-thinking :
    (pieces : List Chars) (buf : Chars)
    → split_once think_close buf ≡ none
    → Shows (spec_open (buf ++ join pieces)) (stream pieces (at thinking buf))
unfolding stream finish_delta finish_state push_delta run_state
stream-thinking [] buf h =
    let q : buf ++ [] ≡ buf = append-nil buf in
    let s = sent_reasoning (trim buf) in rw (q, h) (s.0, rw s.1 refl)
stream-thinking (p ∷ ps) buf h =
    subst (λ t. Shows (spec_open t) (resumed (in_thinking (buf ++ p)) ps))
      (append_assoc buf p (join ps))
      (thinking_resumed (buf ++ p) ps (split_once think_close (buf ++ p)) refl
        (stream-thinking ps (buf ++ p)))

-- It is open whether the answer begins with a block.
abbrev IsOpen : Chars → Type 0
IsOpen buf =
    (strip_prefix think_open (trim_start buf) ≡ none)
    × (begins_with (trim_start buf) think_open ≡ true)

in_undecided-open : (text : Chars) → IsOpen text → in_undecided text ≡ ([], at undecided text)
unfolding in_undecided
in_undecided-open text (s, b) = rw (s, in_undecided) (rw b refl)

in_undecided-block :
    (text rest : Chars)
    → strip_prefix think_open (trim_start text) ≡ some rest
    → in_undecided text ≡ in_thinking rest
unfolding in_undecided
in_undecided-block text rest s = rw (s, in_undecided) refl

in_undecided-answer :
    (text : Chars)
    → strip_prefix think_open (trim_start text) ≡ none
    → begins_with (trim_start text) think_open ≡ false
    → in_undecided text ≡ (sent content text, at answering [])
unfolding in_undecided in_answering
in_undecided-answer text s b = rw (s, in_undecided) (rw b refl)

block-ne : (t rest : Chars) → strip_prefix think_open t ≡ some rest → t ≢ []
unfolding strip_prefix
block-ne [] rest h = λ e. cc h
block-ne (c ∷ cs) rest h = λ e. cc e

answer-ne : (t : Chars) → begins_with t think_open ≡ false → t ≢ []
unfolding begins_with strip_prefix
answer-ne [] h = λ e. cc h
answer-ne (c ∷ cs) h = λ e. cc e

not_begun : (t : Chars) → begins_with t think_open ≡ false → strip_prefix t think_open ≡ none
unfolding begins_with
not_begun t h = ground (arith, h)

-- The text shows, when it goes on, that it begins with a block, or that it does not.
whole_split-block :
    (text more rest : Chars)
    → strip_prefix think_open (trim_start text) ≡ some rest
    → whole_split (text ++ more) ≡ spec_open (rest ++ more)
whole_split-block text more rest s =
    let t = trim_start-append_ne text more (block-ne (trim_start text) rest s) in
    ap (λ o. opened o (text ++ more))
      (ap (strip_prefix think_open) t ∙ strip_prefix-append think_open (trim_start text) more s)

whole_split-answer :
    (text more : Chars)
    → strip_prefix think_open (trim_start text) ≡ none
    → begins_with (trim_start text) think_open ≡ false
    → whole_split (text ++ more) ≡ ([], text ++ more)
whole_split-answer text more s b =
    let t = trim_start-append_ne text more (answer-ne (trim_start text) b) in
    let d = Differs-append think_open (trim_start text) more (s, not_begun (trim_start text) b) in
    ap (λ o. opened o (text ++ more)) (ap (strip_prefix think_open) t ∙ d.0)

Shows-answer :
    (text : Chars) (pieces : List Chars)
    → Shows ([], text ++ join pieces) (sent content text ++ stream pieces (at answering []))
Shows-answer text pieces =
    let s = sent_content text in
    let m = stream-answering pieces in
    let more = stream pieces (at answering []) in
    (
      reasoned-append (sent content text) more ∙ rw (s.0, m.0) refl,
      ap trim_start (said-append (sent content text) more ∙ rw (s.1, m.1) refl),
    )

undecided_resumed :
    (text : Chars) (pieces : List Chars) (o : Option Chars) (b : Bool)
    → strip_prefix think_open (trim_start text) ≡ o
    → begins_with (trim_start text) think_open ≡ b
    → (IsOpen text → Shows (whole_split (text ++ join pieces)) (stream pieces (at undecided text)))
    → Shows (whole_split (text ++ join pieces)) (resumed (in_undecided text) pieces)
undecided_resumed text pieces (some rest) b s e ih =
    subst (λ w. Shows w (resumed (in_undecided text) pieces))
      (sym (whole_split-block text (join pieces) rest s))
      (subst (λ q. Shows (spec_open (rest ++ join pieces)) (resumed q pieces))
        (sym (in_undecided-block text rest s))
        (thinking_resumed rest pieces (split_once think_close rest) refl
          (stream-thinking pieces rest)))
undecided_resumed text pieces none true s e ih =
    subst (λ q. Shows (whole_split (text ++ join pieces)) (resumed q pieces))
      (sym (in_undecided-open text (s, e))) (ih (s, e))
undecided_resumed text pieces none false s e ih =
    subst (λ w. Shows w (resumed (in_undecided text) pieces))
      (sym (whole_split-answer text (join pieces) s e))
      (subst (λ q. Shows ([], text ++ join pieces) (resumed q pieces))
        (sym (in_undecided-answer text s e)) (Shows-answer text pieces))

stream-undecided :
    (pieces : List Chars) (buf : Chars)
    → IsOpen buf
    → Shows (whole_split (buf ++ join pieces)) (stream pieces (at undecided buf))
unfolding stream finish_delta finish_state push_delta run_state
stream-undecided [] buf h =
    let q : buf ++ [] ≡ buf = append-nil buf in
    let s = sent_content buf in rw (q, h.0) (s.0, ap trim_start s.1)
stream-undecided (p ∷ ps) buf h =
    subst (λ t. Shows (whole_split t) (resumed (in_undecided (buf ++ p)) ps))
      (append_assoc buf p (join ps))
      (undecided_resumed (buf ++ p) ps (strip_prefix think_open (trim_start (buf ++ p)))
        (begins_with (trim_start (buf ++ p)) think_open) refl refl (stream-undecided ps (buf ++ p)))

-- What the deltas of a stream must add up to.
abbrev pub SplitsAs : Chars × Chars → List Delta → Type 0
SplitsAs (r, c) ds = (reasoned ds ≡ r) × (trim_start (said ds) ≡ trim_start c)

IsOpen-nil : IsOpen []
unfolding strip_prefix trim_start begins_with
IsOpen-nil = (refl, refl)

-- However a text comes in pieces, the deltas' reasoning is what its block holds, trimmed, and their
-- content is what follows the block, or the whole text if it does not begin with one, but for blanks in
-- front. A block that is never closed is reasoning to its end.
pub stream_lem :
    (pieces : List Chars) → SplitsAs (whole_split (join pieces)) (stream pieces new_splitter)
stream_lem pieces = stream-undecided pieces [] IsOpen-nil
