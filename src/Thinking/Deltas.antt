-- ===== src/Thinking/Deltas.antt =====
-- What the deltas of a stream add up to, and how a whole text splits (src/engine/llm_core.rs).
use studio_worker.Base.{
  Option, none, some, List, [], ◌∷◌, ◌++◌, ◌≡◌, refl, sym, ◌∙◌, append_assoc, append-nil,
}
use studio_worker.Base.Chars.{Chars, strip_prefix, trim_start, trim}
use studio_worker.Thinking.{
  Delta, reasoning, content, ThinkState, answering, ThinkSplitter, think_open, think_close,
  split_once, sent, in_answering, run_state, push_delta, finish_state, finish_delta, stream,
}

-- The texts of the deltas of each kind.
abbrev pub reasoned : List Delta → Chars
reasoned [] = []
reasoned (reasoning t ∷ ds) = t ++ reasoned ds
reasoned (content t ∷ ds) = reasoned ds

abbrev pub said : List Delta → Chars
said [] = []
said (reasoning t ∷ ds) = said ds
said (content t ∷ ds) = t ++ said ds

abbrev pub join : List Chars → Chars
join [] = []
join (p ∷ ps) = p ++ join ps

-- The reasoning and the content of a whole text, whose block is open.
abbrev pub after_open : Option (Chars × Chars) → Chars → Chars × Chars
after_open none text = (trim text, [])
after_open (some (thought, rest)) text = (trim thought, trim_start rest)

abbrev pub opened : Option Chars → Chars → Chars × Chars
opened none text = ([], text)
opened (some rest) text = after_open (split_once think_close rest) rest

-- The reasoning and the content of a whole text.
abbrev pub whole_split : Chars → Chars × Chars
whole_split text = opened (strip_prefix think_open (trim_start text)) text

pub reasoned-append : (xs ys : List Delta) → reasoned (xs ++ ys) ≡ reasoned xs ++ reasoned ys
reasoned-append [] ys = refl
reasoned-append (reasoning t ∷ xs) ys =
    rw (reasoned-append xs ys) (sym (append_assoc t (reasoned xs) (reasoned ys)))
reasoned-append (content t ∷ xs) ys = reasoned-append xs ys

pub said-append : (xs ys : List Delta) → said (xs ++ ys) ≡ said xs ++ said ys
said-append [] ys = refl
said-append (reasoning t ∷ xs) ys = said-append xs ys
said-append (content t ∷ xs) ys = rw (said-append xs ys) (sym (append_assoc t (said xs) (said ys)))

pub sent_content : (t : Chars) → (reasoned (sent content t) ≡ []) × (said (sent content t) ≡ t)
unfolding sent
sent_content [] = (refl, refl)
sent_content (c ∷ cs) = (refl, append-nil (c ∷ cs))

pub sent_reasoning :
    (t : Chars) → (reasoned (sent reasoning t) ≡ t) × (said (sent reasoning t) ≡ [])
unfolding sent
sent_reasoning [] = (refl, refl)
sent_reasoning (c ∷ cs) = (append-nil (c ∷ cs), refl)

abbrev pub at : ThinkState → Chars → ThinkSplitter
at state buf = record { state = state; buf = buf }

-- Once the answer has begun, all that comes is content.
pub stream-answering :
    (pieces : List Chars)
    → (reasoned (stream pieces (at answering [])) ≡ [])
      × (said (stream pieces (at answering [])) ≡ join pieces)
unfolding stream finish_delta finish_state sent push_delta run_state in_answering
stream-answering [] = (refl, refl)
stream-answering (p ∷ ps) =
    let rest = stream ps (at answering []) in
    let ih = stream-answering ps in
    let s = sent_content p in
    (
      reasoned-append (sent content p) rest ∙ rw (s.0, ih.0) refl,
      said-append (sent content p) rest ∙ rw (s.1, ih.1) refl,
    )
