-- ===== src/Thinking/Agreeing.antt =====
-- A streamed answer and a whole one have the same content (src/engine/llm_core.rs).
use studio_worker.Base.{
  ℕ, true, false, some, List, [], ◌∷◌, ◌++◌, ◌==◌, ◌≡◌, refl, sym, ap, subst, ◌∙◌, arith, inl, inr,
  Bool-cases,
}
use studio_worker.Base.Chars.{Chars, is_whitespace, strip_prefix, trim_start, trim_end, trim}
use studio_worker.Thinking.{
  think_open, think_close, split_once, here_or, one_later, split_reasoning, stream, new_splitter,
}
use studio_worker.Thinking.Laws.{strip_prefix-eq}
use studio_worker.Thinking.Deltas.{said, join, whole_split, opened, after_open}
use studio_worker.Thinking.Splitting.{stream_lem, trim_start_idem}

-- Where the first mark of a text leaves its rest.
abbrev Rest : Chars → Chars → Type 0
Rest text rest = (before : Chars) × (split_once think_close text ≡ some (before, rest))

blank_ne : (c : ℕ) → is_whitespace c ≡ true → (b'<' == c) ≡ false
unfolding is_whitespace
blank_ne c h = ground (arith, h)

Rest-blanks : (text rest : Chars) → Rest (trim_start text) rest → Rest text rest
unfolding trim_start split_once here_or one_later strip_prefix
Rest-blanks [] rest h = h
Rest-blanks (c ∷ cs) rest h = elim (Bool-cases (is_whitespace c)) [
  | inl e ↦
      let t : trim_start (c ∷ cs) ≡ trim_start cs = rw e refl in
      let (b, q) = Rest-blanks cs rest (subst (λ s. Rest s rest) t h) in
      (c ∷ b, rw (blank_ne c e, q) refl)
  | inr e ↦ let t : trim_start (c ∷ cs) ≡ c ∷ cs = rw e refl in subst (λ s. Rest s rest) t h
]

Rest-opened : (text rest : Chars) → Rest text rest → Rest (think_open ++ text) rest
unfolding split_once here_or one_later strip_prefix
Rest-opened text rest (b, q) = (think_open ++ b, rw q refl)

split_reasoning-content :
    (text rest : Chars) → Rest text rest → (split_reasoning text).0 ≡ trim rest
unfolding split_reasoning
split_reasoning-content text rest (b, q) = rw (q, split_reasoning) refl

-- If an answer begins with a block that is closed, what is streamed as content, however the text came
-- in pieces, is the content of the whole answer, blanks at either end left aside.
pub stream-split_reasoning :
    (pieces : List Chars) (block thought answer : Chars)
    → strip_prefix think_open (trim_start (join pieces)) ≡ some block
    → split_once think_close block ≡ some (thought, answer)
    → trim (said (stream pieces new_splitter)) ≡ (split_reasoning (join pieces)).0
unfolding trim
stream-split_reasoning pieces block thought answer opens closes =
    let text = join pieces in
    let begun = strip_prefix-eq think_open (trim_start text) block opens in
    let found : Rest (trim_start text) answer =
      subst (λ t. Rest t answer) (sym begun) (Rest-opened block answer (thought, closes)) in
    let w : (whole_split text).1 ≡ trim_start answer =
      ap (λ o. (opened o text).1) opens ∙ ap (λ o. (after_open o block).1) closes in
    let said_so : trim_start (said (stream pieces new_splitter)) ≡ trim_start answer =
      (stream_lem pieces).1 ∙ ap trim_start w ∙ trim_start_idem answer in
    ap trim_end said_so ∙ sym (split_reasoning-content text answer (Rest-blanks text answer found))
