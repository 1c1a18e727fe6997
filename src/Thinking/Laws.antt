-- ===== src/Thinking/Laws.antt =====
-- Prefixes, marks and leading blanks in a text that goes on (src/engine/llm_core.rs).
use studio_worker.Base.{
  ℕ, true, false, Option, none, some, [], ◌∷◌, ◌++◌, ◌==◌, ◌≡◌, ◌≢◌, refl, ◌∙◌, arith, inl, inr,
  ◌⊎◌, ◌+◌, ◌≤◌, length, Option-cases, Bool-cases,
}
use studio_worker.Base.Chars.{Chars, is_whitespace, strip_prefix, trim_start}
use studio_worker.Thinking.{split_once, here_or, one_later}

pub strip_prefix-append :
    (mark text more : Chars) {rest : Chars}
    → strip_prefix mark text ≡ some rest
    → strip_prefix mark (text ++ more) ≡ some (rest ++ more)
unfolding strip_prefix
strip_prefix-append [] text more h = ground (arith, h)
strip_prefix-append (m ∷ ms) [] more h = cc h
strip_prefix-append (m ∷ ms) (t ∷ ts) more {rest} h = elim (Bool-cases (m == t)) [
  | inl e ↦
      let g : strip_prefix ms ts ≡ some rest = ground (arith, h, e) in
      rw e (strip_prefix-append ms ts more g)
  | inr e ↦ absurd (ground (arith, h, e))
]

-- A text that neither begins with the mark nor is the beginning of it.
abbrev pub Differs : Chars → Chars → Type 0
Differs mark text = (strip_prefix mark text ≡ none) × (strip_prefix text mark ≡ none)

pub Differs-append : (mark text more : Chars) → Differs mark text → Differs mark (text ++ more)
unfolding strip_prefix
Differs-append [] text more h = absurd (ground (arith, h.0))
Differs-append (m ∷ ms) [] more h = absurd (ground (arith, h.1))
Differs-append (m ∷ ms) (t ∷ ts) more h = elim (Bool-cases (m == t)) [
  | inl e ↦
      let e' : (t == m) ≡ true = ground (arith, e) in
      let d : Differs ms ts = (ground (arith, h.0, e), ground (arith, h.1, e')) in
      let g = Differs-append ms ts more d in (rw e g.0, rw e' g.1)
  | inr e ↦ let e' : (t == m) ≡ false = ground (arith, e) in (rw e refl, rw e' refl)
]

length-strip_prefix :
    (mark text : Chars) {rest : Chars}
    → strip_prefix mark text ≡ some rest
    → length text ≡ length mark + length rest
unfolding strip_prefix
length-strip_prefix [] text h = ground (arith, h)
length-strip_prefix (m ∷ ms) [] h = cc h
length-strip_prefix (m ∷ ms) (t ∷ ts) {rest} h = elim (Bool-cases (m == t)) [
  | inl e ↦
      let g : strip_prefix ms ts ≡ some rest = ground (arith, h, e) in
      omega (arith, length-strip_prefix ms ts g)
  | inr e ↦ absurd (ground (arith, h, e))
]

-- The two ways in which a split can have come about.
pub split_once-cases :
    (mark : Chars) (c : ℕ) (cs : Chars) {before rest : Chars}
    → split_once mark (c ∷ cs) ≡ some (before, rest)
    → ((strip_prefix mark (c ∷ cs) ≡ some rest) × (before ≡ []))
      ⊎ ((strip_prefix mark (c ∷ cs) ≡ none)
          × (b : Chars) × (split_once mark cs ≡ some (b, rest))
          × (before ≡ c ∷ b))
unfolding split_once here_or one_later
split_once-cases mark c cs {before} {rest} h =
    by_both (strip_prefix mark (c ∷ cs)) (split_once mark cs) refl refl h
  where
    by_both :
        (here : Option Chars) (later : Option (Chars × Chars))
        → strip_prefix mark (c ∷ cs) ≡ here
        → split_once mark cs ≡ later
        → here_or here (one_later c later) ≡ some (before, rest)
        → ((strip_prefix mark (c ∷ cs) ≡ some rest) × (before ≡ []))
          ⊎ ((strip_prefix mark (c ∷ cs) ≡ none)
              × (b : Chars) × (split_once mark cs ≡ some (b, rest))
              × (before ≡ c ∷ b))
    by_both (some r) later p q e = inl (ground (arith, p, e), ground (arith, e))
    by_both none none p q e = cc e
    by_both none (some (b, r)) p q e = inr (p, b, ground (arith, q, e), ground (arith, e))

length-split_once :
    (m : ℕ) (ms text : Chars) {before rest : Chars}
    → split_once (m ∷ ms) text ≡ some (before, rest)
    → length (m ∷ ms) ≤ length text
unfolding split_once strip_prefix here_or
length-split_once m ms [] h = cc h
length-split_once m ms (c ∷ cs) {before} {rest} h = elim (split_once-cases (m ∷ ms) c cs h) [
  | inl (p, e) ↦ omega (arith, length-strip_prefix (m ∷ ms) (c ∷ cs) p)
  | inr (p, b, q, e) ↦ omega (arith, length-split_once m ms cs q)
]

-- The first mark in a text stays the first when the text goes on.
pub split_once-append :
    (m : ℕ) (ms text more : Chars) {before rest : Chars}
    → split_once (m ∷ ms) text ≡ some (before, rest)
    → split_once (m ∷ ms) (text ++ more) ≡ some (before, rest ++ more)
unfolding split_once here_or one_later
split_once-append m ms [] more h = unfold strip_prefix in cc h
split_once-append m ms (c ∷ cs) more {before} {rest} h = elim (split_once-cases (m ∷ ms) c cs h) [
  | inl (p, e) ↦ rw (strip_prefix-append (m ∷ ms) (c ∷ cs) more p, e) refl
  | inr (p, b, q, e) ↦
      let d = Differs-append (m ∷ ms) (c ∷ cs) more (p, longer b q) in
      rw (d.0, split_once-append m ms cs more q, e) refl
]
  where
    longer :
        (b : Chars)
        → split_once (m ∷ ms) cs ≡ some (b, rest)
        → strip_prefix (c ∷ cs) (m ∷ ms) ≡ none
    longer b q = elim (Option-cases (strip_prefix (c ∷ cs) (m ∷ ms))) [
      | inl e ↦ e
      | inr (r, e) ↦
          absurd
            (omega (arith, length-strip_prefix (c ∷ cs) (m ∷ ms) e, length-split_once m ms cs q))
    ]

pub trim_start-append :
    (text more : Chars) → trim_start (trim_start text ++ more) ≡ trim_start (text ++ more)
unfolding trim_start
trim_start-append [] more = refl
trim_start-append (c ∷ cs) more = elim (Bool-cases (is_whitespace c)) [
  | inl e ↦ rw e (trim_start-append cs more)
  | inr e ↦ rw (e, trim_start) (rw e refl)
]

pub trim_start-append_ne :
    (text more : Chars) → trim_start text ≢ [] → trim_start (text ++ more) ≡ trim_start text ++ more
unfolding trim_start
trim_start-append_ne [] more h = absurd (h refl)
trim_start-append_ne (c ∷ cs) more h = elim (Bool-cases (is_whitespace c)) [
  | inl e ↦
      let same_start : trim_start (c ∷ cs) ≡ trim_start cs = rw e refl in
      rw e (trim_start-append_ne cs more (λ n. h (same_start ∙ n)))
  | inr e ↦ rw e refl
]

-- What a prefix was taken off.
pub strip_prefix-eq :
    (mark text rest : Chars) → strip_prefix mark text ≡ some rest → text ≡ mark ++ rest
unfolding strip_prefix
strip_prefix-eq [] text rest h = ground (arith, h)
strip_prefix-eq (m ∷ ms) [] rest h = cc h
strip_prefix-eq (m ∷ ms) (t ∷ ts) rest h = elim (Bool-cases (m == t)) [
  | inl e ↦
      let g : strip_prefix ms ts ≡ some rest = ground (arith, h, e) in
      ground (arith, e, strip_prefix-eq ms ts rest g)
  | inr e ↦ absurd (ground (arith, h, e))
]

-- What is there is found.
pub strip_prefix-append_self : (mark rest : Chars) → strip_prefix mark (mark ++ rest) ≡ some rest
unfolding strip_prefix
strip_prefix-append_self [] rest = refl
strip_prefix-append_self (m ∷ ms) rest =
    let e : (m == m) ≡ true = ground arith in rw e (strip_prefix-append_self ms rest)
