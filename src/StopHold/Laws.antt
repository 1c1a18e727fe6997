-- ===== src/StopHold/Laws.antt =====
-- What a held-back stream sends (src/engine/llm_core.rs).
use studio_worker.Base.{
  ℕ, zero, suc, ◌-◌, ◌≤◌, Bool, true, false, ◌≡◌, refl, sym, ap, subst, ◌∙◌, List, [], ◌∷◌, ◌++◌,
  length, take, drop, any, All, ◌==◌, if◌then◌else◌, arith, inl, inr, Bool-cases, append_assoc,
  append-nil, take-append-drop,
}
use studio_worker.StopHold.{Text, begins, may_become, held_suffix}

-- A text and a stop differ at some place that both have.
abbrev pub mismatch : Text → Text → Bool
mismatch [] ts = false
mismatch (s ∷ ss) [] = false
mismatch (s ∷ ss) (t ∷ ts) = if t == s then mismatch ss ts else true

mismatch-append : (s t p : Text) → mismatch s t ≡ true → mismatch s (t ++ p) ≡ true
mismatch-append [] t p h = absurd (ground (arith, h))
mismatch-append (s ∷ ss) [] p h = absurd (ground (arith, h))
mismatch-append (s ∷ ss) (t ∷ ts) p h = ground (arith, h, mismatch-append ss ts p)

pub mismatch-begins : (s t : Text) → mismatch s t ≡ true → begins t s ≡ false
unfolding begins
mismatch-begins [] t h = absurd (ground (arith, h))
mismatch-begins (s ∷ ss) [] h = refl
mismatch-begins (s ∷ ss) (t ∷ ts) h = ground (arith, h, mismatch-begins ss ts)

pub begins-append : (t p s : Text) → begins t s ≡ true → begins (t ++ p) s ≡ true
unfolding begins
begins-append t p [] h = refl
begins-append [] p (s ∷ ss) h = absurd (ground (arith, h))
begins-append (t ∷ ts) p (s ∷ ss) h = ground (arith, h, begins-append ts p ss)

-- A text that neither has the stop at its front nor may become it differs from it.
differs : (s t : Text) → begins t s ≡ false → may_become t s ≡ false → mismatch s t ≡ true
unfolding begins may_become
differs [] t b m = absurd (ground (arith, b))
differs (s ∷ ss) [] b m = absurd (ground (arith, m))
differs (s ∷ ss) (t ∷ ts) b m = ground (arith, b, m, differs ss ts)

pub none_of : (p : Text → Bool) (xs : List Text) → any p xs ≡ false → All (λ x. p x ≡ false) xs
none_of p [] h = tt
none_of p (x ∷ xs) h = (ground (arith, h), none_of p xs (ground (arith, h)))

-- No stop stands anywhere in a text.
abbrev pub NoStop : List Text → Text → Type 0
NoStop stops [] = Unit
NoStop stops (t ∷ ts) = All (λ s. begins (t ∷ ts) s ≡ false) stops × NoStop stops ts

-- From every place in what is out, the text with what is held differs from every stop.
abbrev pub Clear : List Text → Text → Text → Type 0
Clear stops [] held = Unit
Clear stops (t ∷ ts) held =
    All (λ s. mismatch s (t ∷ (ts ++ held)) ≡ true) stops × Clear stops ts held

pub NoStop-drop :
    (stops : List Text) (k : ℕ) (ts : Text) → NoStop stops ts → NoStop stops (drop k ts)
NoStop-drop stops zero ts h = h
NoStop-drop stops (suc k) [] h = h
NoStop-drop stops (suc k) (t ∷ ts) h = NoStop-drop stops k ts h.1

pub held_suffix-le : (stops : List Text) (ts : Text) → held_suffix stops ts ≤ length ts
unfolding held_suffix
held_suffix-le stops [] = omega arith
held_suffix-le stops (t ∷ ts) = ground (arith, held_suffix-le stops ts)

differ-All :
    (stops : List Text) (t : Text)
    → All (λ s. begins t s ≡ false) stops
    → All (λ s. may_become t s ≡ false) stops
    → All (λ s. mismatch s t ≡ true) stops
differ-All [] t b m = tt
differ-All (s ∷ stops) t b m = (differs s t b.0 m.0, differ-All stops t b.1 m.1)

append-All :
    (stops : List Text) (t p q : Text)
    → t ++ p ≡ q
    → All (λ s. mismatch s t ≡ true) stops
    → All (λ s. mismatch s q ≡ true) stops
append-All [] t p q e h = tt
append-All (s ∷ stops) t p q e h =
    (subst (λ x. mismatch s x ≡ true) e (mismatch-append s t p h.0), append-All stops t p q e h.1)

-- What is not held is clear.
pub held_suffix-Clear :
    (stops : List Text) (ts : Text)
    → NoStop stops ts
    → let k = length ts - held_suffix stops ts in Clear stops (take k ts) (drop k ts)
unfolding held_suffix
held_suffix-Clear stops [] h = tt
held_suffix-Clear stops (t ∷ ts) h = elim (Bool-cases (any (may_become (t ∷ ts)) stops)) [
  | inl e ↦
      let z : length (t ∷ ts) - held_suffix stops (t ∷ ts) ≡ 0 = rw e (omega arith) in
      subst (λ k. Clear stops (take k (t ∷ ts)) (drop k (t ∷ ts))) (sym z) tt
  | inr e ↦
      let k = length ts - held_suffix stops ts in
      let z : length (t ∷ ts) - held_suffix stops (t ∷ ts) ≡ suc k =
        rw e (omega (arith, held_suffix-le stops ts)) in
      let d = differ-All stops (t ∷ ts) h.0 (none_of (may_become (t ∷ ts)) stops e) in
      let c : Clear stops (take (suc k) (t ∷ ts)) (drop (suc k) (t ∷ ts)) = (
        append-All stops (t ∷ ts) [] (t ∷ (take k ts ++ drop k ts))
            (append-nil (t ∷ ts) ∙ ap {B = Text} (λ x. t ∷ x) (sym (take-append-drop k ts))) d,
        held_suffix-Clear stops ts h.1,
      ) in
      subst (λ k. Clear stops (take k (t ∷ ts)) (drop k (t ∷ ts))) (sym z) c
]

-- What is clear stays clear when more is held.
pub Clear-append :
    (stops : List Text) (out held more : Text)
    → Clear stops out held
    → Clear stops out (held ++ more)
Clear-append stops [] held more h = tt
Clear-append stops (t ∷ ts) held more h = (
  append-All stops (t ∷ (ts ++ held)) more (t ∷ (ts ++ (held ++ more)))
      (ap {B = Text} (λ x. t ∷ x) (append_assoc ts held more)) h.0,
  Clear-append stops ts held more h.1,
)

pub Clear-join :
    (stops : List Text) (out next held : Text)
    → Clear stops out (next ++ held)
    → Clear stops next held
    → Clear stops (out ++ next) held
Clear-join stops [] next held h n = n
Clear-join stops (t ∷ ts) next held h n = (
  append-All stops (t ∷ (ts ++ (next ++ held))) [] (t ∷ ((ts ++ next) ++ held))
      (append-nil (t ∷ (ts ++ (next ++ held)))
        ∙ ap {B = Text} (λ x. t ∷ x) (sym (append_assoc ts next held)))
      h.0,
  Clear-join stops ts next held h.1 n,
)

mismatch-All :
    (stops : List Text) (t : Text)
    → All (λ s. mismatch s t ≡ true) stops
    → All (λ s. begins t s ≡ false) stops
mismatch-All [] t h = tt
mismatch-All (s ∷ stops) t h = (mismatch-begins s t h.0, mismatch-All stops t h.1)

pub Clear-NoStop :
    (stops : List Text) (out held : Text)
    → Clear stops out held
    → NoStop stops held
    → NoStop stops (out ++ held)
Clear-NoStop stops [] held c n = n
Clear-NoStop stops (t ∷ ts) held c n =
    (mismatch-All stops (t ∷ (ts ++ held)) c.0, Clear-NoStop stops ts held c.1 n)
