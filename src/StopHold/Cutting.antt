-- ===== src/StopHold/Cutting.antt =====
-- Where a stop begins, and what is then let out (src/engine/llm_core.rs).
use studio_worker.Base.{
  ℕ, zero, suc, ◌+◌, ◌-◌, ◌≤◌, max, true, false, ◌≡◌, refl, sym, ap, subst, ◌∙◌, Option, none, some,
  List, [], ◌∷◌, ◌++◌, length, take, drop, any, All, arith, inl, inr, Bool-cases, Option-cases,
  append_assoc, length-append, length-take, take-append-drop,
}
use studio_worker.StopHold.{Text, begins, StopHold, shifted, first_stop, let_out}
use studio_worker.StopHold.Laws.{mismatch, mismatch-begins, begins-append, none_of, NoStop, Clear}

shorter : (t p q s : Text) → t ++ p ≡ q → begins q s ≡ false → begins t s ≡ false
shorter t p q s e h = elim (Bool-cases (begins t s)) [
  | inl b ↦ absurd (ground (arith, h, subst (λ x. begins x s ≡ true) e (begins-append t p s b)))
  | inr b ↦ b
]

shorter-All :
    (stops : List Text) (t p q : Text)
    → t ++ p ≡ q
    → All (λ s. begins q s ≡ false) stops
    → All (λ s. begins t s ≡ false) stops
shorter-All [] t p q e h = tt
shorter-All (s ∷ stops) t p q e h = (shorter t p q s e h.0, shorter-All stops t p q e h.1)

mismatch_none :
    (stops : List Text) (t p q : Text)
    → t ++ p ≡ q
    → All (λ s. mismatch s q ≡ true) stops
    → All (λ s. begins t s ≡ false) stops
mismatch_none [] t p q e h = tt
mismatch_none (s ∷ stops) t p q e h =
    (shorter t p q s e (mismatch-begins s q h.0), mismatch_none stops t p q e h.1)

pub first_stop-none : (stops : List Text) (ts : Text) → first_stop stops ts ≡ none → NoStop stops ts
unfolding first_stop shifted
first_stop-none stops [] h = tt
first_stop-none stops (t ∷ ts) h = elim (Bool-cases (any (begins (t ∷ ts)) stops)) [
  | inl e ↦ absurd (ground (arith, e, h))
  | inr e ↦ (
    none_of (begins (t ∷ ts)) stops e,
    first_stop-none stops ts (elim (Option-cases (first_stop stops ts)) [
      | inl n ↦ n
      | inr (i, q) ↦ absurd (ground (arith, e, h, q))
    ]),
  )
]

pub first_stop-some :
    (stops : List Text) (ts : Text) (i : ℕ)
    → first_stop stops ts ≡ some i
    → (i ≤ length ts) × NoStop stops (take i ts) × (any (begins (drop i ts)) stops ≡ true)
unfolding first_stop shifted
first_stop-some stops [] i h = absurd (ground (arith, h))
first_stop-some stops (t ∷ ts) zero h = elim (Bool-cases (any (begins (t ∷ ts)) stops)) [
  | inl e ↦ (omega arith, tt, e)
  | inr e ↦ elim (Option-cases (first_stop stops ts)) [
    | inl n ↦ absurd (ground (arith, e, h, n))
    | inr (j, n) ↦ absurd (ground (arith, e, h, n))
  ]
]
first_stop-some stops (t ∷ ts) (suc i) h = elim (Bool-cases (any (begins (t ∷ ts)) stops)) [
  | inl e ↦ absurd (ground (arith, e, h))
  | inr e ↦
      let q : first_stop stops ts ≡ some i = elim (Option-cases (first_stop stops ts)) [
        | inl n ↦ absurd (ground (arith, e, h, n))
        | inr (j, n) ↦ n ∙ ap some (ground (arith, e, h, n))
      ] in
      let r = first_stop-some stops ts i q in
      (
        omega (arith, r.0),
        (
          shorter-All stops (t ∷ take i ts) (drop i ts) (t ∷ ts)
              (ap {B = Text} (λ x. t ∷ x) (take-append-drop i ts))
              (none_of (begins (t ∷ ts)) stops e),
          r.1,
        ),
        r.2,
      )
]

pub any_append :
    (stops : List Text) (t p : Text)
    → any (begins t) stops ≡ true
    → any (begins (t ++ p)) stops ≡ true
any_append [] t p h = h
any_append (s ∷ stops) t p h = ground (arith, h, begins-append t p s, any_append stops t p)

-- A cut in what is held leaves no stop.
pub Clear-cut :
    (stops : List Text) (out held : Text) (i : ℕ)
    → Clear stops out held
    → NoStop stops (take i held)
    → NoStop stops (out ++ take i held)
Clear-cut stops [] held i c n = n
Clear-cut stops (t ∷ ts) held i c n = (
  mismatch_none stops (t ∷ (ts ++ take i held)) (drop i held) (t ∷ (ts ++ held))
      (ap {B = Text} (λ x. t ∷ x)
        (append_assoc ts (take i held) (drop i held) ∙ ap (λ x. ts ++ x) (take-append-drop i held)))
      c.0,
  Clear-cut stops ts held i c.1 n,
)

abbrev pub holding : List Text → Text → Text → Option ℕ → StopHold
holding stops sent held stopped = record {
  stops = stops;
  out = sent ++ held;
  emitted = length sent;
  stopped = stopped;
}

pub drop-length : (xs ys : Text) → drop (length xs) (xs ++ ys) ≡ ys
drop-length [] ys = refl
drop-length (x ∷ xs) ys = drop-length xs ys

pub take-length : (xs ys : Text) (i : ℕ) → take (i + length xs) (xs ++ ys) ≡ xs ++ take i ys
take-length [] ys i = ap (λ k. take k ys) (omega arith)
take-length (x ∷ xs) ys i =
    ap (λ k. take k (x ∷ (xs ++ ys))) {x = i + suc (length xs)} {y = suc (i + length xs)}
      (omega arith)
    ∙ ap {B = Text} (λ r. x ∷ r) (take-length xs ys i)

abbrev let_out_to : List Text → Text → Text → ℕ → Option ℕ → Text × StopHold
let_out_to stops text out end stopped =
    (text, record { stops = stops; out = out; emitted = end; stopped = stopped })

pub let_out-holding :
    (stops : List Text) (sent held : Text) (stopped : Option ℕ) (k upto : ℕ)
    → k ≤ length held
    → upto ≡ k + length sent
    → let_out upto (holding stops sent held stopped)
      ≡ (take k held, holding stops (sent ++ take k held) (drop k held) stopped)
unfolding let_out
let_out-holding stops sent held stopped k upto h e =
    let n : max upto (length sent) - length sent ≡ k = omega (arith, e) in
    let a : take (max upto (length sent) - length sent) (drop (length sent) (sent ++ held))
        ≡ take k held =
      ap (λ i. take i (drop (length sent) (sent ++ held))) n
      ∙ ap (take k) (drop-length sent held) in
    let b : sent ++ held ≡ (sent ++ take k held) ++ drop k held = sym (
      append_assoc sent (take k held) (drop k held)
      ∙ ap (λ x. sent ++ x) (take-append-drop k held)) in
    let c : max upto (length sent) ≡ length (sent ++ take k held) =
      omega (arith, e, h, length-append sent (take k held), length-take k held) in
    ap (λ x. let_out_to stops x (sent ++ held) (max upto (length sent)) stopped) a
    ∙ ap (λ x. let_out_to stops (take k held) x (max upto (length sent)) stopped) b
    ∙ ap (λ x. let_out_to stops (take k held) ((sent ++ take k held) ++ drop k held) x stopped) c

take_all : (i : ℕ) (xs : Text) → length xs ≤ i → take i xs ≡ xs
take_all zero [] h = refl
take_all (suc i) [] h = refl
take_all zero (x ∷ xs) h = absurd (omega (arith, h))
take_all (suc i) (x ∷ xs) h = ap {B = Text} (λ r. x ∷ r) (take_all i xs (omega (arith, h)))

drop_all : (i : ℕ) (xs : Text) → length xs ≤ i → drop i xs ≡ []
drop_all zero [] h = refl
drop_all (suc i) [] h = refl
drop_all zero (x ∷ xs) h = absurd (omega (arith, h))
drop_all (suc i) (x ∷ xs) h = drop_all i xs (omega (arith, h))

-- All that is held is let out.
pub let_out-all :
    (stops : List Text) (sent held : Text) (stopped : Option ℕ) (upto : ℕ)
    → upto ≡ length held + length sent
    → let_out upto (holding stops sent held stopped)
      ≡ (held, holding stops (sent ++ held) [] stopped)
let_out-all stops sent held stopped upto e =
    let k = length held in
    let t = take_all k held (omega arith) in
    let d = drop_all k held (omega arith) in
    let_out-holding stops sent held stopped k upto (omega arith) e
    ∙ ap {B = Text × StopHold} (λ x. (x, holding stops (sent ++ x) (drop k held) stopped)) t
    ∙ ap {B = Text × StopHold} (λ x. (held, holding stops (sent ++ held) x stopped)) d
