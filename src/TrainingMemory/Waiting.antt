-- ===== src/TrainingMemory/Waiting.antt =====
-- At which look a wait for memory of a training stage ends, and how (src/wake_word/memory.rs).
use studio_worker.Base.{
  ℕ, suc, ◌+◌, ◌*◌, ◌^◌, ◌≤◌, ◌<◌, ◌≡◌, refl, sym, ap, subst, Bool, true, false, Option, none, some,
  List, [], ◌∷◌, ◌++◌, All, leb, arith, length, if_both,
}
use studio_worker.TrainingMemory.{
  Snapshot, Verdict, admit, wait, Why, verdict, Look, Waited, admitted, judge, round, wait_for,
  unknown, cancelled, timed_out,
}
use studio_worker.TrainingMemory.Laws.{HasRoom, verdict-admit_iff}

-- Its sums stay below 2^64.
abbrev pub IsSmall : (ℕ → ℕ) → ℕ → Option Snapshot → Type 0
IsSmall share need_bytes none = Unit
IsSmall share need_bytes (some s) = need_bytes + share s.total + 2 * 2 ^ 30 < 2 ^ 64

-- A reading with room for the need, in the machine and in the scope.
abbrev pub Fits : (ℕ → ℕ) → ℕ → Option Snapshot → Type 0
Fits share need_bytes none = ⊥
Fits share need_bytes (some s) =
    (need_bytes + share s.total + 2 * 2 ^ 30 ≤ s.available) × HasRoom s.scope_headroom need_bytes

-- A look that reads too little room.
abbrev pub Lacks : (ℕ → ℕ) → ℕ → Option Snapshot → Type 0
Lacks share need_bytes none = ⊥
Lacks share need_bytes (some s) = ¬ Fits share need_bytes (some s)

-- What a look that ends the wait in this way has seen.
abbrev pub Ends : (ℕ → ℕ) → ℕ → ℕ → Look → Waited → Type 0
Ends share need_bytes timeout l (admitted waited) =
    (l.elapsed ≡ waited) × (l.is_cancelled ≡ false) × Fits share need_bytes l.probed
Ends share need_bytes timeout l unknown = (l.is_cancelled ≡ false) × (l.probed ≡ none)
Ends share need_bytes timeout l cancelled = l.is_cancelled ≡ true
Ends share need_bytes timeout l (timed_out why) =
    (l.is_cancelled ≡ false) × Lacks share need_bytes l.probed × (timeout ≤ l.elapsed)

-- A look after which the wait goes on.
abbrev pub GoesOn : (ℕ → ℕ) → ℕ → ℕ → Look → Type 0
GoesOn share need_bytes timeout l =
    (l.is_cancelled ≡ false) × Lacks share need_bytes l.probed × (l.elapsed < timeout)

-- The look at which the wait ended, and those before it.
abbrev pub EndedAt : (ℕ → ℕ) → ℕ → ℕ → List Look → Waited → List Why → Type 0
EndedAt share need_bytes timeout looks end told =
    (before : List Look) × (l : Look) × (later : List Look) × (looks ≡ before ++ l ∷ later)
    × Ends share need_bytes timeout l end
    × All (GoesOn share need_bytes timeout) before
    × (length told ≡ length before)

module _ (share : ℕ → ℕ) (need_bytes timeout : ℕ) (end : Waited) where
  ended_now :
      (l : Look) (ls : List Look) (how : Waited) (r : List Why × Option Waited)
      → Ends share need_bytes timeout l how
      → r ≡ ([], some how)
      → r.1 ≡ some end
      → EndedAt share need_bytes timeout (l ∷ ls) end r.0
  ended_now l ls how r h q e =
      let same_end : how ≡ end = cc (q, e) in
      (
        [],
        l,
        ls,
        refl,
        subst (Ends share need_bytes timeout l) same_end h,
        tt,
        ap (λ x. length x.0) q,
      )

  EndedAt-cons :
      (l : Look) (ls : List Look) (told : List Why) (why : Why)
      → GoesOn share need_bytes timeout l
      → EndedAt share need_bytes timeout ls end told
      → EndedAt share need_bytes timeout (l ∷ ls) end (why ∷ told)
  EndedAt-cons l ls told why on (before, at, later, e, h, all, n) =
      (l ∷ before, at, later, ap {B = List Look} (λ r. l ∷ r) e, h, (on, all), ap suc n)

  judge-EndedAt :
      (l : Look) (ls : List Look) (s : Snapshot) (v : Verdict) (rest : List Why × Option Waited)
      → l.is_cancelled ≡ false
      → l.probed ≡ some s
      → IsSmall share need_bytes (some s)
      → verdict share need_bytes s ≡ v
      → (rest.1 ≡ some end → EndedAt share need_bytes timeout ls end rest.0)
      → (judge v timeout l.elapsed rest).1 ≡ some end
      → EndedAt share need_bytes timeout (l ∷ ls) end (judge v timeout l.elapsed rest).0
  unfolding judge
  judge-EndedAt l ls s admit rest c p small v again e =
      let fits =
        subst (Fits share need_bytes) (sym p) ((verdict-admit_iff share need_bytes s small).0 v) in
      ended_now l ls (admitted l.elapsed) _ (refl, c, fits) refl e
  judge-EndedAt l ls s (wait why) rest c p small v again e' =
      let lacks : ¬ Fits share need_bytes (some s) =
        λ f. ground (arith, v, (verdict-admit_iff share need_bytes s small).1 f) in
      let short = subst (Lacks share need_bytes) (sym p) lacks in
      if_both
        (λ (q : List Why × Option Waited).
          q.1 ≡ some end → EndedAt share need_bytes timeout (l ∷ ls) end q.0)
        (leb timeout l.elapsed) _ _
        (λ le e. ended_now l ls (timed_out why) _ (c, short, ground (arith, le)) refl e)
        (λ lt e. EndedAt-cons l ls rest.0 why (c, short, ground (arith, lt)) (again e)) e'

  round-EndedAt :
      (l : Look) (ls : List Look) (c : Bool) (o : Option Snapshot) (rest : List Why × Option Waited)
      → l.is_cancelled ≡ c
      → l.probed ≡ o
      → IsSmall share need_bytes o
      → (rest.1 ≡ some end → EndedAt share need_bytes timeout ls end rest.0)
      → (round share need_bytes timeout c o l.elapsed rest).1 ≡ some end
      → EndedAt share need_bytes timeout
          (l ∷ ls)
          end
          (round share need_bytes timeout c o l.elapsed rest).0
  unfolding round
  round-EndedAt l ls true o rest c p small again e = ended_now l ls cancelled _ c refl e
  round-EndedAt l ls false none rest c p small again e = ended_now l ls unknown _ (c, p) refl e
  round-EndedAt l ls false (some s) rest c p small again e =
      judge-EndedAt l ls s (verdict share need_bytes s) rest c p small refl again e

-- A wait that ends, ends at its first look that was cancelled, or could not read the memory
-- (unknown), or read room for the stage (admitted, after that look's time), or read too little at or
-- after the timeout (timed out); each look before was told of. A look reads room if the need, the
-- share of the machine that stays free and 2 GiB were available together, and the worker's scope,
-- where it has a limit, had room for the need. (For amounts that add up to less than 2^64 bytes.)
pub wait_for-EndedAt :
    (share : ℕ → ℕ) (need_bytes timeout : ℕ) (end : Waited) (looks : List Look)
    → All (λ l. IsSmall share need_bytes l.probed) looks
    → (wait_for share need_bytes timeout looks).1 ≡ some end
    → EndedAt share need_bytes timeout looks end (wait_for share need_bytes timeout looks).0
unfolding wait_for
wait_for-EndedAt share need_bytes timeout end [] small e = cc e
wait_for-EndedAt share need_bytes timeout end (l ∷ ls) (s, small) e =
    round-EndedAt share need_bytes timeout end l ls l.is_cancelled l.probed
      (wait_for share need_bytes timeout ls) refl refl s
      (wait_for-EndedAt share need_bytes timeout end ls small) e
