-- ===== src/Stt/Splits.antt =====
-- The streams of src/stt_stream do not depend on how a client splits them into frames.
use studio_worker.Base.{
  ℕ, zero, suc, ◌+◌, ◌-◌, ◌*◌, ◌/◌, ◌%◌, ◌≤◌, ◌≡◌, Bool, refl, sym, ap, ◌∙◌, Option, none, some,
  List, [], ◌∷◌, ◌++◌, length, take, drop, arith, append_assoc, length-append, length-drop,
  take-append, drop-append, if◌then◌else◌, ◌==◌,
}
use studio_worker.Stt.Vad.{Signal, Vad, window, has_ended, hear, judge, feed}
use studio_worker.Stt.Decoding.{pop, of_option, samples_of, decode}

module _ {A : Type 0} (m : Signal A) where
  hear-carry :
      (xs c d : List A) (v : Vad A)
      → record (hear m xs (record v { carry = c })) { carry = d }
        ≡ record (hear m xs v) { carry = d }
  unfolding hear
  hear-carry xs c d v = ground arith

  judge_append :
      (n : ℕ) (v : Vad A) (ys : List A)
      → n * window ≤ length v.carry
      → judge m n (record v { carry = v.carry ++ ys })
        ≡ record (judge m n v) { carry = (judge m n v).carry ++ ys }
  unfolding judge
  judge_append zero v ys h = refl
  judge_append (suc n) v ys h =
      rw
        (
          take-append window v.carry ys (omega (arith, h)),
          drop-append window v.carry ys (omega (arith, h)),
          hear-carry (take window v.carry) (v.carry ++ ys) (drop window v.carry ++ ys) v,
        )
        (judge_append n (record (hear m (take window v.carry) v) { carry = drop window v.carry }) ys
          (omega (arith, h, length-drop window v.carry)))

  judge_add : (n k t : ℕ) (v : Vad A) → t ≡ n + k → judge m t v ≡ judge m k (judge m n v)
  unfolding judge
  judge_add zero k t v h = let q : t ≡ k = omega (arith, h) in ap (λ i. judge m i v) q
  judge_add (suc n) k zero v h = ground (arith, h)
  judge_add (suc n) k (suc t) v h =
      judge_add n k t (record (hear m (take window v.carry) v) { carry = drop window v.carry })
        (omega (arith, h))

  length-judge : (n : ℕ) (v : Vad A) → length (judge m n v).carry ≡ length v.carry - n * window
  unfolding judge
  length-judge zero v = omega arith
  length-judge (suc n) v = omega (
    arith,
    length-drop window v.carry,
    length-judge n (record (hear m (take window v.carry) v) { carry = drop window v.carry }),
  )

  -- The two-byte samples of a stream and the byte that is left.
  halves : List ℕ → List A × Option ℕ
  halves [] = ([], none)
  halves (b ∷ []) = ([], some b)
  halves (b ∷ c ∷ bs) = (m.of_i16 b c ∷ (halves bs).0, (halves bs).1)

  whole_or_odd :
      (bs : List ℕ)
      → (if length bs % 2 == 1
          then (samples_of m (pop bs).0, (pop bs).1)
          else (samples_of m bs, none))
        ≡ halves bs
  unfolding halves pop samples_of
  whole_or_odd [] = refl
  whole_or_odd (b ∷ []) = refl
  whole_or_odd (b ∷ c ∷ []) = refl
  whole_or_odd (b ∷ c ∷ d ∷ bs) = ground (arith, whole_or_odd (d ∷ bs))

  decode-halves : (o : Option ℕ) (bs : List ℕ) → decode m o bs ≡ halves (of_option o ++ bs)
  unfolding decode
  decode-halves o bs = whole_or_odd (of_option o ++ bs)

  halves_append :
      (xs ys : List ℕ)
      → halves (xs ++ ys) ≡ (
        (halves xs).0 ++ (halves (of_option (halves xs).1 ++ ys)).0,
        (halves (of_option (halves xs).1 ++ ys)).1,
      )
  unfolding halves of_option
  halves_append [] ys = refl
  halves_append (b ∷ []) ys = refl
  halves_append (b ∷ c ∷ bs) ys = ap (λ r. (m.of_i16 b c ∷ r.0, r.1)) (halves_append bs ys)

  -- Bytes decode to the same samples, with the same odd byte left, in one frame and in two.
  decode_append :
      (o : Option ℕ) (a b : List ℕ)
      → decode m o (a ++ b)
        ≡ ((decode m o a).0 ++ (decode m (decode m o a).1 b).0, (decode m (decode m o a).1 b).1)
  decode_append o a b =
      rw
        (
          decode-halves o (a ++ b),
          decode-halves o a,
          decode-halves (halves (of_option o ++ a)).1 b,
          sym (append_assoc (of_option o) a b),
        )
        (halves_append (of_option o ++ a) b)

  judge_whole : Vad A → Vad A
  judge_whole v = judge m (length v.carry / window) v

  judge-split :
      (b : List A) (v : Vad A)
      → judge_whole (record v { carry = v.carry ++ b })
        ≡ judge_whole (record (judge_whole v) { carry = (judge_whole v).carry ++ b })
  unfolding judge_whole
  judge-split b v =
      let n = length v.carry / window in
      let rest = (judge m n v).carry in
      judge_add n (length (rest ++ b) / window) (length (v.carry ++ b) / window)
        (record v { carry = v.carry ++ b })
        (omega (arith, length-append v.carry b, length-append rest b, length-judge n v))
      ∙ ap (judge m (length (rest ++ b) / window)) (judge_append n v b (omega arith))

  feed_append : (a b : List A) (v : Vad A) → feed m b (feed m a v).0 ≡ feed m (a ++ b) v
  unfolding feed judge_whole
  feed_append a b v =
      ap (λ w. (w, has_ended w))
        (sym (judge-split b (record v { carry = v.carry ++ a }))
          ∙ ap (λ xs. judge_whole (record v { carry = xs })) (append_assoc v.carry a b))

  -- Frames fed one after the other: the detector after them, and the verdict of each.
  abbrev pub feed_frames : List (List A) → Vad A → Vad A × List Bool
  feed_frames [] v = (v, [])
  feed_frames (f ∷ fs) v =
      let (after, ended) = feed m f v in
      let (last, verdicts) = feed_frames fs after in (last, ended ∷ verdicts)

  -- The same with each frame and all samples before it, those of `before` included, fed at once.
  abbrev pub feed_at_once : List A → List (List A) → Vad A → Vad A × List Bool
  feed_at_once before [] v = ((feed m before v).0, [])
  feed_at_once before (f ∷ fs) v =
      let (last, verdicts) = feed_at_once (before ++ f) fs v in
      (last, (feed m (before ++ f) v).1 ∷ verdicts)

  -- However samples are split into frames, the verdict at the end of every frame, and the detector
  -- after the last, are those that all samples up to there give when they are fed at once.
  pub feed_frames_lem :
      (before : List A) (frames : List (List A)) (v : Vad A)
      → feed_frames frames (feed m before v).0 ≡ feed_at_once before frames v
  feed_frames_lem before [] v = refl
  feed_frames_lem before (f ∷ fs) v =
      let e = feed_append before f v in
      let rest = feed_frames_lem (before ++ f) fs v in
      rw e (ap (λ (r : Vad A × List Bool). (r.0, (feed m (before ++ f) v).1 ∷ r.1)) rest)
