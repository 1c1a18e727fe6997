-- ===== src/Stt/Replies.antt =====
-- What one streaming session (src/stt_stream/session.rs) answers, and what it feeds the model.
use studio_worker.Base.{
  ℕ, zero, suc, ◌+◌, ◌-◌, ◌*◌, ◌/◌, ◌≤◌, ◌<◌, String, Bool, true, false, ◌≡◌, refl, ap, sym, ◌∙◌,
  none, List, [], ◌∷◌, ◌++◌, length, take, drop, replicate, leb, arith, All, ◌⊎◌, inl, inr,
  Bool-cases, Option-cases, leb→le, length-append, length-drop, length-replicate, push_str,
}
use native.Mathlib.Nat.{suc-mul, lt-div-mul-add}
use studio_worker.Stt.Vad.{Signal, sample_rate, feed}
use studio_worker.Stt.Decoding.{decode}
use studio_worker.Stt.Session.{
  flush_silence_ms, Transcriber, ClientFrame, audio, end, cancel, ServerFrame, partial, final,
  error, continue, close, StreamSession, Drained, failure, unless_failed, noted, rounds, drain,
  last_frame, finish, heard, handle, chunk_of,
}

abbrev pub IsPartial : ServerFrame → Type 0
IsPartial (partial _) = Unit
IsPartial (final _) = ⊥
IsPartial (error _) = ⊥

-- Partial transcripts and then one last frame, which is no partial.
abbrev pub Closes : List ServerFrame → Type 0
Closes out =
    (before : List ServerFrame) × (x : ServerFrame) × (out ≡ before ++ x ∷ [])
    × All IsPartial before
    × ¬ IsPartial x

is_last : (err : String) → ¬ IsPartial (failure err)
unfolding failure
is_last err h = h

All-append :
    (xs : List ServerFrame) (x : ServerFrame)
    → All IsPartial xs
    → IsPartial x
    → All IsPartial (xs ++ x ∷ [])
All-append [] x h p = (p, tt)
All-append (y ∷ ys) x h p = (h.0, All-append ys x h.1 p)

module _ {T A : Type 0} (t : Transcriber T A) (normalise : String → String) where
  noted-All :
      (p : Bool) (s : StreamSession T A) (out : List ServerFrame)
      → All IsPartial out
      → All IsPartial (noted normalise p s out).1
  unfolding noted
  noted-All p s out h = ground (arith, All-append out (partial (normalise s.raw)) h tt)

  rounds-All :
      (fuel chunk : ℕ) (p : Bool) (s : StreamSession T A) (out : List ServerFrame)
      → All IsPartial out
      → All IsPartial (rounds t normalise fuel chunk p s out).out
  unfolding rounds unless_failed
  rounds-All zero chunk p s out h = h
  rounds-All (suc fuel) chunk p s out h =
      let answer = t.step s.transcriber (take chunk s.pending) in
      let fed = record s {
        transcriber = answer.0;
        pending = drop chunk s.pending;
        raw = push_str s.raw answer.1;
      } in
      let told = noted normalise p fed out in
      ground (arith, rounds-All fuel chunk p told.0 told.1 (noted-All p fed out h))

  noted-pending :
      (p : Bool) (s : StreamSession T A) (out : List ServerFrame)
      → (noted normalise p s out).0.pending ≡ s.pending
  unfolding noted
  noted-pending p s out = ground arith

  -- With enough fuel the loop ends, unless a step fails, only when less than a chunk is pending, and
  -- it takes whole chunks.
  rounds-length :
      (fuel chunk : ℕ) (p : Bool) (s : StreamSession T A) (out : List ServerFrame)
      → length s.pending ≤ fuel
      → 1 ≤ chunk
      → (rounds t normalise fuel chunk p s out).error ≡ none
      → ((j : ℕ) × (length s.pending
            ≡ j * chunk + length (rounds t normalise fuel chunk p s out).session.pending))
        × (length (rounds t normalise fuel chunk p s out).session.pending < chunk)
  unfolding rounds unless_failed
  rounds-length zero chunk p s out f c e = ((0, omega arith), omega (arith, f, c))
  rounds-length (suc fuel) chunk p s out f c e =
      let answer = t.step s.transcriber (take chunk s.pending) in
      let fed = record s {
        transcriber = answer.0;
        pending = drop chunk s.pending;
        raw = push_str s.raw answer.1;
      } in
      let told = noted normalise p fed out in
      let left = length-drop chunk s.pending in
      let same_pending = ap length (noted-pending p fed out) in
      elim (Bool-cases (leb chunk (length s.pending))) [
        | inr q ↦ rw q ((0, omega arith), ground (arith, q))
        | inl q ↦ elim (Option-cases answer.2) [
          | inl n ↦
              let r =
                rounds-length fuel chunk p told.0 told.1 (omega (arith, f, c, left, same_pending)) c
                  (ground (arith, e, q, n)) in
              rw (q, n)
                (
                  (
                    suc r.0.0,
                    omega (
                      arith,
                      leb→le chunk (length s.pending) q,
                      left,
                      same_pending,
                      r.0.1,
                      suc-mul r.0.0 chunk,
                    ),
                  ),
                  r.1,
                )
          | inr (err, n) ↦ ground (arith, e, q, n)
        ]
      ]

  noted_quiet :
      (s : StreamSession T A) (out : List ServerFrame) → noted normalise false s out ≡ (s, out)
  unfolding noted
  noted_quiet s out = refl

  rounds_quiet :
      (fuel chunk : ℕ) (s : StreamSession T A) (out : List ServerFrame)
      → (rounds t normalise fuel chunk false s out).out ≡ out
  unfolding rounds unless_failed noted
  rounds_quiet zero chunk s out = refl
  rounds_quiet (suc fuel) chunk s out =
      let answer = t.step s.transcriber (take chunk s.pending) in
      let fed = record s {
        transcriber = answer.0;
        pending = drop chunk s.pending;
        raw = push_str s.raw answer.1;
      } in
      ground (arith, rounds_quiet fuel chunk fed out)

  -- Less than a chunk of whole chunks is nothing.
  none_left : (k j c l : ℕ) → k * c ≡ j * c + l → l < c → l ≡ 0
  none_left zero zero c l e h = omega (arith, e)
  none_left zero (suc j) c l e h = omega (arith, e, h, suc-mul j c)
  none_left (suc k) zero c l e h = omega (arith, e, h, suc-mul k c)
  none_left (suc k) (suc j) c l e h =
      none_left k j c l (omega (arith, e, suc-mul k c, suc-mul j c)) h

  length-zero : (xs : List A) → length xs ≡ 0 → xs ≡ []
  length-zero [] h = refl
  length-zero (x ∷ xs) h = ground (arith, h)

  padded : A → StreamSession T A → List A
  padded silent s =
      let chunk = chunk_of t s in
      let flush = sample_rate * flush_silence_ms / 1000 in
      let target = (length s.pending + flush + (chunk - 1)) / chunk * chunk in
      s.pending ++ replicate (target - length s.pending) silent

  -- What the end of an utterance drains is a whole number of chunks.
  length-padded :
      (silent : A) (s : StreamSession T A) → (k : ℕ) × (length (padded silent s) ≡ k * chunk_of t s)
  unfolding padded chunk_of
  length-padded silent s =
      let chunk = chunk_of t s in
      let flush = sample_rate * flush_silence_ms / 1000 in
      let k = (length s.pending + flush + (chunk - 1)) / chunk in
      (
        k,
        omega (
          arith,
          length-append s.pending (replicate (k * chunk - length s.pending) silent),
          length-replicate (k * chunk - length s.pending) silent,
          lt-div-mul-add {a = length s.pending + flush + (chunk - 1)} {b = chunk} (omega arith),
        ),
      )

  drained_out :
      (d : Drained T A) (out : List ServerFrame)
      → d.out ≡ out
      → (d.error ≡ none → d.session.pending ≡ [])
      → ((d.out ++ last_frame t normalise d.error d.session ∷ []
            ≡ out ++ final (normalise d.session.raw) ∷ [])
          × (d.session.pending ≡ []))
        ⊎ ((err : String) × (d.out ++ last_frame t normalise d.error d.session ∷ []
              ≡ out ++ failure err ∷ []))
  unfolding last_frame
  drained_out d out q h = elim (Option-cases d.error) [
    | inl e ↦ inl (rw (q, e) refl, h e)
    | inr (err, e) ↦ inr (err, rw (q, e) refl)
  ]

  chunk-positive : (s : StreamSession T A) → 1 ≤ chunk_of t s
  unfolding chunk_of
  chunk-positive s = omega arith

  -- The end of an utterance closes the session with one more frame: the final transcript, and then
  -- every sample has been fed to the model, or the error of a step that failed.
  finish_lem :
      (m : Signal A) (s : StreamSession T A) (out : List ServerFrame)
      → let r = finish t normalise m s out in
        (r.2 ≡ close)
        × (((r.1 ≡ out ++ final (normalise r.0.raw) ∷ []) × (r.0.pending ≡ []))
            ⊎ ((err : String) × (r.1 ≡ out ++ failure err ∷ [])))
  unfolding finish drain padded
  finish_lem m s out =
      let whole = record s { pending = padded m.silent s } in
      let fuel = length whole.pending in
      let k = length-padded m.silent s in
      (
        refl,
        drained_out (rounds t normalise fuel (chunk_of t s) false whole out) out
            (rounds_quiet fuel (chunk_of t s) whole out)
            (λ e.
              let r =
                rounds-length fuel (chunk_of t s) false whole out (omega arith) (chunk-positive s)
                  e in
              length-zero _ (none_left k.0 r.0.0 (chunk_of t s) _ (sym k.1 ∙ r.0.1) r.1)),
      )

  -- Partial transcripts, then one last frame.
  finish-Closes :
      (m : Signal A) (s : StreamSession T A) (out : List ServerFrame)
      → All IsPartial out
      → Closes (finish t normalise m s out).1
  finish-Closes m s out h = elim (finish_lem m s out).1 [
    | inl q ↦ (out, final _, q.0, h, λ b. b)
    | inr (err, q) ↦ (out, failure err, q, h, is_last err)
  ]

  heard-answer :
      (d : Drained T A) (ended : Bool) (m : Signal A) (c : ℕ)
      → All IsPartial d.out
      → (d.error ≡ none → length d.session.pending < c)
      → let r = heard t normalise d.error ended m d in
        (r.2 ≡ continue → All IsPartial r.1 × (length r.0.pending < c)) × (r.2 ≡ close → Closes r.1)
  unfolding heard
  heard-answer d ended m c h l = elim (Option-cases d.error) [
    | inr (err, e) ↦
        rw (e, heard) ((λ q. ground (arith, q)), (λ _. (d.out, failure err, refl, h, is_last err)))
    | inl e ↦ rw (e, heard) (kept e ended)
  ]
    where
      kept :
          d.error ≡ none
          → (ended : Bool)
          → let r = heard t normalise none ended m d in
            (r.2 ≡ continue → All IsPartial r.1 × (length r.0.pending < c))
            × (r.2 ≡ close → Closes r.1)
      kept e true = (
        (λ q. ground (arith, q, (finish_lem m d.session d.out).0)),
        (λ _. finish-Closes m d.session d.out h),
      )
      kept e false = ((λ _. (h, l e)), (λ q. ground (arith, q)))

  -- What a frame is answered by: while the session continues, partial transcripts only, and less
  -- than a chunk is left to feed; when it closes, nothing on a cancel, and otherwise partial
  -- transcripts and then one last frame, which is the final transcript or an error.
  pub handle-answer :
      (m : Signal A) (f : ClientFrame) (s : StreamSession T A)
      → let r = handle t normalise m f s in
        (r.2 ≡ continue → All IsPartial r.1 × (length r.0.pending < chunk_of t s))
        × (r.2 ≡ close → ((f ≡ cancel) × (r.1 ≡ [])) ⊎ Closes r.1)
  unfolding handle drain
  handle-answer m (audio bytes) s =
      let samples = decode m s.odd_byte bytes in
      let listened = feed m samples.0 s.vad in
      let whole = record s {
        odd_byte = samples.1;
        vad = listened.0;
        pending = s.pending ++ samples.0;
      } in
      let fuel = length whole.pending in
      let c = chunk_of t s in
      let a =
        heard-answer (rounds t normalise fuel c true whole []) listened.1 m c
          (rounds-All fuel c true whole [] tt)
          (λ e. (rounds-length fuel c true whole [] (omega arith) (chunk-positive s) e).1) in
      (a.0, (λ q. inr (a.1 q)))
  handle-answer m end s =
      ((λ e. ground (arith, e, (finish_lem m s []).0)), (λ _. inr (finish-Closes m s [] tt)))
  handle-answer m cancel s = ((λ e. ground (arith, e)), (λ e. inl (refl, refl)))
