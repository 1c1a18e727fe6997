-- ===== src/Stt/Tests.antt =====
-- Streaming sessions at concrete inputs: samples are numbers, and a model that counts its chunks.
use studio_worker.Base.{
  ℕ, ◌+◌, ◌*◌, ◌^◌, ◌≤◌, ◌<◌, String, ◌≡◌, refl, none, some, [], ◌∷◌, length, arith, ◌↔◌, ◌⊎◌, leb,
  ltb, All, if◌then◌else◌, same, same_iff, push_str,
}
use studio_worker.Stt.Tokens.{StreamTokens, opens, denied, expired, mint, check}
use studio_worker.Stt.Grants.{check-mint}
use studio_worker.Stt.Vad.{Signal, Vad, feed}
use studio_worker.Stt.Session.{
  Transcriber, audio, cancel, partial, continue, close, StreamSession, handle, chunk_of,
}
use studio_worker.Stt.Splits.{feed_frames, feed_at_once, feed_frames_lem}
use studio_worker.Stt.Replies.{IsPartial, Closes, handle-answer}

abbrev no_tokens : StreamTokens
no_tokens = record { grants = [] }

abbrev hash : String → String
hash s = s

check-mint_example :
    let r = mint hash "tok" "whisper" 5 100 no_tokens in
    (100 + 30 * 10 ^ 9 ≤ r.1.expires_at)
    × (r.1.expires_at ≤ 100 + 3600 * 10 ^ 9)
    × (check hash "tok" 200 r.0
        ≡ (if ltb 200 r.1.expires_at then opens "whisper" else denied expired))
    × ((check hash "other" 200 r.0 ≡ opens "m") ↔ (check hash "other" 200 no_tokens ≡ opens "m"))
unfolding same
check-mint_example =
    check-mint hash "tok" "whisper" "other" "m" 5 100 200 no_tokens tt (λ e. e)
      (λ e. ground (arith, (same_iff "tok" "other").1 e)) (omega arith)

abbrev numbers : Signal ℕ
numbers = record {
  silent = 0;
  nothing_summed = 0;
  plus = λ a b. a + b;
  times = λ a b. a * b;
  over = λ a. a;
  root = λ a. a;
  is_loud = leb 10;
  of_i16 = λ b c. b + 256 * c;
}

abbrev hearing : Vad ℕ
hearing = record { carry = 7 ∷ []; speech_ms = 200; silence_ms = 0; ends_after_ms = 1500 }

feed_frames_lem_example :
    feed_frames numbers ((3 ∷ []) ∷ (4 ∷ 5 ∷ []) ∷ []) (feed numbers (1 ∷ 2 ∷ []) hearing).0
    ≡ feed_at_once numbers (1 ∷ 2 ∷ []) ((3 ∷ []) ∷ (4 ∷ 5 ∷ []) ∷ []) hearing
feed_frames_lem_example =
    feed_frames_lem numbers (1 ∷ 2 ∷ []) ((3 ∷ []) ∷ (4 ∷ 5 ∷ []) ∷ []) hearing

-- The model takes two samples a step, and fails at its fourth.
abbrev counting : Transcriber ℕ ℕ
counting = record {
  chunk_samples = λ n. 2;
  step = λ n xs. (n + 1, "la", if leb 4 n then some "worn out" else none);
  reset = λ n. 0;
}

abbrev as_is : String → String
as_is s = s

abbrev session : StreamSession ℕ ℕ
session = record {
  transcriber = 0;
  pending = [];
  odd_byte = none;
  raw = "";
  sent = "";
  vad = hearing;
}

two_chunks :
    (handle counting as_is numbers (audio (1 ∷ 0 ∷ 2 ∷ 0 ∷ 3 ∷ 0 ∷ 4 ∷ 0 ∷ 5 ∷ 0 ∷ [])) session).1
    ≡ partial "la" ∷ partial "lala" ∷ []
unfolding handle same push_str
two_chunks = refl

handle-answer_example :
    let r = handle counting as_is numbers (audio (1 ∷ 0 ∷ [])) session in
    (r.2 ≡ continue → All IsPartial r.1 × (length r.0.pending < chunk_of counting session))
    × (r.2 ≡ close → ((audio (1 ∷ 0 ∷ []) ≡ cancel) × (r.1 ≡ [])) ⊎ Closes r.1)
handle-answer_example = handle-answer counting as_is numbers (audio (1 ∷ 0 ∷ [])) session
