-- ===== src/Stt/Vad.antt =====
-- src/stt_stream/vad.rs: energy voice-activity detection. `A` stands for `f32`.
use studio_worker.Base.{
  ℕ, zero, suc, ◌+◌, ◌/◌, ◌%◌, ◌^◌, Bool, ◌&&◌, List, [], ◌∷◌, ◌++◌, length, take, drop, ltb, leb,
  if◌then◌else◌,
}

-- The arithmetic of `f32` that the code uses: `over` divides by the window's length, `is_loud` is
-- `>= VAD_THRESHOLD`, `nothing_summed` is where `sum` starts, `of_i16` reads two bytes of PCM
-- (`i16::from_le_bytes(b) as f32 / 32768.0`).
pub record Signal (A : Type 0) : Type 0 where
  pub silent : A
  pub nothing_summed : A
  pub plus : A → A → A
  pub times : A → A → A
  pub over : A → A
  pub root : A → A
  pub is_loud : A → Bool
  pub of_i16 : ℕ → ℕ → A

abbrev pub sample_rate : ℕ
sample_rate = 16000

abbrev pub window_ms : ℕ
window_ms = 200

abbrev pub vad_silence_ms : ℕ
vad_silence_ms = 1500

abbrev pub window : ℕ
window = 3200

pub record Vad (A : Type 0) : Type 0 where
  pub carry : List A
  pub speech_ms : ℕ
  pub silence_ms : ℕ
  pub ends_after_ms : ℕ

module _ {A : Type 0} where
  unfoldable pub with_silence_ms : ℕ → Vad A
  with_silence_ms n = record { carry = []; speech_ms = 0; silence_ms = 0; ends_after_ms = n }

  unfoldable pub has_ended : Vad A → Bool
  has_ended v = ltb 0 v.speech_ms && leb v.ends_after_ms v.silence_ms

module _ {A : Type 0} (m : Signal A) where
  open m use {nothing_summed, plus, times, over, root, is_loud}

  summed : A → List A → A
  summed acc [] = acc
  summed acc (x ∷ xs) = summed (plus acc (times x x)) xs

  unfoldable pub is_speech : List A → Bool
  unfolding summed
  is_speech xs = is_loud (root (over (summed nothing_summed xs)))

  -- One window's effect on the counters, which are `usize`.
  unfoldable pub hear : List A → Vad A → Vad A
  unfolding is_speech
  hear xs v =
      if is_speech xs
      then record v { speech_ms = (v.speech_ms + window_ms) % 2 ^ 64; silence_ms = 0 }
      else if ltb 0 v.speech_ms
      then record v { silence_ms = (v.silence_ms + window_ms) % 2 ^ 64 }
      else v

  -- The first `n` windows of the carry, which then leave it.
  unfoldable pub judge : ℕ → Vad A → Vad A
  unfolding hear
  judge zero v = v
  judge (suc n) v = judge n (record (hear (take window v.carry) v) { carry = drop window v.carry })

  unfoldable pub feed : List A → Vad A → Vad A × Bool
  unfolding judge has_ended
  feed samples v =
      let joined = v.carry ++ samples in
      let after = judge (length joined / window) (record v { carry = joined }) in
      (after, has_ended after)
