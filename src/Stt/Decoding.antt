-- ===== src/Stt/Decoding.antt =====
-- `StreamSession::decode` (src/stt_stream/session.rs): PCM bytes to samples, whatever frames the
-- bytes come in.
use studio_worker.Base.{
  ℕ, ◌%◌, Option, none, some, List, [], ◌∷◌, ◌++◌, length, if◌then◌else◌, ◌==◌,
}
use studio_worker.Stt.Vad.{Signal}

module _ {A : Type 0} where
  -- `Vec::pop`: what is left, and the last entry.
  unfoldable pub pop : List A → List A × Option A
  pop [] = ([], none)
  pop (x ∷ []) = ([], some x)
  pop (x ∷ y ∷ ys) = let rest = pop (y ∷ ys) in (x ∷ rest.0, rest.1)

  unfoldable pub of_option : Option A → List A
  of_option none = []
  of_option (some a) = a ∷ []

module _ {A : Type 0} (m : Signal A) where
  open m use {of_i16}

  -- `as_chunks::<2>().0`, each read as a sample.
  unfoldable pub samples_of : List ℕ → List A
  samples_of [] = []
  samples_of (b ∷ []) = []
  samples_of (b ∷ c ∷ bs) = of_i16 b c ∷ samples_of bs

  -- The samples, and the odd byte kept for the next frame.
  unfoldable pub decode : Option ℕ → List ℕ → List A × Option ℕ
  unfolding of_option pop samples_of
  decode odd_byte bytes =
      let joined = of_option odd_byte ++ bytes in
      if length joined % 2 == 1
      then (samples_of (pop joined).0, (pop joined).1)
      else (samples_of joined, none)
