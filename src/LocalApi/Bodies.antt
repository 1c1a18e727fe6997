-- ===== src/LocalApi/Bodies.antt =====
-- Reading a body up to a cap (src/local_api.rs).
use studio_worker.Base.{
  ℕ, suc, ◌*◌, Bool, false, not, Option, none, some, length, take, ltb, leb, if◌then◌else◌,
}
use studio_worker.Base.Chars.{Chars}

abbrev pub max_body_bytes : ℕ
max_body_bytes = 1024 * 1024

abbrev pub max_image_body_bytes : ℕ
max_image_body_bytes = 64 * 1024 * 1024

-- `Ok`, `TooLarge`, and the error of a body that is no UTF-8.
pub data BodyOutcome : Type 0 where
  body : Chars → BodyOutcome
  too_large : BodyOutcome
  unreadable : BodyOutcome

-- The declared length exceeds the cap.
unfoldable pub declares_more : ℕ → Option ℕ → Bool
declares_more cap none = false
declares_more cap (some declared) = ltb cap declared

-- At most one byte past the cap is read.
unfoldable pub read_body_capped : (Chars → Bool) → ℕ → Option ℕ → Chars → BodyOutcome
unfolding declares_more
read_body_capped is_utf8 cap declared sent =
    let got = take (suc cap) sent in
    if declares_more cap declared
    then too_large
    else if not (is_utf8 got)
    then unreadable
    else if ltb cap (length got)
    then too_large
    else body got

unfoldable pub read_bytes_capped : ℕ → Option ℕ → Chars → Option Chars
unfolding declares_more
read_bytes_capped cap declared sent =
    let got = take (suc cap) sent in
    if declares_more cap declared then none else if leb (length got) cap then some got else none
