-- ===== src/Base/Chars.antt =====
-- Texts that the program walks: the list of their characters' codes, and what the source calls of
-- `str` and `char`.
use Prim.Native.Nat.{ℕ, ◌+◌}
use Prim.Native.Char.{code}
use Prim.Native.String.{String}
use mathlib.Core.Path.{◌≡◌, refl}
use mathlib.Core.Logic.{◌↔◌}
use mathlib.Core.Bool.{Bool, true, false, ◌&&◌, ◌||◌}
use mathlib.Core.Option.{Option, none, some}
use mathlib.Core.List.{List, [], ◌∷◌, reverse}
use native.Mathlib.Omega.{arith}
use studio_worker.Base.Tests.{leb, ◌==◌, if◌then◌else◌}

abbrev pub Chars : Type 0
Chars = List ℕ

-- A literal's characters.
abbrev pub codes : String → Chars
codes String.[] = []
codes (String.◌∷◌ c s) = code c ∷ codes s

unfoldable pub same_chars : Chars → Chars → Bool
same_chars [] [] = true
same_chars [] (d ∷ ds) = false
same_chars (c ∷ cs) [] = false
same_chars (c ∷ cs) (d ∷ ds) = c == d && same_chars cs ds

pub same_chars_iff : (s t : Chars) → (same_chars s t ≡ true) ↔ (s ≡ t)
unfolding same_chars
same_chars_iff [] [] = ground arith
same_chars_iff [] (d ∷ ds) = ground arith
same_chars_iff (c ∷ cs) [] = ground arith
same_chars_iff (c ∷ cs) (d ∷ ds) = ground (arith, same_chars_iff cs ds)

pub same_chars_refl : (s : Chars) → same_chars s s ≡ true
same_chars_refl s = (same_chars_iff s s).1 refl

-- `char::is_whitespace`: Unicode's White_Space.
unfoldable pub is_whitespace : ℕ → Bool
is_whitespace c =
    (leb 9 c && leb c 13)
    || c == 0x20
    || c == 0x85
    || c == 0xa0
    || c == 0x1680
    || (leb 0x2000 c && leb c 0x200a)
    || c == 0x2028
    || c == 0x2029
    || c == 0x202f
    || c == 0x205f
    || c == 0x3000

unfoldable pub trim_start : Chars → Chars
trim_start [] = []
trim_start (c ∷ cs) = if is_whitespace c then trim_start cs else c ∷ cs

unfoldable pub trim_end : Chars → Chars
unfolding trim_start
trim_end s = reverse (trim_start (reverse s))

unfoldable pub trim : Chars → Chars
unfolding trim_start trim_end
trim s = trim_end (trim_start s)

-- `str::strip_prefix`.
unfoldable pub strip_prefix : Chars → Chars → Option Chars
strip_prefix [] text = some text
strip_prefix (p ∷ ps) [] = none
strip_prefix (p ∷ ps) (t ∷ ts) = let rest = strip_prefix ps ts in if p == t then rest else none

unfoldable pub contains_char : ℕ → Chars → Bool
contains_char d [] = false
contains_char d (c ∷ cs) = c == d || contains_char d cs

-- `char::is_ascii_digit`, `is_ascii_alphanumeric`, `to_ascii_lowercase`.
unfoldable pub is_digit : ℕ → Bool
is_digit c = leb b'0' c && leb c b'9'

unfoldable pub is_alphanumeric : ℕ → Bool
unfolding is_digit
is_alphanumeric c = is_digit c || (leb b'a' c && leb c b'z') || (leb b'A' c && leb c b'Z')

unfoldable pub to_lower : ℕ → ℕ
to_lower c = if leb b'A' c && leb c b'Z' then c + 32 else c

unfoldable pub lower : Chars → Chars
unfolding to_lower
lower [] = []
lower (c ∷ cs) = to_lower c ∷ lower cs

-- `str::eq_ignore_ascii_case`.
unfoldable pub same_ignoring_case : Chars → Chars → Bool
unfolding same_chars lower
same_ignoring_case s t = same_chars (lower s) (lower t)
