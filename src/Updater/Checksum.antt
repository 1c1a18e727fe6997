-- ===== src/Updater/Checksum.antt =====
-- What a checksum file and an installer's script say (src/update.rs).
use studio_worker.Base.{
  ℕ, String, Bool, true, false, ◌&&◌, ◌||◌, Option, none, some, List, [], ◌∷◌, leb, ◌==◌, length,
  if◌then◌else◌,
}
use studio_worker.Base.Chars.{
  Chars, codes, is_whitespace, is_digit, trim, trim_start, strip_prefix, lower,
}

-- Adds a character to the first line.
unfoldable pub cons_line : ℕ → List Chars → List Chars
cons_line c [] = (c ∷ []) ∷ []
cons_line c (l ∷ ls) = (c ∷ l) ∷ ls

-- `str::lines`. It would take a carriage return off a line's end too, which is whitespace.
unfoldable pub lines : Chars → List Chars
unfolding cons_line
lines [] = []
lines (c ∷ cs) = let rest = lines cs in if c == 10 then [] ∷ rest else cons_line c rest

-- `find(|l| !l.trim().is_empty())`.
unfoldable pub first_filled : List Chars → Option Chars
unfolding trim
first_filled [] = none
first_filled (l ∷ ls) = let rest = first_filled ls in elim (trim l) [ [] ↦ rest | c ∷ cs ↦ some l ]

unfoldable pub up_to_whitespace : Chars → Chars
unfolding is_whitespace
up_to_whitespace [] = []
up_to_whitespace (c ∷ cs) =
    let rest = up_to_whitespace cs in if is_whitespace c then [] else c ∷ rest

-- `split_whitespace().next()`, of a line that is not blank.
unfoldable pub first_token : Chars → Chars
unfolding trim_start up_to_whitespace
first_token line = up_to_whitespace (trim_start line)

-- `char::is_ascii_hexdigit`.
unfoldable pub is_hexdigit : ℕ → Bool
unfolding is_digit
is_hexdigit c = is_digit c || (leb b'a' c && leb c b'f') || (leb b'A' c && leb c b'F')

unfoldable pub all_hex : Chars → Bool
unfolding is_hexdigit
all_hex [] = true
all_hex (c ∷ cs) = is_hexdigit c && all_hex cs

-- The token's length is in bytes, which are as many as its characters once they are all hex digits.
unfoldable pub digest_in : Option Chars → Option Chars
unfolding first_token all_hex lower
digest_in none = none
digest_in (some line) =
    let token = first_token line in
    if length token == 64 && all_hex token then some (lower token) else none

unfoldable pub parse_checksum_file : String → Option Chars
unfolding lines first_filled digest_in
parse_checksum_file text = digest_in (first_filled (lines (codes text)))

-- `str::contains`.
unfoldable pub includes : Chars → Chars → Bool
unfolding strip_prefix
includes mark [] = elim mark [ [] ↦ true | c ∷ cs ↦ false ]
includes mark (t ∷ ts) =
    let rest = includes mark ts in
    elim (strip_prefix mark (t ∷ ts)) [ none ↦ rest | some behind ↦ true ]

abbrev pub installer_env : Chars
installer_env = codes "STUDIO_WORKER_VARIANT"

unfoldable pub reads_variant : String → Bool
unfolding includes
reads_variant script = includes installer_env (codes script)
