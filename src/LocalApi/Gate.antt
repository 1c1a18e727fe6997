-- ===== src/LocalApi/Gate.antt =====
-- `deny_reason` of src/local_api.rs.
use Prim.Native.Nat.{bit_or, bit_xor}
use studio_worker.Base.{
  ℕ, Bool, true, false, not, ◌||◌, Option, none, some, [], ◌∷◌, length, ◌==◌, if◌then◌else◌,
}
use studio_worker.Base.Chars.{Chars, codes, same_chars, same_ignoring_case, strip_prefix}

-- `Host` and `Origin` with the header's value.
pub data Denial : Type 0 where
  host : Chars → Denial
  origin : Chars → Denial
  token : Denial

-- What stands before the first and before the last `d`, if there is one.
unfoldable pub consed : ℕ → Option Chars → Option Chars
consed c none = none
consed c (some b) = some (c ∷ b)

unfoldable pub before_first : ℕ → Chars → Option Chars
unfolding consed
before_first d [] = none
before_first d (c ∷ cs) = if c == d then some [] else consed c (before_first d cs)

unfoldable pub last_here : Bool → ℕ → Option Chars → Option Chars
last_here here c (some b) = some (c ∷ b)
last_here here c none = if here then some [] else none

unfoldable pub before_last : ℕ → Chars → Option Chars
unfolding last_here
before_last d [] = none
before_last d (c ∷ cs) = last_here (c == d) c (before_last d cs)

unfoldable pub names_loopback : Chars → Bool
names_loopback bare =
    same_ignoring_case bare (codes "localhost")
    || same_chars bare (codes "127.0.0.1")
    || same_chars bare (codes "::1")

unfoldable pub bracketed : Option Chars → Bool
unfolding names_loopback
bracketed none = false
bracketed (some addr) = names_loopback addr

unfoldable pub without_port : Chars → Option Chars → Chars
without_port value none = value
without_port value (some h) = h

unfoldable pub by_bracket : Chars → Option Chars → Bool
unfolding before_first before_last bracketed without_port names_loopback
by_bracket value (some rest) = bracketed (before_first b']' rest)
by_bracket value none = names_loopback (without_port value (before_last b':' value))

unfoldable pub host_is_loopback : Chars → Bool
unfolding by_bracket strip_prefix
host_is_loopback value = by_bracket value (strip_prefix (codes "[") value)

-- `or_else`.
unfoldable pub first_of : Option Chars → Option Chars → Option Chars
first_of (some a) b = some a
first_of none b = b

unfoldable pub on_loopback : Option Chars → Bool
unfolding host_is_loopback
on_loopback none = false
on_loopback (some value) = host_is_loopback value

unfoldable pub origin_is_loopback : Chars → Bool
unfolding first_of on_loopback strip_prefix
origin_is_loopback value =
    on_loopback
      (first_of (strip_prefix (codes "https://") value) (strip_prefix (codes "http://") value))

-- The fold over the bytes of both, which stops with the shorter.
unfoldable pub folded : ℕ → Chars → Chars → ℕ
folded acc [] b = acc
folded acc (x ∷ xs) [] = acc
folded acc (x ∷ xs) (y ∷ ys) = folded (bit_or acc (bit_xor x y)) xs ys

unfoldable pub token_matches : Chars → Chars → Bool
unfolding folded
token_matches presented expected =
    if not (length presented == length expected) then false else folded 0 presented expected == 0

-- A check passes if the header is not there.
unfoldable pub unless_present : Option Chars → (Chars → Bool) → Bool
unless_present none test = true
unless_present (some value) test = test value

unfoldable pub value_of : Option Chars → Chars
value_of none = []
value_of (some value) = value

unfoldable pub presents : Option Chars → Chars → Bool
unfolding token_matches
presents none expected = false
presents (some presented) expected = token_matches presented expected

unfoldable pub bearer : Option Chars → Option Chars
unfolding first_of strip_prefix
bearer none = none
bearer (some a) = first_of (strip_prefix (codes "Bearer ") a) (strip_prefix (codes "bearer ") a)

unfoldable pub deny_reason : Option Chars → Option Chars → Option Chars → Chars → Option Denial
unfolding unless_present value_of presents bearer host_is_loopback origin_is_loopback
deny_reason host_header origin_header authorization expected =
    if not (unless_present host_header host_is_loopback)
    then some (host (value_of host_header))
    else if not (unless_present origin_header origin_is_loopback)
    then some (origin (value_of origin_header))
    else if presents (bearer authorization) expected
    then none
    else some token
