-- ===== src/Base/Text.antt =====
-- Texts that the program only compares: ids, keys, names.
use Prim.Native.String.{String, ◌++◌}
use text.Mathlib.Text.{◌==◌}
use text.Mathlib.TextEquality.{eq_iff}
use text.Mathlib.TextPositions.{eq_refl}
use mathlib.Core.Path.{◌≡◌}
use mathlib.Core.Bool.{Bool, true}
use mathlib.Core.Logic.{◌↔◌}

-- Equality of texts, as `==` of the source.
unfoldable pub same : String → String → Bool
same s t = s == t

pub same_iff : (s t : String) → (same s t ≡ true) ↔ (s ≡ t)
unfolding same
same_iff s t = eq_iff s t

pub same_refl : (s : String) → same s s ≡ true
unfolding same
same_refl s = eq_refl s

-- `String::push_str`.
unfoldable pub push_str : String → String → String
push_str s t = s ++ t
