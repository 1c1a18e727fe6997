-- ===== src/Multipart/Tests.antt =====
-- A form with two fields (src/multipart.rs).
use studio_worker.Base.{Option, some, List, [], ◌∷◌, ◌++◌, All, ◌≡◌, refl}
use studio_worker.Base.Chars.{Chars, codes, strip_prefix, contains_char}
use studio_worker.Thinking.{split_once}
use studio_worker.Multipart.{Bytes, parsed, refused, no_opening, opening, between, parse_form}
use studio_worker.Multipart.Reading.{IsField, written, fields_of, parse_form-written}

abbrev text : Bytes → Option Chars
text b = some b

abbrev edge : Bytes
edge = codes "xx"

abbrev fields : List (Chars × Bytes)
fields = (codes "a", codes "1") ∷ (codes "b", 13 ∷ 10 ∷ []) ∷ []

no_opening_run : parse_form text edge (codes "nothing") ≡ refused no_opening
unfolding parse_form split_once
no_opening_run = refl

are_fields : All (IsField text edge) fields
unfolding contains_char split_once strip_prefix between
are_fields = (((refl, refl, refl), refl, refl), (((refl, refl, refl), refl, refl), tt))

parse_form-written_example :
    parse_form text edge (opening edge ++ written text edge fields)
    ≡ parsed (fields_of text edge fields)
parse_form-written_example = parse_form-written text edge fields are_fields
