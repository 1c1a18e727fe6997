-- ===== src/Residency/Tests.antt =====
-- A disk of one file, a JSON of the ids a and b, and the residency theorems on them.
use studio_worker.Base.{
  String, true, ◌≡◌, refl, Option, none, some, List, [], ◌∷◌, arith, if◌then◌else◌, same, same_iff,
}
use studio_worker.Residency.{
  Read, contents, not_found, Store, Json, Residency, changed, contains, set,
}
use studio_worker.Residency.Laws.{IsFaithful, Restores, set-reload}

abbrev pub read_file : Option String → Read
read_file none = not_found
read_file (some text) = contents text

-- The disk is one file; its path does not matter.
abbrev pub one_file : Store (Option String)
one_file = record {
  read = λ fs path. read_file fs;
  write = λ fs path text. some (some text);
  set_aside = λ fs path. none;
}

abbrev encode_ids : List String → String
encode_ids [] = "[]"
encode_ids (x ∷ []) = x
encode_ids (x ∷ y ∷ xs) = "a b"

-- The ids come back in their order, whatever the order they were given in.
abbrev pub two_ids : Json
two_ids = record {
  encode = λ v ids. encode_ids ids;
  decode = λ text.
      some
        (1, if same text "[]" then [] else if same text "a b" then "a" ∷ "b" ∷ [] else text ∷ []);
}

one_file-IsFaithful : IsFaithful one_file
one_file-IsFaithful = record { reads_back = λ fs fs' path text e. ground arith }

abbrev with_a : Residency
with_a = record { resident = "a" ∷ []; path = some "residency.json" }

set_run :
    set one_file two_ids "b" true with_a none
    ≡ (record { resident = "b" ∷ "a" ∷ []; path = some "residency.json" }, some "a b", changed true)
unfolding set same
set_run = refl

either_order : (k : String) → contains ("a" ∷ "b" ∷ []) k ≡ contains ("b" ∷ "a" ∷ []) k
unfolding contains
either_order k = ground (arith, same_iff "a" k, same_iff "b" k)

set-reload_example :
    Restores one_file two_ids "residency.json"
      (set one_file two_ids "b" true with_a none).0
      (set one_file two_ids "b" true with_a none).1
unfolding set same
set-reload_example =
    set-reload one_file two_ids "b" "residency.json" true with_a none ("a" ∷ "b" ∷ [])
      one_file-IsFaithful (refl, either_order) refl refl
