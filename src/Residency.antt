-- ===== src/Residency.antt =====
-- src/residency.rs: which models the operator wants loaded, and the file that remembers it.
-- The `BTreeSet` is a list whose order means nothing (serde writes and reads it sorted). The file system
-- and `serde_json` are parameters.
pub mod Laws
pub mod Tests
use studio_worker.Base.{
  ℕ, zero, suc, ◌+◌, ◌-◌, ◌*◌, ◌/◌, ◌%◌, ◌^◌, ◌≤◌, ◌<◌, min, max, String, Bool, true, false, not,
  ◌&&◌, ◌||◌, ◌≡◌, ◌≢◌, refl, sym, ap, ◌∙◌, subst, Option, none, some, List, [], ◌∷◌, ◌++◌, map,
  reverse, arith, ◌↔◌, inl, inr, ◌⊎◌, if◌then◌else◌, ltb, leb, ◌==◌, same, same_iff, same_refl,
  ltb→lt, lt→ltb, leb→le, ==_iff, tests, Bool-cases, Option-cases, length, get_elem?, take, drop,
  replicate, keep, any, All, length-append, length-take, length-drop, length-replicate,
  take-append-drop,
}

pub data Read : Type 0 where
  contents : String → Read
  not_found unreadable : Read

-- `std::fs` and `config::write_atomic` over a state `F` of the disk. `write` may fail; `set_aside`
-- renames a file to its quarantine name, or leaves the disk as it is.
pub record Store (F : Type 0) : Type 0 where
  pub read : F → String → Read
  pub write : F → String → String → Option F
  pub set_aside : F → String → F

-- `serde_json` at `ResidencyFile`: its version and its set.
pub record Json : Type 0 where
  pub encode : ℕ → List String → String
  pub decode : String → Option (ℕ × List String)

pub record Residency : Type 0 where
  pub resident : List String
  pub path : Option String

-- `io::Result<bool>`.
pub data Saved : Type 0 where
  changed : Bool → Saved
  persist_failed : Saved

unfoldable pub contains : List String → String → Bool
contains [] id = false
contains (x ∷ xs) id = same x id || contains xs id

unfoldable pub remove : List String → String → List String
remove [] id = []
remove (x ∷ xs) id = let rest = remove xs id in if same x id then rest else x ∷ rest

unfoldable pub is_resident : Residency → String → Bool
unfolding contains
is_resident r id = contains r.resident id

unfoldable pub empty : Option String → Residency
empty path = record { resident = []; path = path }

-- `VERSION`.
abbrev pub version : ℕ
version = 1

abbrev pub agree : Bool → Bool → Bool
agree true b = b
agree false b = not b

module _ {F : Type 0} (st : Store F) (js : Json) where
  of_version : Option (ℕ × List String) → Option (List String)
  of_version none = none
  of_version (some (v, ids)) = if v == version then some ids else none

  unfoldable pub parse : String → Option (List String)
  unfolding of_version
  parse text = of_version (js.decode text)

  parsed : Option (List String) → String → F → Residency × F
  unfolding empty
  parsed (some ids) path fs = (record { resident = ids; path = some path }, fs)
  parsed none path fs = (empty (some path), st.set_aside fs path)

  read_as : Read → String → F → Residency × F
  unfolding parsed parse empty
  read_as (contents text) path fs = parsed (parse text) path fs
  read_as not_found path fs = (empty (some path), fs)
  read_as unreadable path fs = (empty none, fs)

  unfoldable pub load_for_serving : Option String → F → Residency × F
  unfolding read_as empty
  load_for_serving none fs = (empty none, fs)
  load_for_serving (some path) fs = read_as (st.read fs path) path fs

  -- Persists before committing.
  commit : Residency → List String → Option String → F → Residency × F × Saved
  commit r ids none fs = (record r { resident = ids }, fs, changed true)
  commit r ids (some path) fs = elim (st.write fs path (js.encode version ids)) [
    | none ↦ (r, fs, persist_failed)
    | some fs' ↦ (record r { resident = ids }, fs', changed true)
  ]

  unfoldable pub set : String → Bool → Residency → F → Residency × F × Saved
  unfolding is_resident remove commit
  set id wanted r fs =
      if agree (is_resident r id) wanted
      then (r, fs, changed false)
      else commit r (if wanted then id ∷ r.resident else remove r.resident id) r.path fs
