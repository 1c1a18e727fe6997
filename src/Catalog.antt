-- ===== src/Catalog.antt =====
-- src/catalog.rs: the local model catalogue. `P` stands for the fields that the catalogue only
-- carries and compares (display name, description, source); `G` for `f32`.
pub mod Laws
mod Tests
use studio_worker.Base.{
  ℕ, zero, suc, ◌+◌, ◌-◌, ◌*◌, ◌/◌, ◌%◌, ◌^◌, ◌≤◌, ◌<◌, min, max, String, Bool, true, false, not,
  ◌&&◌, ◌||◌, ◌≡◌, ◌≢◌, refl, sym, ap, ◌∙◌, subst, Option, none, some, List, [], ◌∷◌, ◌++◌, map,
  reverse, arith, ◌↔◌, inl, inr, ◌⊎◌, if◌then◌else◌, ltb, leb, ◌==◌, same, same_iff, same_refl,
  ltb→lt, lt→ltb, leb→le, ==_iff, tests, Bool-cases, Option-cases, length, get_elem?, take, drop,
  replicate, keep, any, All, length-append, length-take, length-drop, length-replicate,
  take-append-drop,
}

-- `TaskKind` (src/types.rs).
pub data TaskKind : Type 0 where
  image llm audio_stt audio_tts video mesh vision wake_word model_convert : TaskKind

pub record CatalogModel (G P : Type 0) : Type 0 where
  pub id : String
  pub kind : TaskKind
  pub vram_gb_estimate : G
  pub enabled : Bool
  pub origin : String
  pub exclusive_group : Option String
  pub payload : P

pub record Catalog (G P : Type 0) : Type 0 where
  pub models : List (CatalogModel G P)
  pub dismissed_seeds : List String

unfoldable pub contains : List String → String → Bool
contains [] id = false
contains (x ∷ xs) id = same x id || contains xs id

kind_code : TaskKind → ℕ
kind_code image = 0
kind_code llm = 1
kind_code audio_stt = 2
kind_code audio_tts = 3
kind_code video = 4
kind_code mesh = 5
kind_code vision = 6
kind_code wake_word = 7
kind_code model_convert = 8

-- The derived `==` of `TaskKind`.
unfoldable pub same_kind : TaskKind → TaskKind → Bool
unfolding kind_code
same_kind a b = kind_code a == kind_code b

-- `Vec::retain(|d| *d != id)`.
drop_id : List String → String → List String
drop_id [] id = []
drop_id (x ∷ xs) id = let rest = drop_id xs id in if same x id then rest else x ∷ rest

module _ {G P : Type 0} where
  unfoldable pub find : List (CatalogModel G P) → String → Option (CatalogModel G P)
  find [] id = none
  find (x ∷ xs) id = if same x.id id then some x else find xs id

  unfoldable pub get : Catalog G P → String → Option (CatalogModel G P)
  unfolding find
  get c id = find c.models id

  unfoldable pub has : List (CatalogModel G P) → String → Bool
  has [] id = false
  has (x ∷ xs) id = same x.id id || has xs id

  -- `Self::seed()` is built-in data: the seed models are an argument.
  missing : Catalog G P → List (CatalogModel G P) → List (CatalogModel G P)
  unfolding has contains
  missing c [] = []
  missing c (s ∷ seeds) =
      let rest = missing c seeds in
      if not (has c.models s.id) && not (contains c.dismissed_seeds s.id) then s ∷ rest else rest

  is_empty : List (CatalogModel G P) → Bool
  is_empty [] = true
  is_empty (_ ∷ _) = false

  unfoldable pub ensure_seeds : List (CatalogModel G P) → Catalog G P → Catalog G P × Bool
  unfolding missing is_empty
  ensure_seeds seeds c =
      let added = missing c seeds in (record c { models = c.models ++ added }, not (is_empty added))

  put : List (CatalogModel G P) → CatalogModel G P → List (CatalogModel G P)
  put [] model = model ∷ []
  put (x ∷ xs) model = if same x.id model.id then model ∷ xs else x ∷ put xs model

  unfoldable pub upsert : CatalogModel G P → Catalog G P → Catalog G P
  unfolding put drop_id
  upsert model c = record c {
    models = put c.models model;
    dismissed_seeds = drop_id c.dismissed_seeds model.id;
  }

  sync_found :
      (CatalogModel G P → CatalogModel G P → Bool)
      → CatalogModel G P
      → Option (CatalogModel G P)
      → Catalog G P
      → Catalog G P × Bool
  unfolding put
  sync_found eq incoming none c = (record c { models = c.models ++ incoming ∷ [] }, true)
  sync_found eq incoming (some existing) c =
      if same existing.origin "local"
      then (c, false)
      else if eq existing incoming
      then (c, false)
      else (record c { models = put c.models incoming }, true)

  -- `eq` is the derived `==` of `CatalogModel`.
  unfoldable pub sync_studio_model :
      (CatalogModel G P → CatalogModel G P → Bool)
      → CatalogModel G P
      → Catalog G P
      → Catalog G P × Bool
  unfolding find sync_found
  sync_studio_model eq incoming c = sync_found eq incoming (find c.models incoming.id) c

  drop_model : List (CatalogModel G P) → String → List (CatalogModel G P)
  drop_model [] id = []
  drop_model (x ∷ xs) id = let rest = drop_model xs id in if same x.id id then rest else x ∷ rest

  unfoldable pub remove : List (CatalogModel G P) → String → Catalog G P → Catalog G P × Bool
  unfolding drop_model has contains
  remove seeds id c =
      let kept = drop_model c.models id in
      let removed = not (length kept == length c.models) in
      (
        record {
          models = kept;
          dismissed_seeds =
              if removed && has seeds id && not (contains c.dismissed_seeds id)
              then c.dismissed_seeds ++ id ∷ []
              else c.dismissed_seeds;
        },
        removed,
      )

  default_in : TaskKind → List (CatalogModel G P) → Option (CatalogModel G P)
  unfolding same_kind
  default_in kind [] = none
  default_in kind (x ∷ xs) =
      if x.enabled && same_kind x.kind kind then some x else default_in kind xs

  unfoldable pub default_model_for : TaskKind → Catalog G P → Option (CatalogModel G P)
  unfolding default_in
  default_model_for kind c = default_in kind c.models

  unfoldable pub default_image_model : Catalog G P → Option (CatalogModel G P)
  unfolding default_model_for
  default_image_model c = default_model_for image c
