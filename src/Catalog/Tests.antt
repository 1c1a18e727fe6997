-- ===== src/Catalog/Tests.antt =====
-- The catalogue's theorems on a catalogue of one model.
use studio_worker.Base.{ℕ, String, true, ◌≡◌, refl, none, [], ◌∷◌, same}
use studio_worker.Catalog.{CatalogModel, Catalog, image, remove}

abbrev model : String → CatalogModel ℕ (Unit {0})
model id = record {
  id = id;
  kind = image;
  vram_gb_estimate = 6;
  enabled = true;
  origin = "local";
  exclusive_group = none;
  payload = tt;
}

abbrev zimage : Catalog ℕ (Unit {0})
zimage = record { models = model "z" ∷ []; dismissed_seeds = [] }

removed_run :
    (remove (model "z" ∷ []) "z" zimage).0 ≡ record { models = []; dismissed_seeds = "z" ∷ [] }
unfolding remove same
removed_run = refl
