-- ===== src/Host/Tests.antt =====
-- Runs of a host with two models of one group, and its theorems on it.
use studio_worker.Base.{
  ℕ, String, true, false, ◌≡◌, ◌≢◌, refl, Option, none, some, List, [], ◌∷◌, arith, ◌⊎◌, same,
  same_iff,
}
use studio_worker.Lifecycle.{
  ModelState, unloaded, loading, loaded, unloading, failed, Command, nothing, begin_load,
  begin_unload, Lifecycle, Outcome, done, broken, Reply, ok, err, UnexpectedEvent, request_load,
  request_unload, load_finished, unload_finished, serves, name,
}
use studio_worker.Residency.{Store, Json, Residency, Saved, changed, persist_failed, is_resident}
use studio_worker.Admission.{
  Measure, MemoryProbe, Refused, Verdict, admitted, refused, free_now, admit, credit, FreeMemory,
  whole_gib,
}
use studio_worker.Catalog.{CatalogModel, find}
use studio_worker.Host.State.{
  Loaded, ModelStatus, loader, Host, entry, put, status_locked, after_transition, spawn_load,
  request_unload_locked, no_room, not_loaded, answer, failing,
}
use studio_worker.Residency
use studio_worker.Residency.Tests.{one_file, two_ids}
use studio_worker.Lifecycle
use studio_worker.Admission
use studio_worker.Catalog.{image}
use studio_worker.Host.Requests.{load, needs_load}
use studio_worker.Host.Lanes.{lane_of}
use studio_worker.Host.View.{view}
use studio_worker.Host.Steps.{Reach, fresh, next, loads}
use studio_worker.Host.Invariant.{host_finish_expected, lane_of_iff}
use studio_worker.Host.Groups.{wanted}
use studio_worker.Host.Exclusive.{grouped, exclusive_group_lem}
use studio_worker.Host.Loads.{load-answer, after_load}

abbrev speech : String → CatalogModel ℕ (Unit {0})
speech id = record {
  id = id;
  kind = image;
  vram_gb_estimate = 3;
  enabled = true;
  origin = "local";
  exclusive_group = some "stt";
  payload = tt;
}

abbrev catalog : List (CatalogModel ℕ (Unit {0}))
catalog = speech "a" ∷ speech "b" ∷ []

abbrev room : MemoryProbe ℕ
room = record { free_gib = some 12; total_gib = none; host_available_gib = none }

abbrev no_memory : MemoryProbe ℕ
no_memory = record { free_gib = some 2; total_gib = none; host_available_gib = none }

abbrev started : Host (Option String)
started = record {
  entries = λ k. none;
  residency = record { resident = []; path = some "residency.json" };
  disk = none;
  tasks = [];
  cancelled = [];
  next_lane = 0;
  published = [];
}

-- What a test runs.
run : Unit {0}
unfolding load request_unload_locked same Residency.set find needs_load entry Lifecycle.new put
    status_locked request_load spawn_load after_transition view
run = tt

abbrev loading_a : Host (Option String)
loading_a = (load whole_gib one_file two_ids room catalog 5 "a" started).0

first_load :
    (load whole_gib one_file two_ids room catalog 5 "a" started).1
    ≡ answer (record { id = "a"; state = loading; resident = true; since = 5 })
unfolding run
first_load = refl

second_refused :
    (load whole_gib one_file two_ids no_memory catalog 6 "b" started).1
    ≡ failing (
        no_room
          (record { memory = Admission.device; needed_gib = 3; free_gib = 2; margin_gib = 1 }))
unfolding run
second_refused = refl

-- Both models are in the group.
abbrev OneGroup : List (CatalogModel ℕ (Unit {0})) → Type 0
OneGroup c = (grouped (find c "a") ≡ some "stt") × (grouped (find c "b") ≡ some "stt")

reached : Reach {Q = Unit {0}} whole_gib one_file two_ids OneGroup loading_a
unfolding find same
reached = next catalog (refl, refl) (fresh _ none) (loads _ room 5 "a")

host_finish_expected_example :
    load_finished done (view loading_a "a").life
    ≢ (Lifecycle.new, err (record { event = ""; state = "" }))
unfolding run
host_finish_expected_example =
    (host_finish_expected whole_gib one_file two_ids "a" [] [] (loader "a" []) done Lifecycle.new
        (record { event = ""; state = "" }) reached refl).1
      [] refl

lane_of_iff_example :
    (((view loading_a "a").life.state ≡ loaded)
      × ((w : Loaded) × ((view loading_a "a").weights ≡ some w)
          × ((lane_of {G = ℕ} loading_a 6 "a").1 ≡ answer w)))
    ⊎ (((view loading_a "a").life.state ≢ loaded)
        × ((lane_of {G = ℕ} loading_a 6 "a").1
            ≡ failing (not_loaded "a" (name (view loading_a "a").life.state))))
lane_of_iff_example = lane_of_iff whole_gib one_file two_ids 6 "a" reached

exclusive_group_lem_example :
    (wanted (view loading_a "a").life ≡ false) ⊎ (wanted (view loading_a "b").life ≡ false)
unfolding same
exclusive_group_lem_example =
    exclusive_group_lem whole_gib one_file two_ids "a" "b" "stt" reached
      (λ e. ground (arith, same_iff "a" "b"))

abbrev loaded_status : ModelStatus
loaded_status = record { id = "a"; state = loading; resident = true; since = 5 }

load-answer_example : loading ≡ after_load (view started "a").life.state
load-answer_example =
    (load-answer whole_gib one_file two_ids room catalog 5 "a" started loaded_status first_load).3

abbrev second_status : ModelStatus
second_status = record { id = "b"; state = loading; resident = true; since = 6 }

both_requested :
    (load whole_gib one_file two_ids room catalog 6 "b" loading_a).1 ≡ answer second_status
unfolding run
both_requested = refl
