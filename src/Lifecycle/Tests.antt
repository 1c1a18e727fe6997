-- ===== src/Lifecycle/Tests.antt =====
-- Runs of the lifecycle, and its theorems at concrete inputs.
use studio_worker.Base.{false, ◌≡◌, refl}
use studio_worker.Lifecycle.{
  loading, unloading, begin_load, begin_unload, Lifecycle, new, done, ok, request_load,
  request_unload, load_finished,
}
use studio_worker.Lifecycle.Laws.{Worker}

abbrev on_its_way : Lifecycle
on_its_way = record { state = loading; unload_pending = false }

load_from_new : request_load new ≡ (on_its_way, begin_load)
unfolding request_load new
load_from_new = refl

unload_while_loading :
    load_finished done (request_unload on_its_way).0
    ≡ (record { state = unloading; unload_pending = false }, ok begin_unload)
unfolding load_finished request_unload
unload_while_loading = refl

abbrev started : Worker
started = record { life = on_its_way; loads = 1; unloads = 0 }
