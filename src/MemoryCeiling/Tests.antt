-- ===== src/MemoryCeiling/Tests.antt =====
-- The memory ceiling at concrete inputs.
use studio_worker.Base.{true, ◌≡◌, refl, some, none, same}
use studio_worker.Admission.{bytes}
use studio_worker.MemoryCeiling.{or_default, is_worker_scope, Effective, in_effect, assess}

abbrev scoped : Effective
scoped = record {
  cgroup = "/user.slice/studio-worker.scope";
  max = some (bytes 34359738368);
  high = none;
}

scope_run : is_worker_scope scoped.cgroup ≡ true
unfolding is_worker_scope same
scope_run = refl

in_effect_run : assess (some scoped) ≡ in_effect scoped.cgroup (bytes 34359738368) none
unfolding assess same
in_effect_run = refl

default_run : or_default 2000 ≡ record { max_gb = 32 }
unfolding or_default
default_run = refl
