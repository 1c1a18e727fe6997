-- ===== src/Admission/Tests.antt =====
-- The admission theorems at concrete inputs, in whole GiB.
use studio_worker.Base.{ℕ, ◌*◌, ◌^◌, true, ◌≡◌, refl, none, some, [], ◌∷◌}
use studio_worker.Admission.{
  device, MemoryNeed, MemoryProbe, refused, Refused, Weights, admit_transient, host_need_gib,
  whole_gib,
}

abbrev probe : MemoryProbe ℕ
probe = record { free_gib = none; total_gib = some 24; host_available_gib = some 30 }

abbrev offloading : MemoryNeed ℕ
offloading = record { device_gib = 12; host_gib = some 14 }

abbrev weights : Weights
weights = record {
  offload_to_cpu = some true;
  mmap = none;
  approx_bytes = some (3 * 2 ^ 30) ∷ none ∷ [];
}

weights_need : host_need_gib whole_gib weights ≡ some 3
unfolding host_need_gib
weights_need = refl

refused_run :
    admit_transient whole_gib probe 12 offloading
    ≡ refused (record { memory = device; needed_gib = 12; free_gib = 12; margin_gib = 1 })
unfolding admit_transient
refused_run = refl

abbrev too_much : Refused ℕ
too_much = record { memory = device; needed_gib = 12; free_gib = 12; margin_gib = 1 }
