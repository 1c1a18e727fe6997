-- ===== src/Admission/Laws.antt =====
-- What admission (src/admission.rs) decides, on every branch.
use studio_worker.Base.{true, ◌≡◌, ◌≢◌, Option, none, some, arith, ◌↔◌, ◌⊎◌}
use studio_worker.Admission.{
  Measure, device, host, MemoryNeed, Weights, MemoryProbe, Refused, admitted, refused,
  admission_margin, host_ram_margin, host_need_gib, admit_transient,
}

module _ {G : Type 0} (m : Measure G) where
  open m use {minus, greater, within, gib}

  -- The device has room: by its probe, else by its total less what is loaded, else unmeasured.
  abbrev pub DeviceRoom : Option G → Option G → G → G → Type 0
  DeviceRoom (some free) total loaded needed = within needed (minus free (gib 1)) ≡ true
  DeviceRoom none (some total) loaded needed =
      within needed (minus (greater (minus total loaded) (gib 0)) (gib 1)) ≡ true
  DeviceRoom none none loaded needed = Unit

  -- The host has room: nothing is needed of it, it is not measured, or 4 GiB stay free.
  abbrev pub HostRoom : Option G → Option G → Type 0
  HostRoom none available = Unit
  HostRoom (some needed) none = Unit
  HostRoom (some needed) (some available) = within needed (minus available (gib 4)) ≡ true

  transient_parts :
      (free total avail : Option G) (loaded needed : G) (need : Option G)
      → (admit_transient m
            (record { free_gib = free; total_gib = total; host_available_gib = avail })
            loaded
            (record { device_gib = needed; host_gib = need })
          ≡ admitted)
        ↔ (DeviceRoom free total loaded needed × HostRoom need avail)
  unfolding admit_transient host_ram_margin admission_margin
  transient_parts (some f) t (some a) loaded needed (some n) = ground arith
  transient_parts (some f) t none loaded needed (some n) = ground arith
  transient_parts (some f) t a loaded needed none = ground arith
  transient_parts none (some t) (some a) loaded needed (some n) = ground arith
  transient_parts none (some t) none loaded needed (some n) = ground arith
  transient_parts none (some t) a loaded needed none = ground arith
  transient_parts none none (some a) loaded needed (some n) = ground arith
  transient_parts none none none loaded needed (some n) = ground arith
  transient_parts none none a loaded needed none = ground arith

  -- A transient job is admitted exactly when the device has room (by the live probe, else by the
  -- total less the loaded estimates, never below zero, each with 1 GiB kept free; unmeasured memory
  -- admits) and the host has room for the weights that it keeps there (4 GiB kept free).
  admit_transient-admitted_iff :
      (p : MemoryProbe G) (loaded : G) (need : MemoryNeed G)
      → (admit_transient m p loaded need ≡ admitted) ↔ (
          DeviceRoom p.free_gib p.total_gib loaded need.device_gib
          × HostRoom need.host_gib p.host_available_gib)
  admit_transient-admitted_iff p loaded need =
      transient_parts p.free_gib p.total_gib p.host_available_gib loaded need.device_gib
        need.host_gib

  transient_refusal :
      (free total avail : Option G) (loaded needed : G) (need : Option G) (r : Refused G)
      → admit_transient m
          (record { free_gib = free; total_gib = total; host_available_gib = avail })
          loaded
          (record { device_gib = needed; host_gib = need })
        ≡ refused r
      → ((r.memory ≡ device)
          × (r.needed_gib ≡ needed)
          × (r.margin_gib ≡ gib 1)
          × ¬ DeviceRoom free total loaded needed)
        ⊎ ((r.memory ≡ host)
            × (need ≡ some r.needed_gib)
            × (avail ≡ some r.free_gib)
            × (r.margin_gib ≡ gib 4)
            × DeviceRoom free total loaded needed
            × ¬ HostRoom need avail)
  unfolding admit_transient host_ram_margin admission_margin
  transient_refusal (some f) t (some a) loaded needed (some n) r e = ground arith
  transient_refusal (some f) t none loaded needed (some n) r e = ground arith
  transient_refusal (some f) t a loaded needed none r e = ground arith
  transient_refusal none (some t) (some a) loaded needed (some n) r e = ground arith
  transient_refusal none (some t) none loaded needed (some n) r e = ground arith
  transient_refusal none (some t) a loaded needed none r e = ground arith
  transient_refusal none none (some a) loaded needed (some n) r e = ground arith
  transient_refusal none none none loaded needed (some n) r e = ground arith
  transient_refusal none none a loaded needed none r e = ground arith

  -- A refusal names the memory that lacks room: the device with the job's device need and the 1 GiB
  -- margin, or, only if the device has room, the host with the host need, the available host memory
  -- and the 4 GiB margin.
  admit_transient-refused :
      (p : MemoryProbe G) (loaded : G) (need : MemoryNeed G) (r : Refused G)
      → admit_transient m p loaded need ≡ refused r
      → ((r.memory ≡ device)
          × (r.needed_gib ≡ need.device_gib)
          × (r.margin_gib ≡ gib 1)
          × ¬ DeviceRoom p.free_gib p.total_gib loaded need.device_gib)
        ⊎ ((r.memory ≡ host)
            × (need.host_gib ≡ some r.needed_gib)
            × (p.host_available_gib ≡ some r.free_gib)
            × (r.margin_gib ≡ gib 4)
            × DeviceRoom p.free_gib p.total_gib loaded need.device_gib
            × ¬ HostRoom need.host_gib p.host_available_gib)
  admit_transient-refused p loaded need r e =
      transient_refusal p.free_gib p.total_gib p.host_available_gib loaded need.device_gib
        need.host_gib r e

  -- A job needs host memory exactly when its engine offloads the weights to the CPU and does not
  -- map them.
  host_need_gib_iff :
      (w : Weights)
      → (host_need_gib m w ≢ none) ↔ ((w.offload_to_cpu ≡ some true) × (w.mmap ≢ some true))
  unfolding host_need_gib
  host_need_gib_iff w = ground arith
