-- ===== src/Admission.antt =====
-- src/admission.rs: whether a load or a transient job fits in device and host memory now.
-- Amounts of memory are `f32` GiB in the source; here they are a type with the operations that the
-- code uses, a parameter of every definition.
pub mod Laws
mod Tests
use studio_worker.Base.{
  ℕ, zero, suc, ◌+◌, ◌-◌, ◌*◌, ◌/◌, ◌%◌, ◌^◌, ◌≤◌, ◌<◌, min, max, String, Bool, true, false, not,
  ◌&&◌, ◌||◌, ◌≡◌, ◌≢◌, refl, sym, ap, ◌∙◌, subst, Option, none, some, List, [], ◌∷◌, ◌++◌, map,
  reverse, arith, ◌↔◌, inl, inr, ◌⊎◌, if◌then◌else◌, ltb, leb, ◌==◌, same, same_iff, same_refl,
  ltb→lt, lt→ltb, leb→le, ==_iff, tests, Bool-cases, Option-cases, length, get_elem?, take, drop,
  replicate, keep, any, All, length-append, length-take, length-drop, length-replicate,
  take-append-drop,
}

-- The arithmetic of `f32` amounts: `gib n` is the constant n.0, `of_bytes` is `bytes as f64 / GIB`.
pub record Measure (G : Type 0) : Type 0 where
  pub plus : G → G → G
  pub minus : G → G → G
  pub greater : G → G → G
  pub lesser : G → G → G
  pub within : G → G → Bool
  pub is_zero : G → Bool
  pub gib : ℕ → G
  pub of_bytes : ℕ → G

pub data MemoryKind : Type 0 where
  device host : MemoryKind

pub record MemoryNeed (G : Type 0) : Type 0 where
  pub device_gib : G
  pub host_gib : Option G

-- What `host_need_gib` reads of a model's source: the two CLI defaults and each file's `approxBytes`.
pub record Weights : Type 0 where
  pub offload_to_cpu : Option Bool
  pub mmap : Option Bool
  pub approx_bytes : List (Option ℕ)

-- `memory_ceiling::Limit`.
pub data Limit : Type 0 where
  unlimited : Limit
  bytes : ℕ → Limit

-- One reading of the memory probe.
pub record MemoryProbe (G : Type 0) : Type 0 where
  pub free_gib : Option G
  pub total_gib : Option G
  pub host_available_gib : Option G

pub data FreeMemory (G : Type 0) : Type 0 where
  probed : G → FreeMemory G
  accounted : G → G → FreeMemory G
  unknown : FreeMemory G

pub record Refused (G : Type 0) : Type 0 where
  pub memory : MemoryKind
  pub needed_gib : G
  pub free_gib : G
  pub margin_gib : G

-- `Result<(), Refused>`.
pub data Verdict (G : Type 0) : Type 0 where
  admitted : Verdict G
  refused : Refused G → Verdict G

is_some_true : Option Bool → Bool
is_some_true (some b) = b
is_some_true none = false

-- `u64` addition wraps in the release profile, which turns overflow checks off.
sum_bytes : List (Option ℕ) → ℕ
sum_bytes [] = 0
sum_bytes (none ∷ fs) = sum_bytes fs
sum_bytes (some b ∷ fs) = (b + sum_bytes fs) % 2 ^ 64

module _ {G : Type 0} (m : Measure G) where
  open m use {plus, minus, greater, lesser, within, is_zero, gib, of_bytes}

  unfoldable pub admission_margin : G
  admission_margin = gib 1

  unfoldable pub host_ram_margin : G
  host_ram_margin = gib 4

  unfoldable pub host_need_gib : Weights → Option G
  unfolding is_some_true sum_bytes
  host_need_gib w =
      if not (is_some_true w.offload_to_cpu) || is_some_true w.mmap
      then none
      else some (of_bytes (sum_bytes w.approx_bytes))

  unfoldable pub need_of : G → Weights → MemoryNeed G
  unfolding host_need_gib
  need_of device_gib w = record { device_gib = device_gib; host_gib = host_need_gib w }

  headroom : Option (Limit × ℕ) → Option G
  headroom (some (bytes cap, anon)) = some (of_bytes (cap - anon))
  headroom (some (unlimited, _)) = none
  headroom none = none

  capped : Option G → Option G → Option G
  capped (some a) (some h) = some (lesser a h)
  capped (some a) none = some a
  capped none h = h

  unfoldable pub host_available_gib : Option G → Option (Limit × ℕ) → Option G
  unfolding headroom capped
  host_available_gib mem_available cgroup = capped mem_available (headroom cgroup)

  unfoldable pub admit_host : G → G → Verdict G
  unfolding host_ram_margin
  admit_host needed available =
      if within needed (minus available host_ram_margin)
      then admitted
      else refused (record {
        memory = host;
        needed_gib = needed;
        free_gib = available;
        margin_gib = host_ram_margin;
      })

  unfoldable pub gib_of : FreeMemory G → G
  gib_of (probed g) = g
  gib_of (accounted total loaded) = greater (minus total loaded) (gib 0)
  gib_of unknown = gib 0

  total_less : Option G → G → FreeMemory G
  total_less (some total) loaded = accounted total loaded
  total_less none loaded = unknown

  free_from : Option G → Option G → G → FreeMemory G
  unfolding total_less
  free_from (some g) total loaded = probed g
  free_from none total loaded = total_less total loaded

  unfoldable pub free_now : MemoryProbe G → G → FreeMemory G
  unfolding free_from
  free_now probe loaded = free_from probe.free_gib probe.total_gib loaded

  unfoldable pub is_unknown : FreeMemory G → Bool
  is_unknown unknown = true
  is_unknown (probed _) = false
  is_unknown (accounted _ _) = false

  unfoldable pub admit : G → FreeMemory G → Verdict G
  unfolding gib_of is_unknown admission_margin
  admit needed free =
      if not (is_unknown free) && within needed (minus (gib_of free) admission_margin)
      then admitted
      else refused (record {
        memory = device;
        needed_gib = needed;
        free_gib = gib_of free;
        margin_gib = admission_margin;
      })

  host_verdict : Option G → Option G → Verdict G
  unfolding admit_host
  host_verdict (some needed) (some available) = admit_host needed available
  host_verdict (some needed) none = admitted
  host_verdict none _ = admitted

  and_then : Verdict G → Verdict G → Verdict G
  and_then admitted v = v
  and_then (refused r) v = refused r

  -- `ModelHost::admit_transient` (src/host.rs), given the sum of the loaded estimates.
  unfoldable pub admit_transient : MemoryProbe G → G → MemoryNeed G → Verdict G
  unfolding free_now is_unknown admit host_verdict and_then
  admit_transient probe loaded need =
      let free = free_now probe loaded in
      and_then (if is_unknown free then admitted else admit need.device_gib free)
        (host_verdict need.host_gib probe.host_available_gib)

  -- `credit` (src/host.rs): the memory that a swap will free.
  unfoldable pub credit : FreeMemory G → G → FreeMemory G
  unfolding gib_of
  credit unknown freed = unknown
  credit (probed g) freed = if is_zero freed then probed g else probed (plus g freed)
  credit (accounted t l) freed =
      if is_zero freed then accounted t l else probed (plus (gib_of (accounted t l)) freed)

-- Whole GiB as natural numbers: a concrete arithmetic for tests and instances.
abbrev pub whole_gib : Measure ℕ
whole_gib = record {
  plus = λ a b. a + b;
  minus = λ a b. a - b;
  greater = λ a b. max a b;
  lesser = λ a b. min a b;
  within = leb;
  is_zero = λ a. a == 0;
  gib = λ n. n;
  of_bytes = λ b. b / 2 ^ 30;
}
