-- ===== src/MemoryCeiling.antt =====
-- src/memory_ceiling.rs: the ceiling of the worker's memory scope, and whether it is in effect.
mod Laws
mod Tests
use studio_worker.Base.{
  ℕ, zero, suc, ◌+◌, ◌≤◌, String, Bool, true, false, ◌&&◌, Option, none, some, List, [], ◌∷◌, ◌++◌,
  leb, same, push_str, if◌then◌else◌,
}
use studio_worker.Admission.{Limit, unlimited, bytes}
use Prim.Native.String.{slice, len}
use text.Mathlib.Text.{starts_with}

pub record MemoryCeiling : Type 0 where
  pub max_gb : ℕ

abbrev pub default_memory_max_gb : ℕ
default_memory_max_gb = 32

abbrev pub min_memory_max_gb : ℕ
min_memory_max_gb = 4

abbrev pub max_memory_max_gb : ℕ
max_memory_max_gb = 1024

-- `MemoryCeiling::new`; `none` is `OutOfRange`.
unfoldable pub ceiling : ℕ → Option MemoryCeiling
ceiling max_gb =
    if leb min_memory_max_gb max_gb && leb max_gb max_memory_max_gb
    then some (record { max_gb = max_gb })
    else none

unfoldable pub or_default : ℕ → MemoryCeiling
unfolding ceiling
or_default max_gb = elim (ceiling max_gb) [
  | none ↦ record { max_gb = default_memory_max_gb }
  | some c ↦ c
]

-- `decimal` prints a number; `high_mib` is the floor of nine tenths of the ceiling in MiB, in `f64`.
module _ (decimal : ℕ → String) (high_mib : ℕ → ℕ) where
  unfoldable pub memory_max : MemoryCeiling → String
  memory_max c = push_str (decimal c.max_gb) "G"

  unfoldable pub memory_high : MemoryCeiling → String
  memory_high c = push_str (decimal (high_mib c.max_gb)) "M"

  unfoldable pub launcher : MemoryCeiling → List String
  unfolding memory_max memory_high
  launcher c =
      "systemd-run"
      ∷ "--user"
      ∷ "--scope"
      ∷ "--unit=studio-worker"
      ∷ "--collect"
      ∷ "--quiet"
      ∷ "-p"
      ∷ push_str "MemoryHigh=" (memory_high c)
      ∷ "-p"
      ∷ push_str "MemoryMax=" (memory_max c)
      ∷ []

  unfoldable pub tray_argv : Option MemoryCeiling → String → List String → List String
  unfolding launcher
  tray_argv none exe args = exe ∷ args
  tray_argv (some c) exe args = launcher c ++ exe ∷ args

-- What follows the last `/` that stands before the position `k`, or all of it.
unfoldable pub last_segment : ℕ → String → String
last_segment zero path = path
last_segment (suc k) path =
    let rest = last_segment k path in
    if starts_with (slice path k (len path)) "/" then slice path (k + 1) (len path) else rest

unfoldable pub is_worker_scope : String → Bool
unfolding last_segment
is_worker_scope cgroup = same (last_segment (len cgroup) cgroup) "studio-worker.scope"

pub record Effective : Type 0 where
  pub cgroup : String
  pub max : Option Limit
  pub high : Option Limit

pub data Assessment : Type 0 where
  in_effect : String → Limit → Option Limit → Assessment
  not_in_scope no_limit : String → Assessment
  unknown : Assessment

limited : Effective → Option Limit → Assessment
limited e (some (bytes n)) = in_effect e.cgroup (bytes n) e.high
limited e (some unlimited) = no_limit e.cgroup
limited e none = no_limit e.cgroup

unfoldable pub assess : Option Effective → Assessment
unfolding is_worker_scope limited
assess none = unknown
assess (some e) = if is_worker_scope e.cgroup then limited e e.max else not_in_scope e.cgroup
