-- ===== src/TrainingMemory.antt =====
-- src/wake_word/memory.rs: whether a stage of a wake-word training may start, and the wait until it
-- may. Amounts are bytes (`u64`), times milliseconds. The share of the total that stays free
-- (`total as f64 * 0.10`, an `f64`) is an argument; a reason carries its numbers, not its text.
pub mod Laws
mod Waiting
mod Tests
use studio_worker.Base.{
  ℕ, ◌+◌, ◌-◌, ◌*◌, ◌%◌, ◌^◌, min, String, Bool, true, false, Option, none, some, List, [], ◌∷◌,
  ◌++◌, ltb, leb, if◌then◌else◌,
}
use studio_worker.Admission.{Limit, unlimited, bytes}

abbrev pub gib : ℕ
gib = 2 ^ 30

abbrev pub reserve_margin : ℕ
reserve_margin = 2 * gib

-- `Phase`, of src/wake_word/stage.rs; `packaging` is `Package`.
pub data Phase : Type 0 where
  provision download prepare samples features train evaluate packaging waiting_for_memory : Phase

unfoldable pub is_train : Phase → Bool
is_train train = true
is_train _ = false

unfoldable pub need : Phase → ℕ
unfolding is_train
need phase = if is_train phase then 12 * gib else 4 * gib

pub record Snapshot : Type 0 where
  pub total : ℕ
  pub available : ℕ
  pub scope_headroom : Option ℕ

pub data Why : Type 0 where
  -- What is available, the need, what stays free.
  machine : ℕ → ℕ → ℕ → Why
  -- The headroom, the need.
  scope : ℕ → ℕ → Why

pub data Verdict : Type 0 where
  admit : Verdict
  wait : Why → Verdict

-- A limit file's parsed text as a number of bytes.
in_bytes : Option Limit → Option ℕ
in_bytes (some (bytes n)) = some n
in_bytes (some unlimited) = none
in_bytes none = none

lower : Option ℕ → Option ℕ → Option ℕ
lower (some h) (some m) = some (min h m)
lower (some h) none = some h
lower none m = m

or_zero : Option ℕ → ℕ
or_zero none = 0
or_zero (some n) = n

less : Option ℕ → ℕ → Option ℕ
less none used = none
less (some n) used = some (n - used)

-- `scope_headroom`, of the two parsed limits and the parsed anonymous bytes.
unfoldable pub headroom : Option Limit → Option Limit → Option ℕ → Option ℕ
unfolding in_bytes lower or_zero less
headroom high max anon = less (lower (in_bytes high) (in_bytes max)) (or_zero anon)

in_scope : Option ℕ → ℕ → Verdict
in_scope none need_bytes = admit
in_scope (some room) need_bytes =
    if ltb room need_bytes then wait (scope room need_bytes) else admit

-- The sums are `u64`.
unfoldable pub verdict : (ℕ → ℕ) → ℕ → Snapshot → Verdict
unfolding in_scope
verdict share need_bytes now =
    let reserve = (share now.total + reserve_margin) % 2 ^ 64 in
    if ltb now.available ((need_bytes + reserve) % 2 ^ 64)
    then wait (machine now.available need_bytes reserve)
    else in_scope now.scope_headroom need_bytes

pub data Waited : Type 0 where
  admitted : ℕ → Waited
  unknown cancelled : Waited
  timed_out : Why → Waited

-- One round of the loop: is it cancelled, what does the probe read, the time since the start.
pub record Look : Type 0 where
  pub is_cancelled : Bool
  pub probed : Option Snapshot
  pub elapsed : ℕ

judge : Verdict → ℕ → ℕ → List Why × Option Waited → List Why × Option Waited
judge admit timeout elapsed rest = ([], some (admitted elapsed))
judge (wait why) timeout elapsed rest =
    if leb timeout elapsed then ([], some (timed_out why)) else (why ∷ rest.0, rest.1)

round :
    (ℕ → ℕ)
    → ℕ
    → ℕ
    → Bool
    → Option Snapshot
    → ℕ
    → List Why × Option Waited
    → List Why × Option Waited
unfolding verdict judge
round share need_bytes timeout true probed elapsed rest = ([], some cancelled)
round share need_bytes timeout false none elapsed rest = ([], some unknown)
round share need_bytes timeout false (some now) elapsed rest =
    judge (verdict share need_bytes now) timeout elapsed rest

-- What `on_wait` was told in the rounds that came, and how the wait ended (`none`: not yet).
unfoldable pub wait_for : (ℕ → ℕ) → ℕ → ℕ → List Look → List Why × Option Waited
unfolding round
wait_for share need_bytes timeout [] = ([], none)
wait_for share need_bytes timeout (l ∷ ls) =
    let rest = wait_for share need_bytes timeout ls in
    round share need_bytes timeout l.is_cancelled l.probed l.elapsed rest
