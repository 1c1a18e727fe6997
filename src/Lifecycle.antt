-- ===== src/Lifecycle.antt =====
-- src/lifecycle.rs: one model's lifecycle, as the pure state machine that the model host drives.
pub mod Laws
mod Tests
use studio_worker.Base.{ℕ, String, Bool, true, false, ◌≡◌, if◌then◌else◌}

pub data ModelState : Type 0 where
  unloaded loading loaded unloading : ModelState
  failed : String → ModelState

-- The name used on the wire and in logs.
pub name : ModelState → String
name unloaded = "unloaded"
name loading = "loading"
name loaded = "loaded"
name unloading = "unloading"
name (failed _) = "failed"

unfoldable pub serves : ModelState → Bool
serves loaded = true
serves _ = false

pub data Command : Type 0 where
  nothing begin_load begin_unload : Command

pub record UnexpectedEvent : Type 0 where
  pub event : String
  pub state : String

pub record Lifecycle : Type 0 where
  pub state : ModelState
  pub unload_pending : Bool

unfoldable pub new : Lifecycle
new = record { state = unloaded; unload_pending = false }

-- `Result<(), String>`: how a load or an unload ended.
pub data Outcome : Type 0 where
  done : Outcome
  broken : String → Outcome

-- `Result<Command, UnexpectedEvent>`.
pub data Reply : Type 0 where
  ok : Command → Reply
  err : UnexpectedEvent → Reply

load_from : ModelState → Lifecycle → Lifecycle × Command
load_from unloaded l = (record l { state = loading }, begin_load)
load_from (failed _) l = (record l { state = loading }, begin_load)
load_from loading l = (record l { unload_pending = false }, nothing)
load_from loaded l = (l, nothing)
load_from unloading l = (l, nothing)

unfoldable pub request_load : Lifecycle → Lifecycle × Command
unfolding load_from
request_load l = load_from l.state l

unload_from : ModelState → Lifecycle → Lifecycle × Command
unload_from loaded l = (record l { state = unloading }, begin_unload)
unload_from loading l = (record l { unload_pending = true }, nothing)
unload_from (failed _) l = (record l { state = unloaded }, nothing)
unload_from unloaded l = (l, nothing)
unload_from unloading l = (l, nothing)

unfoldable pub request_unload : Lifecycle → Lifecycle × Command
unfolding unload_from
request_unload l = unload_from l.state l

pub unexpected : String → Lifecycle → UnexpectedEvent
unexpected event l = record { event = event; state = name l.state }

settle_load : Bool → Outcome → Lifecycle × Reply
settle_load true done = (record { state = unloading; unload_pending = false }, ok begin_unload)
settle_load false done = (record { state = loaded; unload_pending = false }, ok nothing)
settle_load _ (broken reason) =
    (record { state = failed reason; unload_pending = false }, ok nothing)

load_finished_in : ModelState → Outcome → Lifecycle → Lifecycle × Reply
unfolding settle_load
load_finished_in loading outcome l = settle_load l.unload_pending outcome
load_finished_in _ outcome l = (l, err (unexpected "load_finished" l))

unfoldable pub load_finished : Outcome → Lifecycle → Lifecycle × Reply
unfolding load_finished_in
load_finished outcome l = load_finished_in l.state outcome l

settle_unload : Outcome → ModelState
settle_unload done = unloaded
settle_unload (broken reason) = failed reason

unload_finished_in : ModelState → Outcome → Lifecycle → Lifecycle × Reply
unfolding settle_unload
unload_finished_in unloading outcome l = (record l { state = settle_unload outcome }, ok nothing)
unload_finished_in _ outcome l = (l, err (unexpected "unload_finished" l))

unfoldable pub unload_finished : Outcome → Lifecycle → Lifecycle × Reply
unfolding unload_finished_in
unload_finished outcome l = unload_finished_in l.state outcome l
