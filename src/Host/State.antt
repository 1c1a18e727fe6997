-- ===== src/Host/State.antt =====
-- src/host.rs: the host's state, and what each operation does under the `entries` lock.
-- `entries` is a function from ids: an id that it lacks reads as a new entry. A spawned thread is a
-- `Task`, which takes its later steps when the environment lets it. `now` is the clock.
use studio_worker.Base.{
  ℕ, String, Bool, true, false, Option, none, some, List, [], ◌∷◌, ◌++◌, if◌then◌else◌, same,
}
use studio_worker.Lifecycle.{
  ModelState, unloaded, loading, loaded, unloading, failed, Command, nothing, begin_load,
  begin_unload, Lifecycle, Outcome, done, broken, Reply, ok, err, UnexpectedEvent, request_load,
  request_unload, load_finished, unload_finished, serves, name,
}
use studio_worker.Lifecycle
use studio_worker.Admission.{Refused}
use studio_worker.Residency.{Residency, is_resident}

-- `Arc<dyn LoadedModel>` and `Arc<Lane>`, by their identities.
pub record Loaded : Type 0 where
  pub weights : ℕ
  pub lane : ℕ

pub record Entry : Type 0 where
  pub lifecycle : Lifecycle
  pub since : ℕ
  pub loaded : Option Loaded

pub record ModelStatus : Type 0 where
  pub id : String
  pub state : ModelState
  pub resident : Bool
  pub since : ℕ

-- A thread that `spawn_load` or `spawn_unload` started: it will report the load of a model, it has
-- yet to cancel a lane, or it waits for that lane and then frees the model.
pub data Task : Type 0 where
  loader : String → List String → Task
  unloader : String → Option ℕ → Task
  drainer : String → Task

pub record Host (F : Type 0) : Type 0 where
  pub entries : String → Option Entry
  pub residency : Residency
  pub disk : F
  pub tasks : List Task
  pub cancelled : List ℕ
  pub next_lane : ℕ
  pub published : List ModelStatus

unfoldable pub new_entry : ℕ → Entry
new_entry now = record { lifecycle = Lifecycle.new; since = now; loaded = none }

-- `or_insert_with(Entry::new)`.
abbrev pub or_new : Option Entry → ℕ → Entry
or_new none now = new_entry now
or_new (some e) now = e

abbrev pub update : (String → Option Entry) → String → Entry → String → Option Entry
update entries id e k = if same id k then some e else entries k

-- The derived `==` of `ModelState`.
unfoldable pub same_state : ModelState → ModelState → Bool
same_state unloaded unloaded = true
same_state loading loading = true
same_state loaded loaded = true
same_state unloading unloading = true
same_state (failed r) (failed s) = same r s
same_state _ _ = false

pub data HostError (G : Type 0) : Type 0 where
  unknown_model disabled : String → HostError G
  no_room : Refused G → HostError G
  not_loaded : String → String → HostError G
  lane_busy : String → HostError G
  persist : HostError G

-- `Result<T, HostError>`.
pub data Answer (G T : Type 0) : Type 0 where
  answer : T → Answer G T
  failing : HostError G → Answer G T

-- `host.inner.runtime.load(&model)`: the weights, or why they did not load.
pub data Load : Type 0 where
  weights : ℕ → Load
  failure : String → Load

unfoldable pub lane_in : Option Loaded → Option ℕ
lane_in none = none
lane_in (some l) = some l.lane

module _ {F : Type 0} where
  unfoldable pub entry : Host F → ℕ → String → Entry
  unfolding new_entry
  entry h now id = or_new (h.entries id) now

  unfoldable pub put : Host F → String → Entry → Host F
  put h id e = record h { entries = update h.entries id e }

  unfoldable pub status_of : Host F → String → Entry → ModelStatus
  unfolding is_resident
  status_of h id e = record {
    id = id;
    state = e.lifecycle.state;
    resident = is_resident h.residency id;
    since = e.since;
  }

  unfoldable pub status_locked : Host F → ℕ → String → Host F × ModelStatus
  unfolding entry put status_of
  status_locked h now id = let e = entry h now id in (put h id e, status_of h id e)

  -- Timestamp and publish a transition if the state changed; the log line is left out.
  unfoldable pub after_transition : Host F → ℕ → String → ModelState → Host F
  unfolding entry put status_of same_state
  after_transition h now id from =
      let e = entry h now id in
      let e' = record e { since = now } in
      if same_state e.lifecycle.state from
      then put h id e
      else record (put h id e') { published = h.published ++ status_of h id e' ∷ [] }

  unfoldable pub spawn_unload : Host F → ℕ → String → Host F
  unfolding entry lane_in
  spawn_unload h now id = record h {
    tasks = h.tasks ++ unloader id (lane_in (entry h now id).loaded) ∷ [];
  }

  unfoldable pub spawn_load : Host F → String → List String → Host F
  spawn_load h id wait_for_unloaded = record h {
    tasks = h.tasks ++ loader id wait_for_unloaded ∷ [];
  }

  unfoldable pub then_unload : Command → ℕ → String → Host F → Host F
  unfolding spawn_unload
  then_unload begin_unload now id h = spawn_unload h now id
  then_unload begin_load now id h = h
  then_unload nothing now id h = h

  unfoldable pub request_unload_locked : Host F → ℕ → String → Host F
  unfolding entry put after_transition then_unload request_unload
  request_unload_locked h now id =
      let e = entry h now id in
      let (l, command) = request_unload e.lifecycle in
      then_unload command now id
        (after_transition (put h id (record e { lifecycle = l })) now id e.lifecycle.state)
