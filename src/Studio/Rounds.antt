-- ===== src/Studio/Rounds.antt =====
-- The attempts of a studio session to connect (src/ws/session.rs).
use studio_worker.Base.{
  ℕ, ◌+◌, ◌-◌, ◌*◌, ◌^◌, ◌%◌, min, String, Bool, true, false, ◌&&◌, ◌||◌, not, Option, none, some,
  List, [], ◌∷◌, ltb, same, if◌then◌else◌,
}
use studio_worker.Admission.{Measure, MemoryProbe}
use studio_worker.Catalog.{CatalogModel}
use studio_worker.Studio.Connection.{
  WsClientError, connection_closed, transport, protocol, SessionEvent, WelcomeOutcome,
  SessionOutcome, SessionState, connecting, connected, reconnecting, waiting_for_approval, Online,
  wait_for_welcome, in_state, run_dispatch_loop,
}

-- What the outside answers to one attempt: does the socket open, does the engine build and the hello
-- go out (an error each), and which events the reader brings.
pub record Attempt (G P : Type 0) : Type 0 where
  pub worker_id : String
  pub auth_token : String
  pub connect_error : Option WsClientError
  pub engine_error : Option String
  pub hello_error : Option String
  pub events : List (SessionEvent G P)
  pub readings : ℕ → Option (MemoryProbe G × G)

-- How an attempt ended, and whether the studio had welcomed the worker.
pub record Attempted (G P : Type 0) : Type 0 where
  -- `none` for an `Err`.
  pub outcome : Option SessionOutcome
  pub welcomed : Bool
  pub online : Online G P

module _ {G P : Type 0} where
  unfoldable pub unwelcome : Option SessionOutcome → Online G P → Attempted G P
  unwelcome outcome s = record { outcome = outcome; welcomed = false; online = s }

  unfoldable pub refused_connect : WsClientError → Online G P → Attempted G P
  unfolding unwelcome
  refused_connect (WsClientError.auth_failed reason) s =
      unwelcome (some (SessionOutcome.auth_failed reason)) s
  refused_connect (WsClientError.registration_revoked reason) s =
      unwelcome (some (SessionOutcome.registration_revoked reason)) s
  refused_connect connection_closed s = unwelcome (some SessionOutcome.disconnected) s
  refused_connect (transport message) s = unwelcome (some SessionOutcome.disconnected) s
  refused_connect (protocol message) s = unwelcome (some SessionOutcome.disconnected) s

module _ {G P : Type 0} (m : Measure G) (eq : CatalogModel G P → CatalogModel G P → Bool) where
  unfoldable pub greeted :
      (ℕ → Option (MemoryProbe G × G))
      → WelcomeOutcome × List (SessionEvent G P)
      → Online G P
      → Attempted G P
  unfolding unwelcome run_dispatch_loop in_state
  greeted readings (WelcomeOutcome.welcomed, es) s =
      let (outcome, end) = run_dispatch_loop m eq readings es (in_state connected s) in
      record { outcome = some outcome; welcomed = true; online = end }
  greeted readings (WelcomeOutcome.auth_failed reason, es) s =
      unwelcome (some (SessionOutcome.auth_failed reason)) s
  greeted readings (WelcomeOutcome.registration_revoked reason, es) s =
      unwelcome (some (SessionOutcome.registration_revoked reason)) s
  greeted readings (WelcomeOutcome.fatal reason, es) s =
      unwelcome (some (SessionOutcome.fatal reason)) s
  greeted readings (WelcomeOutcome.disconnected, es) s =
      unwelcome (some SessionOutcome.disconnected) s

  unfoldable pub opened : Option WsClientError → Attempt G P → Online G P → Attempted G P
  unfolding refused_connect greeted unwelcome wait_for_welcome
  opened (some err) a s = refused_connect err s
  opened none a s = elim a.engine_error [
    | some err ↦ unwelcome none s
    | none ↦ elim a.hello_error [
      | some err ↦ unwelcome none s
      | none ↦ greeted a.readings (wait_for_welcome a.events) s
    ]
  ]

  unfoldable pub run_one_session : Attempt G P → Online G P → Attempted G P
  unfolding opened unwelcome
  run_one_session a s =
      if same a.worker_id "" || same a.auth_token ""
      then unwelcome (some (SessionOutcome.fatal "worker_id or auth_token missing; run register")) s
      else opened a.connect_error a s

-- `SessionSchedule`, the part that times the reconnects.
pub record SessionSchedule : Type 0 where
  pub base_backoff_ms : ℕ
  pub max_backoff_ms : ℕ

unfoldable pub reconnect_exhausted : ℕ → ℕ → Bool
reconnect_exhausted max_attempts attempt = ltb 0 max_attempts && ltb max_attempts attempt

-- In milliseconds, with the saturating power and product of a `u64`.
unfoldable pub backoff_for : ℕ → SessionSchedule → ℕ
backoff_for attempt schedule =
    let factor = min (2 ^ (attempt - 1)) (2 ^ 64 - 1) in
    min (min (schedule.base_backoff_ms * factor) (2 ^ 64 - 1)) schedule.max_backoff_ms

-- How `spawn_ws_session` ended: `stopped` and `registration_revoked` are its `StudioExit`, the rest
-- its errors.
pub data Exit : Type 0 where
  stopped registration_revoked : Exit
  auth_failed fatal : String → Exit
  reconnect_cap_reached : Exit

-- One round of the loop, as the outside decides it: is a stop asked for, are there credentials.
pub record Round (G P : Type 0) : Type 0 where
  pub stop : Bool
  pub worker_id : Option String
  pub auth_token : Option String
  pub attempt : Attempt G P

-- What a round leaves: the loop's exit, or its count of failures to go on with.
pub record Looped (G P : Type 0) : Type 0 where
  pub exit : Option Exit
  pub failures : ℕ
  pub online : Online G P

unfoldable pub filled : Option String → Bool
filled none = false
filled (some text) = not (same text "")

unfoldable pub has_credentials : Option String → Option String → Bool
unfolding filled
has_credentials worker_id auth_token = filled worker_id && filled auth_token

module _ {G P : Type 0} where
  -- A `u32` counts the failures; the text of the state names their number too.
  unfoldable pub lost : ℕ → ℕ → Attempted G P → Looped G P
  unfolding reconnect_exhausted in_state
  lost max_attempts failures t =
      let attempt = ((if t.welcomed then 0 else failures) + 1) % 2 ^ 32 in
      if reconnect_exhausted max_attempts attempt
      then record {
        exit = some reconnect_cap_reached;
        failures = attempt;
        online = in_state (SessionState.fatal "gave up") t.online;
      }
      else record {
        exit = none;
        failures = attempt;
        online = in_state (reconnecting attempt) t.online;
      }

  unfoldable pub judged : ℕ → ℕ → Option SessionOutcome → Attempted G P → Looped G P
  unfolding lost in_state
  judged max_attempts failures (some SessionOutcome.stopped) t = record {
    exit = some Exit.stopped;
    failures = failures;
    online = in_state SessionState.stopped t.online;
  }
  judged max_attempts failures (some (SessionOutcome.registration_revoked reason)) t = record {
    exit = some Exit.registration_revoked;
    failures = failures;
    online = in_state waiting_for_approval t.online;
  }
  judged max_attempts failures (some (SessionOutcome.auth_failed reason)) t = record {
    exit = some (Exit.auth_failed reason);
    failures = failures;
    online = in_state (SessionState.auth_failed reason) t.online;
  }
  judged max_attempts failures (some (SessionOutcome.fatal reason)) t = record {
    exit = some (Exit.fatal reason);
    failures = failures;
    online = in_state (SessionState.fatal reason) t.online;
  }
  judged max_attempts failures (some SessionOutcome.disconnected) t = lost max_attempts failures t
  judged max_attempts failures none t = lost max_attempts failures t

  -- An exit ends the loop.
  unfoldable pub unless_over : Looped G P → Looped G P → Looped G P
  unless_over l rest = elim l.exit [ none ↦ rest | some e ↦ l ]

module _ {G P : Type 0} (m : Measure G) (eq : CatalogModel G P → CatalogModel G P → Bool) where
  unfoldable pub one_round : ℕ → ℕ → Round G P → Online G P → Looped G P
  unfolding has_credentials judged run_one_session in_state
  one_round max_attempts failures r s =
      if r.stop
      then record { exit = some Exit.stopped; failures = failures; online = s }
      else if has_credentials r.worker_id r.auth_token
      then (let t = run_one_session m eq r.attempt (in_state connecting s) in
          judged max_attempts failures t.outcome t)
      else record { exit = none; failures = failures; online = in_state waiting_for_approval s }

  -- The loop over the rounds that the outside decides; without an exit it goes on after them.
  unfoldable pub spawn_ws_session : ℕ → ℕ → List (Round G P) → Online G P → Looped G P
  unfolding one_round unless_over
  spawn_ws_session max_attempts failures [] s = record {
    exit = none;
    failures = failures;
    online = s;
  }
  spawn_ws_session max_attempts failures (r ∷ rs) s =
      let l = one_round max_attempts failures r s in
      unless_over l (spawn_ws_session max_attempts l.failures rs l.online)
