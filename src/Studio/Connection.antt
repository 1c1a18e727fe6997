-- ===== src/Studio/Connection.antt =====
-- The connection of a studio session and its reconnects (src/ws/session.rs).
use studio_worker.Base.{ℕ, String, Bool, true, Option, List, [], ◌∷◌, length}
use studio_worker.Admission.{Measure, MemoryProbe}
use studio_worker.Catalog.{CatalogModel}
use studio_worker.Studio.Frames.{JobOfferClaim}
use studio_worker.Studio.Worker.{Worker}
use studio_worker.Studio.Offers.{handle_offer}

pub data WorkerErrorCode : Type 0 where
  auth_failed protocol_violation duplicate_worker worker_deleted internal_error : WorkerErrorCode

-- `WorkerOutbound`.
pub data WorkerOutbound (G P : Type 0) : Type 0 where
  welcome : String → String → WorkerOutbound G P
  offer : JobOfferClaim G P → WorkerOutbound G P
  heartbeat_ack : WorkerOutbound G P
  complete_ack fail_ack : String → WorkerOutbound G P
  error : WorkerErrorCode → String → WorkerOutbound G P

pub data WsClientError : Type 0 where
  auth_failed registration_revoked transport protocol : String → WsClientError
  connection_closed : WsClientError

pub data SessionEvent (G P : Type 0) : Type 0 where
  frame : WorkerOutbound G P → SessionEvent G P
  stopped : SessionEvent G P
  disconnected : WsClientError → SessionEvent G P

pub data WelcomeOutcome : Type 0 where
  welcomed disconnected : WelcomeOutcome
  auth_failed registration_revoked fatal : String → WelcomeOutcome

pub data SessionOutcome : Type 0 where
  stopped disconnected : SessionOutcome
  auth_failed registration_revoked fatal : String → SessionOutcome

-- `SessionState`, as the user is shown it.
pub data SessionState : Type 0 where
  waiting_for_approval connecting connected stopped : SessionState
  reconnecting : ℕ → SessionState
  auth_failed fatal : String → SessionState

-- A session's state in the worker; `acked` says that the last heartbeat noted was an ack.
pub record Online (G P : Type 0) : Type 0 where
  pub worker : Worker G P
  pub session_state : SessionState
  pub acked : Bool

unfoldable pub refusal : WorkerErrorCode → String → WelcomeOutcome
refusal WorkerErrorCode.auth_failed message = WelcomeOutcome.auth_failed message
refusal worker_deleted message = WelcomeOutcome.registration_revoked message
refusal protocol_violation message = WelcomeOutcome.fatal message
refusal duplicate_worker message = WelcomeOutcome.fatal message
refusal internal_error message = WelcomeOutcome.fatal message

unfoldable pub server_error : WorkerErrorCode → String → SessionOutcome
server_error WorkerErrorCode.auth_failed message = SessionOutcome.auth_failed message
server_error worker_deleted message = SessionOutcome.registration_revoked message
server_error protocol_violation message = SessionOutcome.fatal message
server_error duplicate_worker message = SessionOutcome.fatal message
server_error internal_error message = SessionOutcome.fatal message

module _ {G P : Type 0} where
  -- What was found, and the events that the dispatch loop is left. The channel closes at the end.
  unfoldable pub wait_for_welcome :
      List (SessionEvent G P) → WelcomeOutcome × List (SessionEvent G P)
  unfolding refusal
  wait_for_welcome [] = (WelcomeOutcome.disconnected, [])
  wait_for_welcome (frame (welcome id time) ∷ es) = (welcomed, es)
  wait_for_welcome (frame (error code message) ∷ es) = (refusal code message, es)
  wait_for_welcome (frame (offer claim) ∷ es) = wait_for_welcome es
  wait_for_welcome (frame heartbeat_ack ∷ es) = wait_for_welcome es
  wait_for_welcome (frame (complete_ack id) ∷ es) = wait_for_welcome es
  wait_for_welcome (frame (fail_ack id) ∷ es) = wait_for_welcome es
  wait_for_welcome (disconnected (WsClientError.auth_failed reason) ∷ es) =
      (WelcomeOutcome.auth_failed reason, es)
  wait_for_welcome (disconnected (WsClientError.registration_revoked reason) ∷ es) =
      (WelcomeOutcome.registration_revoked reason, es)
  wait_for_welcome (disconnected (transport message) ∷ es) = (WelcomeOutcome.disconnected, es)
  wait_for_welcome (disconnected (protocol message) ∷ es) = (WelcomeOutcome.disconnected, es)
  wait_for_welcome (disconnected connection_closed ∷ es) = (WelcomeOutcome.disconnected, es)
  wait_for_welcome (SessionEvent.stopped ∷ es) = (WelcomeOutcome.disconnected, es)

  unfoldable pub in_state : SessionState → Online G P → Online G P
  in_state state s = record s { session_state = state }

-- `readings` is what the memory probe says when an offer comes, by how many events are to follow.
module _ {G P : Type 0} (m : Measure G) (eq : CatalogModel G P → CatalogModel G P → Bool)
    (readings : ℕ → Option (MemoryProbe G × G)) where
  -- `run_dispatch_loop`.
  unfoldable pub run_dispatch_loop :
      List (SessionEvent G P) → Online G P → SessionOutcome × Online G P
  unfolding server_error
  run_dispatch_loop [] s = (SessionOutcome.disconnected, s)
  run_dispatch_loop (disconnected (WsClientError.auth_failed reason) ∷ es) s =
      (SessionOutcome.auth_failed reason, s)
  run_dispatch_loop (disconnected (WsClientError.registration_revoked reason) ∷ es) s =
      (SessionOutcome.registration_revoked reason, s)
  run_dispatch_loop (disconnected (transport message) ∷ es) s = (SessionOutcome.disconnected, s)
  run_dispatch_loop (disconnected (protocol message) ∷ es) s = (SessionOutcome.disconnected, s)
  run_dispatch_loop (disconnected connection_closed ∷ es) s = (SessionOutcome.disconnected, s)
  run_dispatch_loop (SessionEvent.stopped ∷ es) s = (SessionOutcome.stopped, s)
  run_dispatch_loop (frame (welcome id time) ∷ es) s = run_dispatch_loop es s
  run_dispatch_loop (frame (offer claim) ∷ es) s =
      run_dispatch_loop es
        (record s { worker = handle_offer m eq (readings (length es)) claim s.worker })
  run_dispatch_loop (frame (error code message) ∷ es) s = (server_error code message, s)
  run_dispatch_loop (frame (complete_ack id) ∷ es) s = run_dispatch_loop es s
  run_dispatch_loop (frame (fail_ack id) ∷ es) s = run_dispatch_loop es s
  run_dispatch_loop (frame heartbeat_ack ∷ es) s = run_dispatch_loop es (record s { acked = true })
