-- ===== src/Lib.antt =====
-- Verification of studio-worker, the worker that serves models on one machine: it loads catalogue
-- models into device memory, serves requests on them, and takes jobs from a studio and from a local
-- API.
--
-- The parts, and how they meet: the model host (src/host.rs) owns one lifecycle machine for each
-- catalogue model (src/lifecycle.rs), asks admission (src/admission.rs) whether a load fits, and
-- writes the operator's wish to residency (src/residency.rs); the catalogue (src/catalog.rs) says
-- which models there are and which exclude one another. Around them stand the registration with
-- the studio (src/auto_register.rs), the gate for one job at a time (src/job_gate.rs), the person's
-- presence (src/presence.rs), the watchdog of the tray icon (src/tray_watchdog.rs), streaming speech
-- to text (src/stt_stream), the memory admission of a training (src/wake_word/memory.rs) and the GLB
-- files that mesh jobs answer with (src/glb.rs).
--
-- The studio session (src/ws/session.rs) brings these together: an offer is turned down while the
-- operator, an update or the person's presence keeps the worker from its jobs, is admitted by the
-- model host, takes the slot of the job gate, and is mirrored into the catalogue; its job is kept in
-- the lists of src/job_run.rs and src/runtime.rs. The updater (src/update.rs, src/self_install.rs)
-- waits for the same slot. The log ring (src/job_log.rs) and the memory ceiling
-- (src/memory_ceiling.rs) stand by themselves.
--
-- An engine gets its model files from src/engine/download.rs and streams an answer through two
-- filters of src/engine/llm_core.rs, one that holds back what may become a stop and one that parts
-- the reasoning from the content. The local API (src/local_api.rs) lets a request through its gate and
-- routes it, and reads forms by src/multipart.rs. The window of the worker (src/daemon_link.rs) polls
-- that API, mirrors the daemon's state and its log ring, and starts a daemon where none runs.
--
-- Files, and what they correspond to:
--   Base            shared names, Boolean tests, lists, equality of texts.
--   Lifecycle       src/lifecycle.rs: `Lifecycle::{request_load, request_unload, load_finished,
--                   unload_finished}` as functions of the same names on a record; a match on the
--                   state is a helper by clauses (`load_from`, `unload_from`, ...).
--   Admission       src/admission.rs, and `admit_transient` and `credit` of src/host.rs.
--   Residency       src/residency.rs.
--   Catalog         src/catalog.rs.
--   Host            src/host.rs. State: the record of `Inner` and what runs under the lock; Requests:
--                   `load`, `unload`, `status`, `restore_residents`; Threads: `finish_load` and the
--                   two steps of an unload thread; Lanes: `lane_of`, `with_lane`, `try_with_lane`.
--                   View, Effects, Keeps, Steps, Invariant, Groups, Exclusive, Loads: proofs.
--   TrayWatchdog    src/tray_watchdog.rs: one check of the watchdog, and runs of checks.
--   AutoRegister    src/auto_register.rs: `tick`, and `ensure_registered`, `reset_registration` of
--                   src/runtime.rs; the loop is a recursion on the rounds that come.
--   Stt             src/stt_stream. Tokens: tokens.rs; Vad: vad.rs; Decoding and Session: session.rs;
--                   Grants, Splits, Replies: proofs. `drain` runs on fuel, one round for each pending
--                   sample, which is enough since a round takes at least one.
--   JobGate         src/job_gate.rs, and the steps of its callers.
--   Presence        src/presence.rs: `note` is `Tracker::record`, its log lines a record of flags.
--   Glb             src/glb.rs: `check`, `assemble`; `padded` runs its loop at most three times.
--   TrainingMemory  src/wake_word/memory.rs: `headroom` is `scope_headroom`; the wait is a recursion
--                   on the looks that come. Waiting: proofs.
--   Studio          src/ws/session.rs. Frames: the frames of src/ws/types.rs that carry jobs; Worker: what
--                   the session shares (`WorkerObservers`, `JobRun`); Offers: `handle_offer`; Tasks:
--                   the spawned tasks, `run_offered_job` and `deliver_result`, from one await to the
--                   next; Steps: every order of these, and of the jobs of other sources that list
--                   themselves. Connection: `wait_for_welcome` and
--                   `run_dispatch_loop` over the events that the reader brings; Rounds:
--                   `run_one_session`, `spawn_ws_session` over the rounds that come. Gate, Listed, Jobs,
--                   Answers, Promises, Settling, History, Reconnects, GivingUp, Backoff: proofs.
--   Updater         Checksum: what a checksum file and a script say; Releases: `decide` and `choose_variant` of src/update.rs; Install:
--                   `apply_variant_with` and `self_install` of src/self_install.rs; Drain:
--                   `auto_update_tick` of src/runtime.rs, its wait a recursion on the pauses. Choice,
--                   Replacing, Applying, Safety, Integrity, Slot: proofs.
--   LogRing         `WorkerLogRing::push` of src/job_log.rs, `recent_logs_after` of src/runtime.rs.
--   MemoryCeiling   src/memory_ceiling.rs: the range, the launcher's argv, `assess`.
--   StopHold        `StopHold` of src/engine/llm_core.rs. Laws, Cutting, Streaming: proofs.
--   LogTrim         `trim` of src/log_trim.rs, its loop a recursion on the number of the copy.
--   Download        src/engine/download.rs, and `validate_download_url` of src/net.rs. Names: folders
--                   and names of files; Fetch: `download_file_verified_within`, whose calls of itself are
--                   rounds on fuel; Cache: the three ways to a model file; Inputs: data URLs and the
--                   format of a picture. Safety, Resume, Ending, Holding, Ensuring, Naming, Pictures:
--                   proofs.
--   Thinking        `plan_budget`, `split_reasoning` and `ThinkSplitter` of src/engine/llm_core.rs; its
--                   loop only goes on to a later state, so each state is a function of the next. Laws,
--                   Deltas, Splitting, Agreeing, Budget: proofs.
--   LocalApi        src/local_api.rs. Gate: `deny_reason`; Routes: `route`, its match of guards a
--                   function for each kind of method; Bodies: `read_body_capped`,
--                   `read_bytes_capped`. Tokens, Letting, Admitting, Paths, Reading: proofs.
--   DaemonLink      src/daemon_link.rs. Replica: `apply_status`, `apply_logs`, `clear`, and what they use
--                   of src/daemon_api.rs and src/thumbnail.rs; Poller: `tick`, `poll`, `recover`.
--                   Starting, Mirroring, Thumbnails, Shown, Showing: proofs.
--   Multipart       src/multipart.rs: `parse` as `parse_form`, `boundary` as `boundary_of`. Headers, Reading:
--                   proofs.
--
-- Conventions. A call under the `entries` lock is one step; a spawned thread is a task in the state,
-- and any task may take its next step at any time, so its waits and timeouts only order the steps.
-- `entries` is a function from ids, and an id without an entry reads as a new one. Sets of ids are
-- lists whose order is forgotten. Log lines and the condition variable are left out. Clocks and
-- memory probes are arguments of the calls that read them.
--
-- Parameters. `f32` amounts of memory are a type with the operations used (`Admission.Measure`). The
-- disk and `serde_json` are `Residency.Store` and `Residency.Json`; what a theorem needs of them is a
-- hypothesis. Fields of a catalogue model that are only carried are one type, `P`.
-- The studio, the clock and random values are arguments of a registration tick
-- (`AutoRegister.Outside`). The samples of a stream are a type with the `f32` operations used
-- (`Stt.Vad.Signal`), the speech model is `Stt.Session.Transcriber`, and the hash of a stream token
-- and `normalise` are arguments.
-- What sends, uploads and engines answer to a job is `Studio.Tasks.Answer`; what an attempt to connect
-- meets is `Studio.Rounds.Attempt`. Of an update, the feed, downloads, file operations and the
-- installer are `Updater.Install.Outside`, sha256 is an argument, and the semver crate is
-- `Updater.Releases.Semver`. The loops that trim a ring run on as much fuel as the ring is long, which is
-- enough since a round takes an entry.
-- Of a download, the network, the url, sha2 and base64 crates, the free space and which operations of
-- the disk fail (each always or never in one run) are `Download.Fetch.Outside`; two rounds of fuel are
-- enough where a part can be removed.
-- Texts of these parts and of the local API are lists of the codes of their characters, or of their
-- bytes where the code works on bytes. `from_utf8` is an argument of the bodies and forms. The loops of
-- `parse_form` and its parts run on as much fuel as there are bytes or characters, which is enough since
-- a round takes one at least. What the daemon's API answers to a poll is `DaemonLink.Poller.Client`, and
-- what a recovery reads is `DaemonLink.Poller.Look`.
--
-- Not modelled: the network (HTTP, WebSocket, TLS), the handlers of the local API, the engines and
-- their child processes, the user interface, configuration and set-up, and the parts of the files
-- above that only read or write the system.
pub mod Base
pub mod Lifecycle
pub mod TrayWatchdog
pub mod Updater
pub mod AutoRegister
pub mod Stt
pub mod JobGate
pub mod Presence
pub mod Glb
pub mod TrainingMemory
pub mod Studio
pub mod Admission
pub mod Residency
pub mod Catalog
pub mod Download
pub mod Host
pub mod LogRing
pub mod LogTrim
pub mod StopHold
pub mod Multipart
pub mod DaemonLink
pub mod LocalApi
pub mod Thinking
pub mod MemoryCeiling
