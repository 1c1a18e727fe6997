-- ===== src/DaemonLink/Tests.antt =====
-- A daemon that is away, and one that logs (src/daemon_link.rs).
use studio_worker.Base.{ℕ, ◌*◌, true, false, none, some, List, [], ◌∷◌, ◌≡◌, refl, arith, same}
use studio_worker.LogRing.Laws.{pushed, fresh_ring}
use studio_worker.DaemonLink.Replica.{Replica, running, clear}
use studio_worker.DaemonLink.Poller.{Poller, Client, Look, tick}
use studio_worker.DaemonLink.Starting.{Round, ticked, after_ticks, IsSpaced, spawn_spacing}
use studio_worker.DaemonLink.Mirroring.{polled_logs, polled_logs_lem, logged}

abbrev replica : Replica ℕ ℕ ℕ ℕ ℕ ℕ
replica = record {
  current_job = none;
  active_jobs = [];
  recent_jobs = [];
  local_jobs = [];
  others = none;
  busy = true;
  paused = false;
  status = none;
  recent_logs = [];
  logs_seq = 0;
  thumbnails = [];
  models = [];
  selected_job = none;
  selected_log = none;
}

abbrev nobody : Client ℕ ℕ ℕ ℕ ℕ ℕ
nobody = record {
  discovered = false;
  status = none;
  logs = λ n. none;
  models = none;
  job_log = λ id. none;
  thumbnail = λ id. none;
}

-- A tick at that second, at which no daemon runs.
abbrev away : ℕ → Round ℕ ℕ ℕ ℕ ℕ ℕ
away s = record {
  client = nobody;
  look = record { is_running = some false; now = s * 1000; starts = true };
}

abbrev poller : Poller
poller = record { last_spawn = none; absent_since = some 0 }

abbrev later : Poller × Replica ℕ ℕ ℕ ℕ ℕ ℕ
later = after_ticks [] ((ticked (away 20) poller replica).recovered.poller, clear replica)

started_run : (ticked (away 20) poller replica).recovered.spawned ≡ true
unfolding tick
started_run = refl

abbrev begun : Poller
begun = record { last_spawn = some 20000; absent_since = some 0 }

again_run : (ticked (away 30) begun (clear replica)).recovered.spawned ≡ true
unfolding tick
again_run = refl

same_run :
    after_ticks [] (
      (ticked (away 20) poller replica).recovered.poller,
      (ticked (away 20) poller replica).replica,
    )
    ≡ (begun, clear replica)
unfolding after_ticks tick
same_run = refl

spawn_spacing_example : IsSpaced (away 20) (away 30) poller replica
spawn_spacing_example =
    spawn_spacing (away 20) (away 30) [] poller begun replica (clear replica) tt (omega arith)
      same_run again_run

-- A daemon with one job that has a picture, and with a log.
abbrev daemon : Client ℕ ℕ ℕ ℕ ℕ ℕ
daemon = record {
  discovered = true;
  status = some (record {
    version = "1.2.3";
    paused = false;
    busy = true;
    registered = true;
    current_job_id = some "job";
    active_jobs =
        record {
          job_id = "job";
          status = running;
          reason = none;
          started_at = 5;
          finished_at = none;
          has_thumbnail = true;
          carried = 0;
        }
        ∷ [];
    recent_jobs = [];
    local_jobs = [];
    others = 0;
  });
  logs = λ n. some (record { entries = 8 ∷ []; seq = 1 });
  models = some (4 ∷ []);
  job_log = λ id. none;
  thumbnail = λ id. some (some 7);
}

abbrev look : Look
look = record { is_running = none; now = 0; starts = false }

shown_run : (tick daemon look poller replica).replica.thumbnails ≡ ("job", 7) ∷ []
unfolding tick same
shown_run = refl

abbrev batches : List (List ℕ)
batches = (1 ∷ 2 ∷ []) ∷ [] ∷ (3 ∷ []) ∷ []

polled_logs_lem_example :
    ((polled_logs batches [] (clear replica)).recent_logs
      ≡ (pushed (logged batches []) fresh_ring).entries)
    × ((polled_logs batches [] (clear replica)).logs_seq
        ≡ (pushed (logged batches []) fresh_ring).seq)
polled_logs_lem_example = polled_logs_lem batches replica (omega arith)
