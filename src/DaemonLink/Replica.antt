-- ===== src/DaemonLink/Replica.antt =====
-- `Replica` of src/daemon_link.rs, `JobWire` and `LogsPage` of src/daemon_api.rs, and the thumbnails of
-- src/thumbnail.rs.
use studio_worker.Base.{
  ℕ, zero, suc, ◌*◌, Bool, false, not, Option, none, some, List, [], ◌∷◌, ◌++◌, map, keep, any,
  length, drop, String, same, ltb, if◌then◌else◌,
}
use studio_worker.LogRing.{shrink}

pub data JobStatus : Type 0 where
  running completed failed : JobStatus

-- A job as the daemon tells it; `C` is what is only carried.
pub record JobWire (C : Type 0) : Type 0 where
  pub job_id : String
  pub status : JobStatus
  pub reason : Option String
  pub started_at : ℕ
  pub finished_at : Option ℕ
  pub has_thumbnail : Bool
  pub carried : C

-- `CurrentJob`, `JobOutcome` and `RecentJob`, as the pages show them.
pub record ShownJob (C : Type 0) : Type 0 where
  pub job_id : String
  pub started_at : ℕ
  pub carried : C

pub data ShownOutcome : Type 0 where
  succeeded : ShownOutcome
  gave_up : String → ShownOutcome

pub record ShownEnd (C : Type 0) : Type 0 where
  pub job_id : String
  pub outcome : ShownOutcome
  pub started_at : ℕ
  pub finished_at : ℕ
  pub carried : C

-- The snapshot; `S` is what is copied as it is: the session, the heartbeat, the registration and the
-- like. The configuration, the worker id and the number of the recent logs are left out, which `clear`
-- does not reset either.
pub record DaemonStatus (C S : Type 0) : Type 0 where
  pub version : String
  pub paused : Bool
  pub busy : Bool
  pub registered : Bool
  pub current_job_id : Option String
  pub active_jobs : List (JobWire C)
  pub recent_jobs : List (JobWire C)
  pub local_jobs : List (JobWire C)
  pub others : S

pub record LogsPage (A : Type 0) : Type 0 where
  pub entries : List A
  pub seq : ℕ

-- `A` is a log entry, `P` a picture, `M` an entry of the model list and `L` the log of a job.
pub record Replica (A C S P M L : Type 0) : Type 0 where
  pub current_job : Option (ShownJob C)
  pub active_jobs : List (ShownJob C)
  pub recent_jobs : List (ShownEnd C)
  pub local_jobs : List (ShownEnd C)
  pub others : Option S
  pub busy : Bool
  pub paused : Bool
  pub status : Option (DaemonStatus C S)
  pub recent_logs : List A
  pub logs_seq : ℕ
  pub thumbnails : List (String × P)
  pub models : List M
  pub selected_job : Option String
  pub selected_log : Option (String × L)

abbrev pub thumbnails_cap : ℕ
thumbnails_cap = 2 * 50

unfoldable pub reason_or : Option String → String
reason_or none = ""
reason_or (some r) = r

module _ {C : Type 0} where
  unfoldable pub to_current : JobWire C → ShownJob C
  to_current j = record { job_id = j.job_id; started_at = j.started_at; carried = j.carried }

  unfoldable pub or_started : JobWire C → Option ℕ → ℕ
  or_started j none = j.started_at
  or_started j (some at) = at

  unfoldable pub ended_as : JobWire C → ShownOutcome → ShownEnd C
  unfolding or_started
  ended_as j o = record {
    job_id = j.job_id;
    outcome = o;
    started_at = j.started_at;
    finished_at = or_started j j.finished_at;
    carried = j.carried;
  }

  unfoldable pub by_status : JobStatus → JobWire C → Option (ShownEnd C)
  unfolding ended_as reason_or
  by_status running j = none
  by_status completed j = some (ended_as j succeeded)
  by_status failed j = some (ended_as j (gave_up (reason_or j.reason)))

  unfoldable pub to_recent : JobWire C → Option (ShownEnd C)
  unfolding by_status
  to_recent j = by_status j.status j

  unfoldable pub cons_ended : Option (ShownEnd C) → List (ShownEnd C) → List (ShownEnd C)
  cons_ended none js = js
  cons_ended (some j) js = j ∷ js

  -- `filter_map(to_recent)`.
  unfoldable pub ended_jobs : List (JobWire C) → List (ShownEnd C)
  unfolding cons_ended to_recent
  ended_jobs [] = []
  ended_jobs (j ∷ js) = cons_ended (to_recent j) (ended_jobs js)

  -- The first job of that id.
  unfoldable pub job_of_id : String → List (ShownJob C) → Option (ShownJob C)
  job_of_id id [] = none
  job_of_id id (j ∷ js) = if same j.job_id id then some j else job_of_id id js

  unfoldable pub current_of : Option String → List (ShownJob C) → Option (ShownJob C)
  unfolding job_of_id
  current_of none jobs = none
  current_of (some id) jobs = job_of_id id jobs

  -- The ids of the jobs that have a thumbnail.
  unfoldable pub with_thumbnail : List (JobWire C) → List String
  with_thumbnail [] = []
  with_thumbnail (j ∷ js) =
      if j.has_thumbnail then j.job_id ∷ with_thumbnail js else with_thumbnail js

module _ {C S : Type 0} where
  unfoldable pub all_jobs : DaemonStatus C S → List (JobWire C)
  all_jobs s = s.active_jobs ++ (s.recent_jobs ++ s.local_jobs)

module _ {P : Type 0} where
  unfoldable pub has_thumbnail_of : List (String × P) → String → Bool
  has_thumbnail_of thumbnails id = any (λ (t : String × P). same t.0 id) thumbnails

  -- `while ring.len() > THUMBNAILS_CAP`, for at most `fuel` rounds.
  unfoldable pub evict : ℕ → List (String × P) → List (String × P)
  evict zero ring = ring
  evict (suc fuel) ring =
      let rest = evict fuel (drop 1 ring) in if ltb thumbnails_cap (length ring) then rest else ring

  -- `Thumbnails::insert`.
  unfoldable pub insert_thumbnail : String → P → List (String × P) → List (String × P)
  unfolding evict
  insert_thumbnail id png thumbnails =
      let others = keep (λ (t : String × P). not (same t.0 id)) thumbnails in
      let ring = others ++ (id, png) ∷ [] in evict (length ring) ring

module _ {C S P : Type 0} where
  unfoldable pub missing_from : Option (DaemonStatus C S) → List (String × P) → List String
  unfolding with_thumbnail all_jobs has_thumbnail_of
  missing_from none thumbnails = []
  missing_from (some s) thumbnails =
      keep (λ (id : String). not (has_thumbnail_of thumbnails id)) (with_thumbnail (all_jobs s))

module _ {A C S P M L : Type 0} where
  unfoldable pub apply_status : DaemonStatus C S → Replica A C S P M L → Replica A C S P M L
  unfolding to_current current_of ended_jobs with_thumbnail all_jobs
  apply_status s r =
      let active = map to_current s.active_jobs in
      let listed = with_thumbnail (all_jobs s) in
      record r {
        current_job = current_of s.current_job_id active;
        active_jobs = active;
        recent_jobs = ended_jobs s.recent_jobs;
        local_jobs = ended_jobs s.local_jobs;
        others = some s.others;
        busy = s.busy;
        paused = s.paused;
        thumbnails = keep (λ (t : String × P). any (same t.0) listed) r.thumbnails;
        status = some s;
      }

  unfoldable pub missing_thumbnails : Replica A C S P M L → List String
  unfolding missing_from
  missing_thumbnails r = missing_from r.status r.thumbnails

  -- A page from before the last number replaces the ring.
  unfoldable pub apply_logs : LogsPage A → Replica A C S P M L → Replica A C S P M L
  unfolding shrink
  apply_logs page r =
      let held = if ltb page.seq r.logs_seq then [] else r.recent_logs in
      let ring = held ++ page.entries in
      record r { recent_logs = shrink (length ring) ring; logs_seq = page.seq }

  unfoldable pub clear : Replica A C S P M L → Replica A C S P M L
  clear r = record r {
    current_job = none;
    active_jobs = [];
    recent_jobs = [];
    local_jobs = [];
    others = none;
    busy = false;
    paused = false;
    status = none;
    recent_logs = [];
    logs_seq = 0;
    thumbnails = [];
    models = [];
    selected_log = none;
  }
