-- ===== src/DaemonLink/Poller.antt =====
-- `Poller` of src/daemon_link.rs: a poll, and a daemon started when none runs. Times are in
-- milliseconds.
use studio_worker.Base.{
  ℕ, ◌-◌, ◌*◌, Bool, true, false, not, Option, none, some, List, [], ◌∷◌, String, ltb, leb,
  if◌then◌else◌,
}
use studio_worker.DaemonLink.Replica.{
  Replica, DaemonStatus, LogsPage, apply_status, apply_logs, missing_thumbnails, insert_thumbnail,
  clear,
}

abbrev pub spawn_backoff : ℕ
spawn_backoff = 10 * 1000

abbrev pub spawn_grace : ℕ
spawn_grace = 20 * 1000

-- `LinkState`; the texts of errors are left out.
pub data LinkState : Type 0 where
  connecting : LinkState
  connected : String → LinkState
  starting : LinkState
  unreachable : Bool → LinkState

pub record Poller : Type 0 where
  pub last_spawn : Option ℕ
  pub absent_since : Option ℕ

-- What a failed poll meets: whether a daemon holds the lock (`none` is an error), the time, and whether
-- starting one works.
pub record Look : Type 0 where
  pub is_running : Option Bool
  pub now : ℕ
  pub starts : Bool

-- The link's state, the poller, and whether a daemon was started (also if that failed).
pub record Recovered : Type 0 where
  pub link : LinkState
  pub poller : Poller
  pub spawned : Bool

-- `get_or_insert`.
unfoldable pub since_of : Option ℕ → ℕ → ℕ
since_of none now = now
since_of (some since) now = since

-- No daemon was started yet, or the last start is long enough ago.
unfoldable pub is_due : Option ℕ → ℕ → Bool
is_due none now = true
is_due (some at) now = leb spawn_backoff (now - at)

-- No daemon runs, since `since`.
unfoldable pub recover_absent : ℕ → Look → Poller → Recovered
unfolding is_due
recover_absent since look p =
    let seen = record p { absent_since = some since } in
    if ltb (look.now - since) spawn_grace
    then record { link = unreachable false; poller = seen; spawned = false }
    else if not (is_due p.last_spawn look.now)
    then record { link = unreachable true; poller = seen; spawned = false }
    else record {
      link = unreachable look.starts;
      poller = record seen { last_spawn = some look.now };
      spawned = true;
    }

unfoldable pub recover_from : Option Bool → Look → Poller → Recovered
unfolding since_of recover_absent
recover_from none look p = record { link = unreachable false; poller = p; spawned = false }
recover_from (some true) look p = record {
  link = starting;
  poller = record p { absent_since = none };
  spawned = false;
}
recover_from (some false) look p = recover_absent (since_of p.absent_since look.now) look p

unfoldable pub recover : Look → Poller → Recovered
unfolding recover_from
recover look p = recover_from look.is_running look p

-- What the daemon answers to each call of a poll; `none` is an error, and a thumbnail may be missing.
pub record Client (A C S P M L : Type 0) : Type 0 where
  pub discovered : Bool
  pub status : Option (DaemonStatus C S)
  pub logs : ℕ → Option (LogsPage A)
  pub models : Option (List M)
  pub job_log : String → Option (Option L)
  pub thumbnail : String → Option (Option P)

pub record Ticked (A C S P M L : Type 0) : Type 0 where
  pub replica : Replica A C S P M L
  pub recovered : Recovered

-- An error stays one, and a log gets its job's id.
unfoldable pub named_log : {L : Type 0} → String → Option (Option L) → Option (Option (String × L))
named_log id none = none
named_log id (some none) = some none
named_log id (some (some log)) = some (some (id, log))

unfoldable pub version_of : {C S : Type 0} → Option (DaemonStatus C S) → LinkState
version_of none = connecting
version_of (some s) = connected s.version

module _ {A C S P M L : Type 0} where
  -- The thumbnails that are missing; an error ends the poll.
  unfoldable pub fetch_one :
      String
      → Option (Option P)
      → (Replica A C S P M L → Replica A C S P M L × Bool)
      → Replica A C S P M L
      → Replica A C S P M L × Bool
  unfolding insert_thumbnail
  fetch_one id none rest r = (r, false)
  fetch_one id (some none) rest r = rest r
  fetch_one id (some (some png)) rest r =
      rest (record r { thumbnails = insert_thumbnail id png r.thumbnails })

  unfoldable pub fetch_thumbnails :
      Client A C S P M L → List String → Replica A C S P M L → Replica A C S P M L × Bool
  unfolding fetch_one
  fetch_thumbnails client [] r = (r, true)
  fetch_thumbnails client (id ∷ ids) r =
      fetch_one id (client.thumbnail id) (fetch_thumbnails client ids) r

  unfoldable pub applied :
      Client A C S P M L
      → DaemonStatus C S
      → LogsPage A
      → List M
      → Option (String × L)
      → Replica A C S P M L
      → Replica A C S P M L × Bool
  unfolding fetch_thumbnails apply_status apply_logs missing_thumbnails
  applied client status page models log r =
      let next = record (apply_logs page (apply_status status r)) {
        models = models;
        selected_log = log;
      } in
      fetch_thumbnails client (missing_thumbnails next) next

  -- The log of the job that is selected, if one is and the daemon has it; `none` is an error.
  unfoldable pub log_of : Client A C S P M L → Option String → Option (Option (String × L))
  unfolding named_log
  log_of client none = some none
  log_of client (some id) = named_log id (client.job_log id)

  unfoldable pub with_log :
      Client A C S P M L
      → DaemonStatus C S
      → LogsPage A
      → List M
      → Option (Option (String × L))
      → Replica A C S P M L
      → Replica A C S P M L × Bool
  unfolding applied
  with_log client status page models none r = (r, false)
  with_log client status page models (some log) r = applied client status page models log r

  unfoldable pub with_models :
      Client A C S P M L
      → DaemonStatus C S
      → LogsPage A
      → Option (List M)
      → Replica A C S P M L
      → Replica A C S P M L × Bool
  unfolding with_log log_of
  with_models client status page none r = (r, false)
  with_models client status page (some models) r =
      with_log client status page models (log_of client r.selected_job) r

  unfoldable pub with_page :
      Client A C S P M L
      → DaemonStatus C S
      → Option (LogsPage A)
      → Replica A C S P M L
      → Replica A C S P M L × Bool
  unfolding with_models
  with_page client status none r = (r, false)
  with_page client status (some page) r = with_models client status page client.models r

  unfoldable pub with_status :
      Client A C S P M L
      → Option (DaemonStatus C S)
      → Replica A C S P M L
      → Replica A C S P M L × Bool
  unfolding with_page
  with_status client none r = (r, false)
  with_status client (some status) r = with_page client status (client.logs r.logs_seq) r

  -- Whether the poll worked, and what it made of the replica.
  unfoldable pub poll : Client A C S P M L → Replica A C S P M L → Replica A C S P M L × Bool
  unfolding with_status
  poll client r = if client.discovered then with_status client client.status r else (r, false)

  unfoldable pub after_poll :
      Client A C S P M L → Look → Poller → Replica A C S P M L × Bool → Ticked A C S P M L
  unfolding clear recover version_of
  after_poll client look p (r, true) = record {
    replica = r;
    recovered = record {
      link = version_of client.status;
      poller = record p { absent_since = none };
      spawned = false;
    };
  }
  after_poll client look p (r, false) = record { replica = clear r; recovered = recover look p }

  unfoldable pub tick :
      Client A C S P M L → Look → Poller → Replica A C S P M L → Ticked A C S P M L
  unfolding after_poll poll
  tick client look p r = after_poll client look p (poll client r)
