-- ===== src/DaemonLink/Showing.antt =====
-- What the UI shows of its daemon (src/daemon_link.rs).
use studio_worker.Base.{Bool, true, false, none, some, String, ◌≡◌, ◌⊎◌}
use studio_worker.DaemonLink.Replica.{DaemonStatus, LogsPage, Replica, clear}
use studio_worker.DaemonLink.Poller.{
  LinkState, connecting, connected, unreachable, starting, Poller, Client, Ticked, log_of,
}
use studio_worker.DaemonLink.Shown.{ShowsStatus}

abbrev pub IsConnected : LinkState → Type 0
IsConnected (connected v) = Unit
IsConnected connecting = ⊥
IsConnected starting = ⊥
IsConnected (unreachable b) = ⊥

abbrev pub IsAway : LinkState → Type 0
IsAway (connected v) = ⊥
IsAway connecting = Unit
IsAway starting = Unit
IsAway (unreachable b) = Unit

module _ {A C S P M L : Type 0} where
  -- What a client says to a poll is shown: its status, its models and the number of its log.
  abbrev pub IsShown : Client A C S P M L → Replica A C S P M L → Replica A C S P M L → Type 0
  IsShown client before r =
      (s : DaemonStatus C S) × (page : LogsPage A) × (client.status ≡ some s)
      × (client.logs before.logs_seq ≡ some page)
      × (client.models ≡ some r.models)
      × (r.logs_seq ≡ page.seq)
      × ShowsStatus s r

  -- A call of a poll that fails.
  abbrev pub Fails : Client A C S P M L → Replica A C S P M L → Type 0
  Fails client before =
      (client.discovered ≡ false)
      ⊎ ((client.status ≡ none)
          ⊎ ((client.logs before.logs_seq ≡ none)
              ⊎ ((client.models ≡ none)
                  ⊎ ((log_of client before.selected_job ≡ none)
                      ⊎ ((id : String) × (client.thumbnail id ≡ none))))))

  abbrev Polled : Client A C S P M L → Replica A C S P M L → Replica A C S P M L × Bool → Type 0
  Polled client r q =
      (q.0.selected_job ≡ r.selected_job)
      × (q.1 ≡ true → IsShown client r q.0)
      × (q.1 ≡ false → Fails client r)

  -- Either all is as the client says, or nothing is shown.
  abbrev pub ShowsAllOrNothing :
      Client A C S P M L → Replica A C S P M L → Ticked A C S P M L → Type 0
  ShowsAllOrNothing client before t =
      (IsConnected t.recovered.link × IsShown client before t.replica)
      ⊎ (IsAway t.recovered.link × (t.replica ≡ clear before) × Fails client before)
