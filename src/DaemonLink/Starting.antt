-- ===== src/DaemonLink/Starting.antt =====
-- When the poller starts a daemon (src/daemon_link.rs).
use studio_worker.Base.{
  ℕ, ◌+◌, ◌-◌, ◌≤◌, Bool, true, false, not, Option, none, some, List, [], ◌∷◌, All, ltb, ◌≡◌, ap,
  subst, ◌⊎◌, inl, inr, arith, if_both,
}
use studio_worker.DaemonLink.Replica.{Replica}
use studio_worker.DaemonLink.Poller.{
  spawn_backoff, spawn_grace, Poller, Look, Recovered, since_of, is_due, recover, recover_from,
  recover_absent, Client, Ticked, poll, after_poll, tick,
}

-- A time that is not there, or no earlier.
abbrev pub NotBefore : ℕ → Option ℕ → Type 0
NotBefore t none = Unit
NotBefore t (some at) = t ≤ at

-- There, and no earlier.
abbrev pub IsFrom : ℕ → Option ℕ → Type 0
IsFrom t none = ⊥
IsFrom t (some at) = t ≤ at

-- What a recovery keeps of what held of the poller, and what it takes to start a daemon.
abbrev Recovers : ℕ → ℕ → Option ℕ → Option ℕ → Recovered → Type 0
Recovers t now since last r =
    (NotBefore t since → NotBefore t r.poller.absent_since)
    × (IsFrom t last → IsFrom t r.poller.last_spawn)
    × (r.spawned ≡ true → IsFrom now r.poller.last_spawn)
    × (r.spawned ≡ true → NotBefore t since → t + spawn_grace ≤ now)
    × (r.spawned ≡ true → IsFrom t last → t + spawn_backoff ≤ now)

due_spaced :
    (t now : ℕ) (last : Option ℕ) → is_due last now ≡ true → IsFrom t last → t + spawn_backoff ≤ now
unfolding is_due
due_spaced t now none h f = absurd f
due_spaced t now (some at) h f = ground (arith, h, f)

NotBefore-since_of : (t now : ℕ) (o : Option ℕ) → t ≤ now → NotBefore t o → t ≤ since_of o now
unfolding since_of
NotBefore-since_of t now none h n = h
NotBefore-since_of t now (some s) h n = n

recover_from-Recovers :
    (t : ℕ) (o : Option Bool) (look : Look) (p : Poller)
    → t ≤ look.now
    → Recovers t look.now p.absent_since p.last_spawn (recover_from o look p)
unfolding recover_from recover_absent
recover_from-Recovers t none look p h = (λ n. n, λ f. f, λ e. cc e, λ e n. cc e, λ e f. cc e)
recover_from-Recovers t (some true) look p h =
    (λ n. tt, λ f. f, λ e. cc e, λ e n. cc e, λ e f. cc e)
recover_from-Recovers t (some false) look p h =
    let R = Recovers t look.now p.absent_since p.last_spawn in
    let since = since_of p.absent_since look.now in
    let n = NotBefore-since_of t look.now p.absent_since h in
    if_both R (ltb (look.now - since) spawn_grace) _ _
      (λ _. (n, λ f. f, λ e. cc e, λ e n. cc e, λ e f. cc e))
      (λ long.
        if_both R (not (is_due p.last_spawn look.now)) _ _
          (λ _. (n, λ f. f, λ e. cc e, λ e n. cc e, λ e f. cc e))
          (λ due. (
            n,
            λ f. h,
            λ e. omega arith,
            λ e q. ground (arith, long, n q),
            λ e f. due_spaced t look.now p.last_spawn (ground (arith, due)) f,
          )))

-- A tick of the poller, over what it meets.
pub record Round (A C S P M L : Type 0) : Type 0 where
  pub client : Client A C S P M L
  pub look : Look

module _ {A C S P M L : Type 0} where
  abbrev pub ticked : Round A C S P M L → Poller → Replica A C S P M L → Ticked A C S P M L
  ticked x p r = tick x.client x.look p r

  -- The poller and the replica after a run of ticks.
  unfoldable pub after_ticks :
      List (Round A C S P M L) → Poller × Replica A C S P M L → Poller × Replica A C S P M L
  after_ticks [] s = s
  after_ticks (x ∷ xs) (p, r) =
      let t = ticked x p r in after_ticks xs (t.recovered.poller, t.replica)

  after_poll-Recovers :
      (t : ℕ) (x : Round A C S P M L) (p : Poller) (q : Replica A C S P M L × Bool)
      → t ≤ x.look.now
      → Recovers t x.look.now p.absent_since p.last_spawn (after_poll x.client x.look p q).recovered
  unfolding after_poll recover
  after_poll-Recovers t x p (r, true) h = (λ n. tt, λ f. f, λ e. cc e, λ e n. cc e, λ e f. cc e)
  after_poll-Recovers t x p (r, false) h = recover_from-Recovers t x.look.is_running x.look p h

  ticked-Recovers :
      (t : ℕ) (x : Round A C S P M L) (p : Poller) (r : Replica A C S P M L)
      → t ≤ x.look.now
      → Recovers t x.look.now p.absent_since p.last_spawn (ticked x p r).recovered
  unfolding tick
  ticked-Recovers t x p r h = after_poll-Recovers t x p (poll x.client r) h

  abbrev Later : ℕ → Round A C S P M L → Type 0
  Later t x = t ≤ x.look.now

  after_ticks-NotBefore :
      (t : ℕ) (xs : List (Round A C S P M L)) (s : Poller × Replica A C S P M L)
      → All (Later t) xs
      → NotBefore t s.0.absent_since
      → NotBefore t (after_ticks xs s).0.absent_since
  unfolding after_ticks
  after_ticks-NotBefore t [] s h n = n
  after_ticks-NotBefore t (x ∷ xs) (p, r) (l, h) n =
      let y = ticked x p r in
      after_ticks-NotBefore t xs (y.recovered.poller, y.replica) h ((ticked-Recovers t x p r l).0 n)

  after_ticks-IsFrom :
      (t : ℕ) (xs : List (Round A C S P M L)) (s : Poller × Replica A C S P M L)
      → All (Later t) xs
      → IsFrom t s.0.last_spawn
      → IsFrom t (after_ticks xs s).0.last_spawn
  unfolding after_ticks
  after_ticks-IsFrom t [] s h f = f
  after_ticks-IsFrom t (x ∷ xs) (p, r) (l, h) f =
      let y = ticked x p r in
      after_ticks-IsFrom t xs (y.recovered.poller, y.replica) h ((ticked-Recovers t x p r l).1 f)

  -- A daemon answers the poll, or holds the lock.
  abbrev pub ShowsDaemon : Round A C S P M L → Replica A C S P M L → Type 0
  ShowsDaemon x r = ((poll x.client r).1 ≡ true) ⊎ (x.look.is_running ≡ some true)

  after_poll-shown :
      (t : ℕ) (x : Round A C S P M L) (p : Poller) (q : Replica A C S P M L × Bool)
      → (q.1 ≡ true) ⊎ (x.look.is_running ≡ some true)
      → NotBefore t (after_poll x.client x.look p q).recovered.poller.absent_since
  unfolding after_poll recover recover_from
  after_poll-shown t x p (r, true) h = tt
  after_poll-shown t x p (r, false) (inl e) = cc e
  after_poll-shown t x p (r, false) (inr e) = rw e tt

  ticked-shown :
      (t : ℕ) (x : Round A C S P M L) (p : Poller) (r : Replica A C S P M L)
      → ShowsDaemon x r
      → NotBefore t (ticked x p r).recovered.poller.absent_since
  unfolding tick
  ticked-shown t x p r h = after_poll-shown t x p (poll x.client r) h

  -- Between a daemon seen and one started the grace passes, and between two starts the backoff.
  abbrev pub IsSpaced :
      Round A C S P M L → Round A C S P M L → Poller → Replica A C S P M L → Type 0
  IsSpaced x y p r =
      (ShowsDaemon x r → x.look.now + spawn_grace ≤ y.look.now)
      × ((ticked x p r).recovered.spawned ≡ true → x.look.now + spawn_backoff ≤ y.look.now)

  -- Whatever happens between two ticks, the clock never going back: if the second starts a daemon, then
  -- 20 s have passed since the first if a daemon answered there or held the lock, and 10 s if the first
  -- started one, or tried to.
  pub spawn_spacing :
      (x y : Round A C S P M L) (xs : List (Round A C S P M L)) (p q : Poller)
      (r s : Replica A C S P M L)
      → All (λ (z : Round A C S P M L). x.look.now ≤ z.look.now) xs
      → x.look.now ≤ y.look.now
      → after_ticks xs ((ticked x p r).recovered.poller, (ticked x p r).replica) ≡ (q, s)
      → (ticked y q s).recovered.spawned ≡ true
      → IsSpaced x y p r
  spawn_spacing x y xs p q r s later le run spawned =
      let t = x.look.now in
      let first = ticked x p r in
      let start : Poller × Replica A C S P M L = (first.recovered.poller, first.replica) in
      let starts = ticked-Recovers t y q s le in
      let here : (after_ticks xs start).0 ≡ q = ap {B = Poller} (λ z. z.0) run in
      (
        λ shown. starts.3 spawned (
            subst (λ z. NotBefore t z.absent_since) here
              (after_ticks-NotBefore t xs start later (ticked-shown t x p r shown))),
        λ began. starts.4 spawned (
            subst (λ z. IsFrom t z.last_spawn) here
              (after_ticks-IsFrom t xs start later
                ((ticked-Recovers t x p r (omega arith)).2 began))),
      )
