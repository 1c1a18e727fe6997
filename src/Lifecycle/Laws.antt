-- ===== src/Lifecycle/Laws.antt =====
-- What one model's lifecycle (src/lifecycle.rs) guarantees over any sequence of events.
use studio_worker.Base.{
  ℕ, suc, ◌+◌, ◌≤◌, String, Bool, true, false, not, ◌≡◌, ◌≢◌, List, [], ◌∷◌, arith, if◌then◌else◌,
}
use studio_worker.Lifecycle.{
  ModelState, loading, loaded, unloading, failed, Command, nothing, begin_load, begin_unload,
  Lifecycle, new, Outcome, done, broken, Reply, ok, err, UnexpectedEvent, request_load,
  request_unload, load_finished, unload_finished,
}

-- An unload waits only behind a load in flight.
abbrev pub IsWell : Lifecycle → Type 0
IsWell l = l.unload_pending ≡ true → l.state ≡ loading

pub record Worker : Type 0 where
  pub life : Lifecycle
  pub loads : ℕ
  pub unloads : ℕ

-- The host starts the work that a command names.
unfoldable pub start : Lifecycle × Command → Worker → Worker
start (l, nothing) w = record w { life = l }
start (l, begin_load) w = record w { life = l; loads = suc w.loads }
start (l, begin_unload) w = record w { life = l; unloads = suc w.unloads }

pub follow : Lifecycle × Reply → Worker → Worker
unfolding start
follow (l, ok c) w = start (l, c) w
follow (l, err e) w = record w { life = l }

-- Requests come at any time; a finish event comes only from work in flight.
pub data Step : Worker → Worker → Type 0 where
  asks_load : (w : Worker) → Step w (start (request_load w.life) w)
  asks_unload : (w : Worker) → Step w (start (request_unload w.life) w)
  ends_load :
      (w : Worker) (o : Outcome) {n : ℕ}
      → w.loads ≡ suc n
      → Step w (follow (load_finished o w.life) (record w { loads = n }))
  ends_unload :
      (w : Worker) (o : Outcome) {n : ℕ}
      → w.unloads ≡ suc n
      → Step w (follow (unload_finished o w.life) (record w { unloads = n }))

pub data Reach : Worker → Type 0 where
  fresh : Reach (record { life = new; loads = 0; unloads = 0 })
  next : {v w : Worker} → Reach v → Step v w → Reach w

-- How many loads and unloads a state accounts for.
abbrev loads_of : ModelState → ℕ
loads_of loading = 1
loads_of _ = 0

abbrev unloads_of : ModelState → ℕ
unloads_of unloading = 1
unloads_of _ = 0

pub record Inv (w : Worker) : Type 0 where
  loads : w.loads ≡ loads_of w.life.state
  unloads : w.unloads ≡ unloads_of w.life.state
  well : IsWell w.life

Step-Inv : {v w : Worker} → Step v w → Inv v → Inv w
unfolding start follow request_load request_unload load_finished unload_finished
Step-Inv (asks_load w) v = ground arith
Step-Inv (asks_unload w) v = ground arith
Step-Inv (ends_load w o e) v = ground arith
Step-Inv (ends_unload w o e) v = ground arith

Reach-Inv : {w : Worker} → Reach w → Inv w
unfolding new
Reach-Inv fresh = ground arith
Reach-Inv (next r s) = Step-Inv s (Reach-Inv r)

-- In any reachable state at most one load or unload is in flight, and each finish event that work in
-- flight can bring is expected: it is answered by a command, never by `UnexpectedEvent`.
finish_expected :
    {w : Worker} (o : Outcome) (l : Lifecycle) (e : UnexpectedEvent)
    → Reach w
    → (w.loads + w.unloads ≤ 1)
      × (w.loads ≢ 0 → load_finished o w.life ≢ (l, err e))
      × (w.unloads ≢ 0 → unload_finished o w.life ≢ (l, err e))
unfolding load_finished unload_finished
finish_expected {w} o l e r =
    let v = Reach-Inv r in (one w v, λ h q. two w o l e v h q, λ h q. three w o l e v h q)
  where
    one : (w : Worker) → Inv w → w.loads + w.unloads ≤ 1
    one w v = ground arith

    two :
        (w : Worker) (o : Outcome) (l : Lifecycle) (e : UnexpectedEvent)
        → Inv w
        → w.loads ≢ 0
        → load_finished o w.life ≢ (l, err e)
    two w o l e v h q = ground arith

    three :
        (w : Worker) (o : Outcome) (l : Lifecycle) (e : UnexpectedEvent)
        → Inv w
        → w.unloads ≢ 0
        → unload_finished o w.life ≢ (l, err e)
    three w o l e v h q = ground arith

-- Requests made while a load is in flight: `true` loads, `false` unloads.
abbrev pub request : Bool → Lifecycle → Lifecycle × Command
request true l = request_load l
request false l = request_unload l

unfoldable pub requests : List Bool → Lifecycle → Lifecycle
requests [] l = l
requests (r ∷ rs) l = requests rs (request r l).0

-- The last request of a list, or the default.
unfoldable pub last_request : Bool → List Bool → Bool
last_request d [] = d
last_request d (r ∷ rs) = last_request r rs

requests-loading :
    (rs : List Bool) (l : Lifecycle)
    → l.state ≡ loading
    → requests rs l
      ≡ record { state = loading; unload_pending = not (last_request (not l.unload_pending) rs) }
unfolding requests last_request request_load request_unload
requests-loading [] l h = ground arith
requests-loading (true ∷ rs) l h =
    ground (arith, requests-loading rs (record l { unload_pending = false }) h)
requests-loading (false ∷ rs) l h =
    ground (arith, requests-loading rs (record l { unload_pending = true }) h)

-- The last request wins: whatever requests arrive while a load is in flight, a load that then
-- succeeds ends in `loaded` with no further work if the last one asked to load (or none came), and
-- otherwise goes on to unload; a load that fails ends in `failed` with its reason, and in each case
-- no unload stays pending.
last_request_wins :
    (rs : List Bool) (l : Lifecycle) (reason : String)
    → l.state ≡ loading
    → (load_finished done (requests rs l) ≡ (
        if last_request (not l.unload_pending) rs
        then (record { state = loaded; unload_pending = false }, ok nothing)
        else (record { state = unloading; unload_pending = false }, ok begin_unload)))
      × (load_finished (broken reason) (requests rs l)
          ≡ (record { state = failed reason; unload_pending = false }, ok nothing))
unfolding load_finished
last_request_wins rs l reason h = rw (requests-loading rs l h) (ground arith)
