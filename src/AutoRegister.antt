-- ===== src/AutoRegister.antt =====
-- src/auto_register.rs: registration with the studio without an operator at the keyboard, as the
-- state machine that `tick` runs. `Rest` stands for the rest of the configuration, `Time` for
-- `DateTime<Utc>`, `Payload` for the request's body.
pub mod Laws
mod Tests
use studio_worker.Base.{
  String, Bool, true, false, not, ◌||◌, ◌&&◌, ◌≡◌, Option, none, some, if◌then◌else◌, same, List,
  [], ◌∷◌,
}

pub data RegistrationState (Time : Type 0) : Type 0 where
  pristine : RegistrationState Time
  -- The request's id, and when it was first seen pending.
  pending : String → Time → RegistrationState Time
  approved : RegistrationState Time
  rejected : String → RegistrationState Time

-- The fields of `Config` that registration reads and writes.
pub record Config (Rest : Type 0) : Type 0 where
  pub worker_id : Option String
  pub auth_token : Option String
  pub install_id : Option String
  pub registration_request_id : Option String
  pub registration_secret : Option String
  pub rest : Rest

-- `RegisterStatus`: what the studio says of a request.
pub data RegisterStatus : Type 0 where
  waits : RegisterStatus
  -- The worker's id and its token.
  accepts : String → String → RegisterStatus
  rejects : String → RegisterStatus

-- How one poll ended: the call or its task failed, a 404, or a status.
pub data Poll : Type 0 where
  poll_failed : Poll
  not_found : Poll
  found : RegisterStatus → Poll

-- The configuration in memory, the one on disk, and the state that the UI reads.
pub record World (Rest Time : Type 0) : Type 0 where
  pub cfg : Config Rest
  pub disk : Config Rest
  pub observers : RegistrationState Time

-- What one tick meets outside: fresh random values, the clock, whether each of its (at most two)
-- saves succeeds, and the studio's answers (`none`: no answer).
pub record Outside (Rest Time Payload : Type 0) : Type 0 where
  pub new_uuid : String
  pub new_secret_hex : String
  pub now : Time
  pub saves_install : Bool
  pub saves_outcome : Bool
  pub sha256_hex : String → String
  pub build_payload : Config Rest → String → String → Option Payload
  pub register_request : Payload → Option String
  pub poll_register_status : String → String → Poll

unfoldable pub is_some : Option String → Bool
is_some (some _) = true
is_some none = false

pub or_else : Option String → String → String
or_else (some s) d = s
or_else none d = d

module _ {Rest : Type 0} where
  needs_secret : Config Rest → Bool
  unfolding is_some
  needs_secret c = not (is_some c.registration_request_id) && not (is_some c.registration_secret)

  -- `clear_registration` (src/runtime.rs).
  clear_registration : Config Rest → Config Rest
  clear_registration c = record c {
    worker_id = none;
    auth_token = none;
    install_id = none;
    registration_request_id = none;
    registration_secret = none;
  }

module _ {Time : Type 0} where
  unfoldable pub pending_since : RegistrationState Time → String → Time → Time
  pending_since (pending prev since) request_id now = if same prev request_id then since else now
  pending_since pristine request_id now = now
  pending_since approved request_id now = now
  pending_since (rejected _) request_id now = now

module _ {Rest Time : Type 0} where
  -- `config::save`: a save that fails leaves the file as it was.
  save : Bool → World Rest Time → World Rest Time
  save ok w = if ok then record w { disk = w.cfg } else w

  observe : RegistrationState Time → World Rest Time → World Rest Time × RegistrationState Time
  observe s w = (record w { observers = s }, s)

  forget_request : World Rest Time → World Rest Time
  forget_request w = record w {
    cfg = record (w.cfg) { registration_request_id = none; registration_secret = none };
  }

  -- `reset_registration` (src/runtime.rs), and whether it saved.
  unfoldable pub reset_registration : Bool → World Rest Time → World Rest Time × Bool
  unfolding clear_registration
  reset_registration true w =
      let c = clear_registration w.cfg in (record { cfg = c; disk = c; observers = pristine }, true)
  reset_registration false w = (record w { cfg = clear_registration w.cfg }, false)

module _ {Rest Time Payload : Type 0} where
  seeded : Outside Rest Time Payload → Config Rest → Config Rest
  unfolding or_else needs_secret
  seeded o c = record c {
    install_id = some (or_else c.install_id o.new_uuid);
    registration_secret = if needs_secret c then some o.new_secret_hex else c.registration_secret;
  }

  ensure_install_state : Outside Rest Time Payload → World Rest Time → World Rest Time
  unfolding is_some needs_secret seeded save
  ensure_install_state o w =
      if not (is_some w.cfg.install_id) || needs_secret w.cfg
      then save o.saves_install (record w { cfg = seeded o w.cfg })
      else w

  -- A request without an answer leaves the observers alone.
  created :
      Outside Rest Time Payload
      → Option String
      → World Rest Time
      → World Rest Time × RegistrationState Time
  unfolding save observe
  created o none w = (w, pristine)
  created o (some request_id) w = observe (pending request_id o.now) (
      save o.saves_outcome
        (record w { cfg = record (w.cfg) { registration_request_id = some request_id } }))

  send :
      Outside Rest Time Payload
      → Option Payload
      → World Rest Time
      → World Rest Time × RegistrationState Time
  unfolding created
  send o none w = (w, pristine)
  send o (some payload) w = created o (o.register_request payload) w

  create_request :
      Outside Rest Time Payload
      → String
      → World Rest Time
      → World Rest Time × RegistrationState Time
  unfolding or_else send
  create_request o install_id w =
      let secret = or_else w.cfg.registration_secret o.new_secret_hex in
      let v = record w { cfg = record (w.cfg) { registration_secret = some secret } } in
      send o (o.build_payload v.cfg install_id (o.sha256_hex secret)) v

  settle_poll :
      Outside Rest Time Payload
      → String
      → Time
      → Poll
      → World Rest Time
      → World Rest Time × RegistrationState Time
  unfolding save observe forget_request
  settle_poll o request_id since poll_failed w = observe (pending request_id since) w
  settle_poll o request_id since not_found w =
      observe pristine (save o.saves_outcome (forget_request w))
  settle_poll o request_id since (found waits) w = observe (pending request_id since) w
  settle_poll o request_id since (found (accepts worker_id auth_token)) w =
      let v = forget_request w in
      observe approved (
        save o.saves_outcome (record v {
          cfg = record (v.cfg) { worker_id = some worker_id; auth_token = some auth_token };
        }))
  settle_poll o request_id since (found (rejects reason)) w =
      observe (rejected reason) (save o.saves_outcome (forget_request w))

  poll_existing :
      Outside Rest Time Payload
      → String
      → String
      → World Rest Time
      → World Rest Time × RegistrationState Time
  unfolding pending_since settle_poll
  poll_existing o request_id secret w =
      settle_poll o request_id (pending_since w.observers request_id o.now)
        (o.poll_register_status request_id secret) w

  decide :
      Outside Rest Time Payload
      → Option String
      → Option String
      → World Rest Time
      → World Rest Time × RegistrationState Time
  unfolding poll_existing create_request or_else
  decide o (some request_id) (some secret) w = poll_existing o request_id secret w
  decide o (some _) none w = create_request o (or_else w.cfg.install_id o.new_uuid) w
  decide o none _ w = create_request o (or_else w.cfg.install_id o.new_uuid) w

  unfoldable pub tick :
      Outside Rest Time Payload → World Rest Time → World Rest Time × RegistrationState Time
  unfolding is_some observe ensure_install_state decide
  tick o w =
      if is_some w.cfg.worker_id && is_some w.cfg.auth_token
      then observe approved w
      else let v = ensure_install_state o w in
        decide o v.cfg.registration_request_id v.cfg.registration_secret v

-- `Result<RegistrationGate>`: how `ensure_registered` (src/runtime.rs) ends, a rejection being its
-- error.
pub data Gate : Type 0 where
  ready stopped : Gate
  turned_down : String → Gate

-- One round of that loop: is it told to stop before the tick, what does the tick meet, is it told
-- to stop in the sleep that follows.
pub record Round (Rest Time Payload : Type 0) : Type 0 where
  pub stop_before : Bool
  pub outside : Outside Rest Time Payload
  pub stop_asleep : Bool

module _ {Rest Time : Type 0} where
  after_tick :
      RegistrationState Time
      → Bool
      → World Rest Time
      → World Rest Time × Option Gate
      → World Rest Time × Option Gate
  after_tick approved asleep w rest = (w, some ready)
  after_tick (rejected reason) asleep w rest = (w, some (turned_down reason))
  after_tick pristine asleep w rest = if asleep then (w, some stopped) else rest
  after_tick (pending _ _) asleep w rest = if asleep then (w, some stopped) else rest

module _ {Rest Time Payload : Type 0} where
  -- The rounds that come, and how the loop ended: `none` when it is still in the loop after them.
  unfoldable pub ensure_registered :
      List (Round Rest Time Payload) → World Rest Time → World Rest Time × Option Gate
  unfolding is_some tick after_tick
  ensure_registered [] w = (w, none)
  ensure_registered (r ∷ rs) w =
      let v = tick r.outside w in
      let rest = ensure_registered rs v.0 in
      if r.stop_before
      then (w, some stopped)
      else if is_some w.cfg.worker_id && is_some w.cfg.auth_token
      then (w, some ready)
      else after_tick v.1 r.stop_asleep v.0 rest
