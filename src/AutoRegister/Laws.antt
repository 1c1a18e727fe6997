-- ===== src/AutoRegister/Laws.antt =====
-- What registration (src/auto_register.rs, src/runtime.rs) guarantees over any run of ticks.
use studio_worker.Base.{
  String, true, false, ◌≡◌, ◌≢◌, none, some, List, [], ◌∷◌, ◌++◌, arith, ◌↔◌, ◌⊎◌, same_iff, All,
}
use studio_worker.AutoRegister.{
  pristine, pending, approved, rejected, Config, waits, accepts, poll_failed, found, World, Outside,
  pending_since, tick, ready, turned_down, Round, ensure_registered, or_else,
}

module _ {Rest : Type 0} where
  -- The worker has its id and its token.
  abbrev pub IsRegistered : Config Rest → Type 0
  IsRegistered c = (c.worker_id ≢ none) × (c.auth_token ≢ none)

  -- A request id comes with its secret.
  abbrev pub IsPaired : Config Rest → Type 0
  IsPaired c = c.registration_request_id ≢ none → c.registration_secret ≢ none

module _ {Rest Time : Type 0} where
  -- A request is under way: the worker is not registered, and polls with the request's secret.
  pub record IsWaiting (request_id secret : String) (since : Time) (w : World Rest Time)
      : Type 0 where
    pub worker_id : w.cfg.worker_id ≡ none
    pub install_id : w.cfg.install_id ≢ none
    pub request : w.cfg.registration_request_id ≡ some request_id
    pub pair : w.cfg.registration_secret ≡ some secret
    pub observed : w.observers ≡ pending request_id since

  registered : String → String → World Rest Time → World Rest Time
  registered worker_id auth_token w =
      let c = record (w.cfg) {
        worker_id = some worker_id;
        auth_token = some auth_token;
        registration_request_id = none;
        registration_secret = none;
      } in
      record { cfg = c; disk = c; observers = approved }

module _ {Rest Time Payload : Type 0} where
  -- A tick ends approved exactly if the configuration in memory then holds both credentials.
  tick-approved_iff :
      (o : Outside Rest Time Payload) (w : World Rest Time)
      → ((tick o w).1 ≡ approved) ↔ IsRegistered (tick o w).0.cfg
  unfolding tick
  tick-approved_iff o w = ground arith

  -- Every tick leaves a request id paired with its secret.
  pub tick-IsPaired :
      (o : Outside Rest Time Payload) (w : World Rest Time)
      → IsPaired w.cfg
      → IsPaired (tick o w).0.cfg
  unfolding tick
  tick-IsPaired o w h = ground arith

  -- If what is on disk is what is in memory, with a request id paired with its secret, and the
  -- tick's saves succeed, then the tick leaves on disk what it leaves in memory.
  tick-saved :
      (o : Outside Rest Time Payload) (w : World Rest Time)
      → IsPaired w.cfg
      → w.disk ≡ w.cfg
      → o.saves_install ≡ true
      → o.saves_outcome ≡ true
      → (tick o w).0.disk ≡ (tick o w).0.cfg
  unfolding tick
  tick-saved o w h d i s = ground arith

  -- The state that a tick returns is the one that the UI reads, but for a tick that returns
  -- pristine with what the UI reads left as it was.
  tick-observers :
      (o : Outside Rest Time Payload) (w : World Rest Time)
      → ((tick o w).0.observers ≡ (tick o w).1)
        ⊎ (((tick o w).1 ≡ pristine) × ((tick o w).0.observers ≡ w.observers))
  unfolding tick
  tick-observers o w = ground arith

  -- While the studio gives no decision (the poll fails, or it says pending) a tick changes nothing,
  -- and still tells since when the request is pending.
  tick-waiting :
      (o : Outside Rest Time Payload) (request_id secret : String) (since : Time)
      (w : World Rest Time)
      → IsWaiting request_id secret since w
      → (o.poll_register_status request_id secret ≡ poll_failed)
        ⊎ (o.poll_register_status request_id secret ≡ found waits)
      → tick o w ≡ (w, pending request_id since)
  unfolding tick pending_since
  tick-waiting o request_id secret since w h p = ground (arith, same_iff request_id request_id)

  tick-accepted :
      (o : Outside Rest Time Payload) (request_id secret worker_id auth_token : String)
      (since : Time) (w : World Rest Time)
      → IsWaiting request_id secret since w
      → o.poll_register_status request_id secret ≡ found (accepts worker_id auth_token)
      → o.saves_outcome ≡ true
      → tick o w ≡ (registered worker_id auth_token w, approved)
  unfolding tick pending_since registered
  tick-accepted o request_id secret worker_id auth_token since w h p s =
      ground (arith, same_iff request_id request_id)

  -- A round in which the studio gives no decision and nothing stops the loop.
  abbrev pub IsIdle : String → String → Round Rest Time Payload → Type 0
  IsIdle request_id secret r =
      (r.stop_before ≡ false)
      × (r.stop_asleep ≡ false)
      × ((r.outside.poll_register_status request_id secret ≡ poll_failed)
          ⊎ (r.outside.poll_register_status request_id secret ≡ found waits))

  -- However many rounds pass without a decision, the round that brings the approval ends the loop
  -- ready, with the credentials in memory and on disk and the request forgotten, if its save
  -- succeeds.
  pub ensure_registered-accepted :
      (before : List (Round Rest Time Payload)) (r : Round Rest Time Payload)
      (later : List (Round Rest Time Payload))
      → (request_id secret worker_id auth_token : String) (since : Time) (w : World Rest Time)
      → IsWaiting request_id secret since w
      → All (IsIdle request_id secret) before
      → r.stop_before ≡ false
      → r.outside.poll_register_status request_id secret ≡ found (accepts worker_id auth_token)
      → r.outside.saves_outcome ≡ true
      → ensure_registered (before ++ r ∷ later) w ≡ (
        record {
          cfg = record (w.cfg) {
            worker_id = some worker_id;
            auth_token = some auth_token;
            registration_request_id = none;
            registration_secret = none;
          };
          disk = record (w.cfg) {
            worker_id = some worker_id;
            auth_token = some auth_token;
            registration_request_id = none;
            registration_secret = none;
          };
          observers = approved;
        },
        some ready,
      )
  unfolding ensure_registered registered
  ensure_registered-accepted [] r later rid secret wid token since w h a n p s =
      ground (arith, tick-accepted r.outside rid secret wid token since w h p s)
  ensure_registered-accepted (b ∷ before) r later rid secret wid token since w h a n p s = ground (
    arith,
    tick-waiting b.outside rid secret since w h a.0.2,
    ensure_registered-accepted before r later rid secret wid token since w h a.1 n p s,
  )

  tick-turned_down :
      (o : Outside Rest Time Payload) (w : World Rest Time) (reason : String)
      → (tick o w).1 ≡ rejected reason
      → ((tick o w).0.cfg.registration_request_id ≡ none)
        × ((tick o w).0.cfg.registration_secret ≡ none)
        × ((tick o w).0.observers ≡ rejected reason)
        × ¬ IsRegistered (tick o w).0.cfg
  unfolding tick
  tick-turned_down o w reason h = ground arith

  gate-ready :
      (rs : List (Round Rest Time Payload)) (w : World Rest Time)
      → (ensure_registered rs w).1 ≡ some ready
      → IsRegistered (ensure_registered rs w).0.cfg
  unfolding ensure_registered
  gate-ready [] w h = ground arith
  gate-ready (r ∷ rs) w h =
      ground (arith, tick-approved_iff r.outside w, gate-ready rs (tick r.outside w).0)

  gate-turned_down :
      (rs : List (Round Rest Time Payload)) (w : World Rest Time) (reason : String)
      → (ensure_registered rs w).1 ≡ some (turned_down reason)
      → ((ensure_registered rs w).0.cfg.registration_request_id ≡ none)
        × ((ensure_registered rs w).0.cfg.registration_secret ≡ none)
        × ((ensure_registered rs w).0.observers ≡ rejected reason)
        × ¬ IsRegistered (ensure_registered rs w).0.cfg
  unfolding ensure_registered
  gate-turned_down [] w reason h = ground arith
  gate-turned_down (r ∷ rs) w reason h =
      ground (
        arith,
        tick-turned_down r.outside w reason,
        gate-turned_down rs (tick r.outside w).0 reason,
      )

  -- After any rounds the loop ends ready only with both credentials in memory, and turned down only
  -- with the request forgotten, the rejection shown and not both credentials in memory.
  ensure_registered-gate :
      (rs : List (Round Rest Time Payload)) (w : World Rest Time) (reason : String)
      → ((ensure_registered rs w).1 ≡ some ready → IsRegistered (ensure_registered rs w).0.cfg)
        × ((ensure_registered rs w).1 ≡ some (turned_down reason)
            → ((ensure_registered rs w).0.cfg.registration_request_id ≡ none)
              × ((ensure_registered rs w).0.cfg.registration_secret ≡ none)
              × ((ensure_registered rs w).0.observers ≡ rejected reason)
              × ¬ IsRegistered (ensure_registered rs w).0.cfg)
  ensure_registered-gate rs w reason = (gate-ready rs w, gate-turned_down rs w reason)

  -- The install id that a worker asks with, and its configuration when it asks with a new secret.
  abbrev install_for : Outside Rest Time Payload → Config Rest → String
  install_for p c = or_else c.install_id p.new_uuid

  abbrev config_for : Outside Rest Time Payload → Config Rest → Config Rest
  config_for p c = record c {
    install_id = some (install_for p c);
    registration_secret = some p.new_secret_hex;
  }

  -- With no request, an unregistered worker asks with a new secret.
  tick-asks :
      (p : Outside Rest Time Payload) (w : World Rest Time) (request_id : String) (load : Payload)
      → w.cfg.registration_request_id ≡ none
      → w.cfg.registration_secret ≡ none
      → ¬ IsRegistered w.cfg
      → p.build_payload (config_for p w.cfg) (install_for p w.cfg) (p.sha256_hex p.new_secret_hex)
        ≡ some load
      → p.register_request load ≡ some request_id
      → ((tick p w).1 ≡ pending request_id p.now)
        × ((tick p w).0.cfg.registration_request_id ≡ some request_id)
        × ((tick p w).0.cfg.registration_secret ≡ some p.new_secret_hex)
  unfolding tick
  tick-asks p w request_id load r s u b q = ground arith

  -- A rejected worker forgets its request, so a later tick asks again by itself, with a new secret: if
  -- the request with its install id and the hash of the new secret is built, and the studio answers
  -- it, the worker waits for the new one.
  pub tick-rejected :
      (o p : Outside Rest Time Payload) (w : World Rest Time) (reason request_id : String)
      (load : Payload)
      → (tick o w).1 ≡ rejected reason
      → (let c = (tick o w).0.cfg in
          p.build_payload (config_for p c) (install_for p c) (p.sha256_hex p.new_secret_hex)
          ≡ some load)
      → p.register_request load ≡ some request_id
      → ((tick p (tick o w).0).1 ≡ pending request_id p.now)
        × ((tick p (tick o w).0).0.cfg.registration_request_id ≡ some request_id)
        × ((tick p (tick o w).0).0.cfg.registration_secret ≡ some p.new_secret_hex)
  tick-rejected o p w reason request_id load h b q =
      let t = tick-turned_down o w reason h in
      tick-asks p (tick o w).0 request_id load t.0 t.1 t.3 b q
