-- ===== src/Studio/Reconnects.antt =====
-- When a studio session connects again, and when it gives up (src/ws/session.rs).
use studio_worker.Base.{
  ℕ, Bool, true, false, ◌||◌, ◌≡◌, refl, sym, ap, subst, Option, none, some, List, [], ◌∷◌, length,
  inl, inr, ◌⊎◌, Bool-cases, Option-cases, same,
}
use studio_worker.Admission.{Measure, MemoryProbe}
use studio_worker.Catalog.{CatalogModel}
use studio_worker.Studio.Offers.{handle_offer}
use studio_worker.Studio.Steps.{Reach, next, offered}
use studio_worker.Studio.Connection.{
  WsClientError, connection_closed, transport, protocol, welcome, offer, heartbeat_ack,
  complete_ack, fail_ack, error, SessionEvent, frame, disconnected, WelcomeOutcome, Online,
  in_state, wait_for_welcome, run_dispatch_loop,
}
use studio_worker.Studio.Rounds.{
  Attempt, Attempted, unwelcome, refused_connect, greeted, opened, run_one_session,
}

module _ {G P : Type 0} (m : Measure G) (eq : CatalogModel G P → CatalogModel G P → Bool) where
  run_dispatch_loop-Reach :
      (readings : ℕ → Option (MemoryProbe G × G)) (events : List (SessionEvent G P))
      (s : Online G P)
      → Reach m eq s.worker
      → Reach m eq (run_dispatch_loop m eq readings events s).1.worker
  unfolding run_dispatch_loop
  run_dispatch_loop-Reach readings [] s r = r
  run_dispatch_loop-Reach readings (disconnected (WsClientError.auth_failed reason) ∷ es) s r = r
  run_dispatch_loop-Reach readings (disconnected (WsClientError.registration_revoked reason) ∷ es) s
        r =
      r
  run_dispatch_loop-Reach readings (disconnected (transport message) ∷ es) s r = r
  run_dispatch_loop-Reach readings (disconnected (protocol message) ∷ es) s r = r
  run_dispatch_loop-Reach readings (disconnected connection_closed ∷ es) s r = r
  run_dispatch_loop-Reach readings (SessionEvent.stopped ∷ es) s r = r
  run_dispatch_loop-Reach readings (frame (welcome id time) ∷ es) s r =
      run_dispatch_loop-Reach readings es s r
  run_dispatch_loop-Reach readings (frame (offer claim) ∷ es) s r =
      let v = handle_offer m eq (readings (length es)) claim s.worker in
      run_dispatch_loop-Reach readings es (record s { worker = v })
        (next r (offered (readings (length es)) claim s.worker))
  run_dispatch_loop-Reach readings (frame (error code message) ∷ es) s r = r
  run_dispatch_loop-Reach readings (frame (complete_ack id) ∷ es) s r =
      run_dispatch_loop-Reach readings es s r
  run_dispatch_loop-Reach readings (frame (fail_ack id) ∷ es) s r =
      run_dispatch_loop-Reach readings es s r
  run_dispatch_loop-Reach readings (frame heartbeat_ack ∷ es) s r =
      run_dispatch_loop-Reach readings es (record s { acked = true }) r

  -- Either the studio welcomed the worker and the worker took part in the session's steps, or the
  -- worker is as it was.
  abbrev pub Guarded : Attempt G P → Online G P → Attempted G P → Type 0
  Guarded a s t =
      ((t.welcomed ≡ false) × (t.online ≡ s))
      ⊎ ((t.welcomed ≡ true)
          × ((wait_for_welcome a.events).0 ≡ WelcomeOutcome.welcomed)
          × Reach m eq t.online.worker)

  greeted-Guarded :
      (a : Attempt G P) (s : Online G P) (w : WelcomeOutcome × List (SessionEvent G P))
      → Reach m eq s.worker
      → wait_for_welcome a.events ≡ w
      → Guarded a s (greeted m eq a.readings w s)
  unfolding greeted unwelcome in_state
  greeted-Guarded a s (WelcomeOutcome.welcomed, es) r e =
      inr (refl, ap (λ p. p.0) e, run_dispatch_loop-Reach a.readings es (in_state _ s) r)
  greeted-Guarded a s (WelcomeOutcome.auth_failed reason, es) r e = inl (refl, refl)
  greeted-Guarded a s (WelcomeOutcome.registration_revoked reason, es) r e = inl (refl, refl)
  greeted-Guarded a s (WelcomeOutcome.fatal reason, es) r e = inl (refl, refl)
  greeted-Guarded a s (WelcomeOutcome.disconnected, es) r e = inl (refl, refl)

  opened-Guarded :
      (a : Attempt G P) (s : Online G P) (err : Option WsClientError)
      → Reach m eq s.worker
      → Guarded a s (opened m eq err a s)
  unfolding opened unwelcome refused_connect
  opened-Guarded a s (some (WsClientError.auth_failed reason)) r = inl (refl, refl)
  opened-Guarded a s (some (WsClientError.registration_revoked reason)) r = inl (refl, refl)
  opened-Guarded a s (some connection_closed) r = inl (refl, refl)
  opened-Guarded a s (some (transport message)) r = inl (refl, refl)
  opened-Guarded a s (some (protocol message)) r = inl (refl, refl)
  opened-Guarded a s none r = elim (Option-cases a.engine_error) [
    | inr (err, e) ↦ inl (rw e refl, rw e refl)
    | inl e ↦ elim (Option-cases a.hello_error) [
      | inr (err, h) ↦ inl (rw (e, h) refl, rw (e, h) refl)
      | inl h ↦
          let w = wait_for_welcome a.events in
          let q : opened m eq none a s ≡ greeted m eq a.readings w s = rw (e, h) refl in
          subst (Guarded a s) (sym q) (greeted-Guarded a s w r refl)
    ]
  ]

  -- No frame is handled before the studio's welcome: an attempt without it leaves the worker as it
  -- was, and one with it leaves a worker that a run of the session reaches.
  run_one_session-Guarded :
      (a : Attempt G P) (s : Online G P)
      → Reach m eq s.worker
      → Guarded a s (run_one_session m eq a s)
  unfolding run_one_session unwelcome
  run_one_session-Guarded a s r = elim (Bool-cases (same a.worker_id "" || same a.auth_token "")) [
    | inl e ↦ inl (rw e refl, rw e refl)
    | inr e ↦
        let q : run_one_session m eq a s ≡ opened m eq a.connect_error a s = rw e refl in
        subst (Guarded a s) (sym q) (opened-Guarded a s a.connect_error r)
  ]
