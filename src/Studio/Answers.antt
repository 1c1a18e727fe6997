-- ===== src/Studio/Answers.antt =====
-- How `handle_offer` answers the studio (src/ws/session.rs).
use studio_worker.Base.{
  Bool, true, false, ◌≡◌, ◌≢◌, refl, sym, subst, ◌∙◌, Option, [], ◌∷◌, ◌++◌, arith, inl, inr, ◌⊎◌,
  Bool-cases,
}
use studio_worker.Admission.{Measure, MemoryProbe, Verdict, admitted, refused, Refused, need_of}
use studio_worker.Presence.{holds_back}
use studio_worker.Catalog.{CatalogModel}
use studio_worker.JobGate.{is_busy, try_reserve}
use studio_worker.Studio.Frames.{RejectCode, busy, paused, insufficient_memory, JobOfferClaim}
use studio_worker.Studio.Worker.{accepting, Worker}
use studio_worker.Studio.Offers.{
  job_of, turn_down, admit_offer, mirrored, if_room, reserved, handle_offer,
}

module _ {G P : Type 0} (m : Measure G) (eq : CatalogModel G P → CatalogModel G P → Bool) where
  abbrev pub Fits : Option (MemoryProbe G × G) → JobOfferClaim G P → Type 0
  Fits reading claim =
      admit_offer m eq reading (need_of m claim.vram_gb_estimate claim.weights) ≡ admitted

  -- Neither the operator, nor an update, nor the user keeps the worker from its jobs.
  abbrev pub Open : Worker G P → Type 0
  Open w =
      (w.paused ≡ false)
      × (w.update_pending ≡ false)
      × (holds_back w.only_when_idle w.user_presence ≡ false)

  -- When an offer is turned down with a code.
  abbrev pub Because :
      RejectCode → Option (MemoryProbe G × G) → JobOfferClaim G P → Worker G P → Type 0
  Because busy reading claim w =
      ((w.paused ≡ false) × (w.update_pending ≡ true))
      ⊎ (Open w × Fits reading claim × (is_busy w.gate ≡ true))
  Because paused reading claim w =
      (w.paused ≡ true)
      ⊎ ((w.update_pending ≡ false) × (holds_back w.only_when_idle w.user_presence ≡ true))
  Because insufficient_memory reading claim w = Open w × (¬ Fits reading claim)

  abbrev pub AcceptedTo : JobOfferClaim G P → Worker G P → Worker G P → Type 0
  AcceptedTo claim w v = v ≡ record w {
    gate = record { busy = true };
    catalog = mirrored m eq claim w.catalog;
    tasks = w.tasks ++ accepting (job_of claim) ∷ [];
  }

  abbrev pub OfferOutcome :
      Option (MemoryProbe G × G) → JobOfferClaim G P → Worker G P → Worker G P → Type 0
  OfferOutcome reading claim w v =
      (Open w × Fits reading claim × (is_busy w.gate ≡ false) × AcceptedTo claim w v)
      ⊎ ((code : RejectCode) × Because code reading claim w × (v ≡ turn_down claim code w))

  if_room-Outcome :
      (reading : Option (MemoryProbe G × G)) (claim : JobOfferClaim G P) (w : Worker G P)
      (v : Verdict G)
      → Open w
      → admit_offer m eq reading (need_of m claim.vram_gb_estimate claim.weights) ≡ v
      → OfferOutcome reading claim w (if_room m eq claim v w)
  unfolding if_room is_busy try_reserve reserved
  if_room-Outcome reading claim w (refused r) o e =
      inr (insufficient_memory, (o, λ f. not-admitted (sym e ∙ f)), refl)
    where
      not-admitted : {r : Refused G} → refused r ≢ admitted
      not-admitted q = ground (arith, q)
  if_room-Outcome reading claim w admitted o e = elim (Bool-cases w.gate.busy) [
    | inl b ↦ inr (busy, inr (o, e, b), rw b refl)
    | inr b ↦ inl (o, e, b, rw b refl)
  ]

  -- An offer is either accepted, which takes the slot and mirrors the model, and that only if the
  -- worker is open, the job fits and the slot is free; or it is turned down with the code of the
  -- reason, and nothing else changes.
  pub handle_offer_lem :
      (reading : Option (MemoryProbe G × G)) (claim : JobOfferClaim G P) (w : Worker G P)
      → OfferOutcome reading claim w (handle_offer m eq reading claim w)
  unfolding handle_offer
  handle_offer_lem reading claim w = elim (Bool-cases w.paused) [
    | inl p ↦ inr (paused, inl p, rw p refl)
    | inr p ↦ elim (Bool-cases w.update_pending) [
      | inl u ↦ inr (busy, inl (p, u), rw (p, u) refl)
      | inr u ↦ elim (Bool-cases (holds_back w.only_when_idle w.user_presence)) [
        | inl h ↦ inr (paused, inr (u, h), rw (p, u, h) refl)
        | inr h ↦
            let v = admit_offer m eq reading (need_of m claim.vram_gb_estimate claim.weights) in
            let q : handle_offer m eq reading claim w ≡ if_room m eq claim v w =
              rw (p, u, h) refl in
            subst (OfferOutcome reading claim w) (sym q)
              (if_room-Outcome reading claim w v (p, u, h) refl)
      ]
    ]
  ]
