-- ===== src/Studio/GivingUp.antt =====
-- When a studio session stops connecting again (src/ws/session.rs).
use studio_worker.Base.{
  ℕ, zero, suc, ◌+◌, ◌^◌, ◌%◌, ◌≤◌, ◌<◌, Bool, true, false, ◌&&◌, ◌≡◌, refl, ap, ◌∙◌, Option, none,
  some, List, [], ◌∷◌, length, All, arith, inl, inr, ◌⊎◌, Bool-cases, ltb, if◌then◌else◌,
}
use studio_worker.Admission.{Measure}
use studio_worker.Catalog.{CatalogModel}
use studio_worker.Studio.Connection.{SessionOutcome, Online, in_state, connecting}
use studio_worker.Studio.Rounds.{
  run_one_session, reconnect_exhausted, has_credentials, Round, Looped, Exit, lost, judged,
  unless_over, one_round, spawn_ws_session, reconnect_cap_reached,
}

module _ {G P : Type 0} where
  unless_over-none : (l rest : Looped G P) → l.exit ≡ none → unless_over l rest ≡ rest
  unfolding unless_over
  unless_over-none l rest e = rw e refl

  unless_over-some : (l rest : Looped G P) (x : Exit) → l.exit ≡ some x → unless_over l rest ≡ l
  unfolding unless_over
  unless_over-some l rest x e = rw e refl

-- What the loop ends with after so many failures in a row.
abbrev pub ending : ℕ → ℕ → Option Exit
ending max_attempts failures =
    if ltb 0 max_attempts && ltb max_attempts failures then some reconnect_cap_reached else none

ending-over :
    (max_attempts failures more : ℕ)
    → max_attempts + 1 < 2 ^ 32
    → (max_attempts ≡ 0) ⊎ (failures ≤ max_attempts)
    → reconnect_exhausted max_attempts ((failures + 1) % 2 ^ 32) ≡ true
    → some reconnect_cap_reached ≡ ending max_attempts (failures + suc more)
unfolding reconnect_exhausted
ending-over zero failures more h c x = ground (arith, x)
ending-over (suc k) failures more h (inl z) x = absurd (omega (arith, z))
ending-over (suc k) failures more h (inr le) x = ground (arith, h, le, x)

ending-on :
    (max_attempts failures now more : ℕ)
    → max_attempts + 1 < 2 ^ 32
    → (max_attempts ≡ 0) ⊎ (failures ≤ max_attempts)
    → reconnect_exhausted max_attempts ((failures + 1) % 2 ^ 32) ≡ false
    → now ≡ (failures + 1) % 2 ^ 32
    → ((max_attempts ≡ 0) ⊎ (now ≤ max_attempts))
      × (ending max_attempts (now + more) ≡ ending max_attempts (failures + suc more))
unfolding reconnect_exhausted
ending-on zero failures now more h c x e = (inl refl, ground arith)
ending-on (suc k) failures now more h (inl z) x e = absurd (omega (arith, z))
ending-on (suc k) failures now more h (inr le) x e =
    (inr (ground (arith, h, le, x, e)), ground (arith, h, le, x, e))

first_failure : (max_attempts : ℕ) → reconnect_exhausted max_attempts 1 ≡ false
unfolding reconnect_exhausted
first_failure zero = refl
first_failure (suc k) = ground arith

module _ {G P : Type 0} (m : Measure G) (eq : CatalogModel G P → CatalogModel G P → Bool) where
  -- A round in which the worker tries to connect and loses the connection, welcomed before or not.
  abbrev pub Loses : Bool → Round G P → Type 0
  Loses greeting r =
      (r.stop ≡ false)
      × (has_credentials r.worker_id r.auth_token ≡ true)
      × ((s : Online G P)
          → ((run_one_session m eq r.attempt s).welcomed ≡ greeting)
            × (((run_one_session m eq r.attempt s).outcome ≡ none)
                ⊎ ((run_one_session m eq r.attempt s).outcome ≡ some SessionOutcome.disconnected)))

  round_lost :
      (greeting : Bool) (max_attempts failures : ℕ) (r : Round G P) (s : Online G P)
      → Loses greeting r
      → let attempt = ((if greeting then 0 else failures) + 1) % 2 ^ 32 in
        let l = one_round m eq max_attempts failures r s in
        (l.failures ≡ attempt)
        × (l.exit ≡ (
            if reconnect_exhausted max_attempts attempt then some reconnect_cap_reached else none))
  unfolding one_round judged lost
  round_lost greeting max_attempts failures r s h =
      let t = run_one_session m eq r.attempt (in_state connecting s) in
      let l = h.2 (in_state connecting s) in
      let b =
        Bool-cases
          (reconnect_exhausted max_attempts (((if greeting then 0 else failures) + 1) % 2 ^ 32)) in
      elim l.1 [
        | inl e ↦ elim b [
          | inl x ↦ rw (h.0, h.1, e, l.0, x) (refl, refl)
          | inr x ↦ rw (h.0, h.1, e, l.0, x) (refl, refl)
        ]
        | inr e ↦ elim b [
          | inl x ↦ rw (h.0, h.1, e, l.0, x) (refl, refl)
          | inr x ↦ rw (h.0, h.1, e, l.0, x) (refl, refl)
        ]
      ]

  spawn-lost :
      (max_attempts failures : ℕ) (rounds : List (Round G P)) (s : Online G P)
      → max_attempts + 1 < 2 ^ 32
      → (max_attempts ≡ 0) ⊎ (failures ≤ max_attempts)
      → All (Loses false) rounds
      → (spawn_ws_session m eq max_attempts failures rounds s).exit
        ≡ ending max_attempts (failures + length rounds)
  unfolding spawn_ws_session
  spawn-lost max_attempts failures [] s h c a = ground (arith, c)
  spawn-lost max_attempts failures (r ∷ rs) s h c (ra, a) =
      let l = one_round m eq max_attempts failures r s in
      let lost = round_lost false max_attempts failures r s ra in
      elim (Bool-cases (reconnect_exhausted max_attempts ((failures + 1) % 2 ^ 32))) [
        | inl x ↦
            let e : l.exit ≡ some reconnect_cap_reached = lost.1 ∙ rw x refl in
            ap (λ t. t.exit) (unless_over-some l _ reconnect_cap_reached e)
            ∙ e
            ∙ ending-over max_attempts failures (length rs) h c x
        | inr x ↦
            let e : l.exit ≡ none = lost.1 ∙ rw x refl in
            let on = ending-on max_attempts failures l.failures (length rs) h c x lost.0 in
            ap (λ t. t.exit) (unless_over-none l _ e)
            ∙ spawn-lost max_attempts l.failures rs l.online h on.0 a
            ∙ on.1
      ]

  -- A worker that loses its connection after it was welcomed never gives up, however often.
  spawn-welcomed :
      (max_attempts failures : ℕ) (rounds : List (Round G P)) (s : Online G P)
      → All (Loses true) rounds
      → (spawn_ws_session m eq max_attempts failures rounds s).exit ≡ none
  unfolding spawn_ws_session
  spawn-welcomed max_attempts failures [] s a = refl
  spawn-welcomed max_attempts failures (r ∷ rs) s (ra, a) =
      let l = one_round m eq max_attempts failures r s in
      let lost = round_lost true max_attempts failures r s ra in
      let e : l.exit ≡ none = lost.1 ∙ rw (first_failure max_attempts) refl in
      ap (λ t. t.exit) (unless_over-none l _ e)
      ∙ spawn-welcomed max_attempts l.failures rs l.online a

  -- With a cap that a `u32` counts past: after so many attempts in a row that never got a welcome, the
  -- session has given up exactly if there is a cap and they are more than it. Without a cap it goes on
  -- for ever.
  pub spawn_ws_session_lem :
      (max_attempts : ℕ) (rounds : List (Round G P)) (s : Online G P)
      → max_attempts + 1 < 2 ^ 32
      → All (Loses false) rounds
      → (spawn_ws_session m eq max_attempts 0 rounds s).exit ≡ ending max_attempts (length rounds)
  spawn_ws_session_lem max_attempts rounds s h a =
      spawn-lost max_attempts 0 rounds s h (inr (omega arith)) a
      ∙ ap (ending max_attempts) (omega arith)
