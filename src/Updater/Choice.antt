-- ===== src/Updater/Choice.antt =====
-- What the update check decides (src/update.rs).
use studio_worker.Base.{
  String, Bool, true, false, ◌≡◌, refl, sym, subst, Option, List, [], ◌∷◌, All, arith, inl, inr,
  ◌⊎◌, ◌↔◌, Bool-cases,
}
use studio_worker.Updater.Releases.{
  GithubRelease, CheckOutcome, up_to_date, newer_available, Semver, candidates, greatest, latest,
  judge_latest, decide, cpu, cuda, cuda_shipped, choice_of, choose_variant,
}

-- What the code relies on of the order of versions.
pub record IsOrder {V : Type 0} (semver : Semver V) : Type 0 where
  pub asym : (a b : V) → semver.greater a b ≡ true → semver.greater b a ≡ false
  pub trans_not :
      (a b c : V)
      → semver.greater a b ≡ false
      → semver.greater b c ≡ false
      → semver.greater a c ≡ false

module _ {V : Type 0} (semver : Semver V) (order : IsOrder semver) where
  abbrev pub NotOver : V → V → Type 0
  NotOver top v = semver.greater v top ≡ false

  irrefl : (v : V) → NotOver v v
  irrefl v = elim (Bool-cases (semver.greater v v)) [ inl e ↦ order.asym v v e | inr e ↦ e ]

  All-NotOver :
      (a b : V) (vs : List V) → semver.greater a b ≡ false → All (NotOver a) vs → All (NotOver b) vs
  All-NotOver a b [] h hs = tt
  All-NotOver a b (v ∷ vs) h (hv, hs) = (order.trans_not v a b hv h, All-NotOver a b vs h hs)

  abbrev pub Among : V → List V → Type 0
  Among v [] = ⊥
  Among v (w ∷ ws) = (v ≡ w) ⊎ Among v ws

  abbrev Tops : V → List V → V → Type 0
  Tops best vs top = Among top (best ∷ vs) × NotOver top best × All (NotOver top) vs

  -- The greatest is the first one or among the rest, and nothing is over it.
  greatest-Tops : (best : V) (vs : List V) → Tops best vs (greatest semver best vs)
  unfolding greatest
  greatest-Tops best [] = (inl refl, irrefl best, tt)
  greatest-Tops best (v ∷ vs) = elim (Bool-cases (semver.greater best v)) [
    | inl e ↦
        let g = greatest semver best vs in
        let r = greatest-Tops best vs in
        let q : greatest semver best (v ∷ vs) ≡ g = rw e refl in
        let among : Among g (best ∷ v ∷ vs) = elim r.0 [ inl x ↦ inl x | inr x ↦ inr (inr x) ] in
        subst (Tops best (v ∷ vs)) (sym q)
          (among, r.1, (order.trans_not v best g (order.asym best v e) r.1, r.2))
    | inr e ↦
        let g = greatest semver v vs in
        let r = greatest-Tops v vs in
        let q : greatest semver best (v ∷ vs) ≡ g = rw e refl in
        subst (Tops best (v ∷ vs)) (sym q) (inr r.0, order.trans_not best v g e r.1, (r.1, r.2))
  ]

  abbrev pub Decided : V → List V → CheckOutcome V → Type 0
  Decided current vs outcome =
      ((v : V) × (outcome ≡ newer_available current v)
        × Among v vs
        × (semver.greater v current ≡ true)
        × All (NotOver v) vs)
      ⊎ ((outcome ≡ up_to_date current) × All (NotOver current) vs)

  judge_latest-Decided :
      (current : V) (vs : List V)
      → Decided current vs (judge_latest semver current (latest semver vs))
  unfolding judge_latest latest
  judge_latest-Decided current [] = inr (refl, tt)
  judge_latest-Decided current (v ∷ vs) =
      let g = greatest semver v vs in
      let r = greatest-Tops v vs in
      elim (Bool-cases (semver.greater g current)) [
        | inl e ↦ inl (g, rw e refl, r.0, e, (r.1, r.2))
        | inr e ↦ inr (rw e refl, All-NotOver g current (v ∷ vs) e (r.1, r.2))
      ]

  -- With an order of versions: the check finds a newer version exactly if some release that counts has
  -- one; it is then the version of such a release, and no such release has a greater one.
  decide_lem :
      (releases : List GithubRelease) (current : V) (prerelease_ok : Bool)
      → Decided current
          (candidates semver prerelease_ok releases)
          (decide semver releases current prerelease_ok)
  unfolding decide
  decide_lem releases current prerelease_ok =
      judge_latest-Decided current (candidates semver prerelease_ok releases)

-- CUDA never reverts by choice: a CUDA build stays CUDA exactly if the release ships the CUDA archive of
-- its target; a CPU build moves to CUDA exactly if the release ships it and there is a driver.
choose_variant_lem :
    (release : GithubRelease) (target : Option String) (nvidia_driver : Bool)
    → (((choose_variant release cuda target nvidia_driver).variant ≡ cuda)
        ↔ (cuda_shipped release target ≡ true))
      × (((choose_variant release cpu target nvidia_driver).variant ≡ cuda)
          ↔ ((cuda_shipped release target ≡ true) × (nvidia_driver ≡ true)))
unfolding choose_variant
choose_variant_lem release target nvidia_driver = go (cuda_shipped release target) nvidia_driver
  where
    go :
        (shipped driver : Bool)
        → (((choice_of cuda shipped driver).variant ≡ cuda) ↔ (shipped ≡ true))
          × (((choice_of cpu shipped driver).variant ≡ cuda) ↔ ((shipped ≡ true) × (driver ≡ true)))
    go shipped driver = ground arith
