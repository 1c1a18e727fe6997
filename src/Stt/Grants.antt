-- ===== src/Stt/Grants.antt =====
-- What stream tokens (src/stt_stream/tokens.rs) open, and for how long.
use studio_worker.Base.{
  ℕ, ◌+◌, ◌≤◌, ◌<◌, min, max, String, ◌≡◌, ◌≢◌, refl, none, some, List, [], ◌∷◌, arith, ◌↔◌,
  if◌then◌else◌, ltb, same, same_iff, ◌*◌, ◌^◌, All, Bool-cases, inl, inr, subst,
}
use studio_worker.Stt.Tokens.{
  min_ttl, max_ttl, expired, Grant, StreamTokens, opens, denied, lookup, retain_live, insert, mint,
  check,
}

-- As in a `HashMap`, no two grants share a key.
abbrev pub HasKey : String → Grant → Type 0
HasKey k g = g.key ≢ k

abbrev pub IsUnique : List Grant → Type 0
IsUnique [] = Unit
IsUnique (g ∷ gs) = All (HasKey g.key) gs × IsUnique gs

lookup-insert_same : (g : Grant) (gs : List Grant) → lookup g.key (insert g gs) ≡ some g
unfolding lookup insert
lookup-insert_same g [] = ground (arith, same_iff g.key g.key)
lookup-insert_same g (x ∷ xs) =
    ground (arith, same_iff g.key g.key, same_iff x.key g.key, lookup-insert_same g xs)

lookup-insert_other :
    (k : String) (g : Grant) (gs : List Grant) → g.key ≢ k → lookup k (insert g gs) ≡ lookup k gs
unfolding lookup insert
lookup-insert_other k g [] h = ground (arith, same_iff g.key k)
lookup-insert_other k g (x ∷ xs) h =
    ground (
      arith,
      same_iff g.key k,
      same_iff x.key k,
      same_iff x.key g.key,
      lookup-insert_other k g xs h,
    )

lookup-absent : (k : String) (gs : List Grant) → All (HasKey k) gs → lookup k gs ≡ none
unfolding lookup
lookup-absent k [] h = refl
lookup-absent k (g ∷ gs) h = ground (arith, same_iff g.key k, lookup-absent k gs h.1)

retain_live-All :
    (k : String) (now : ℕ) (gs : List Grant)
    → All (HasKey k) gs
    → All (HasKey k) (retain_live now gs)
unfolding retain_live
retain_live-All k now [] h = tt
retain_live-All k now (g ∷ gs) h = ground (arith, retain_live-All k now gs h.1)

insert-All :
    (k : String) (g : Grant) (gs : List Grant)
    → g.key ≢ k
    → All (HasKey k) gs
    → All (HasKey k) (insert g gs)
unfolding insert
insert-All k g [] n h = (n, tt)
insert-All k g (x ∷ xs) n h = ground (arith, insert-All k g xs n h.1)

retain_live-IsUnique : (now : ℕ) (gs : List Grant) → IsUnique gs → IsUnique (retain_live now gs)
unfolding retain_live
retain_live-IsUnique now [] h = tt
retain_live-IsUnique now (g ∷ gs) h =
    ground (arith, retain_live-IsUnique now gs h.1, retain_live-All g.key now gs h.0)

insert-IsUnique : (g : Grant) (gs : List Grant) → IsUnique gs → IsUnique (insert g gs)
unfolding insert
insert-IsUnique g [] h = (tt, tt)
insert-IsUnique g (x ∷ xs) h = elim (Bool-cases (same x.key g.key)) [
  | inl e ↦ rw e (subst (λ k. All (HasKey k) xs) ((same_iff x.key g.key).0 e) h.0, h.1)
  | inr e ↦ ground (
    arith,
    insert-IsUnique g xs h.1,
    insert-All x.key g xs (λ q. ground (arith, same_iff x.key g.key, e, q)) h.0,
  )
]

-- A lookup among the live grants finds what it found, if that is live.
lookup-live :
    (k : String) (now : ℕ) (gs : List Grant) (g : Grant)
    → IsUnique gs
    → (lookup k (retain_live now gs) ≡ some g) ↔ ((lookup k gs ≡ some g) × (now < g.expires_at))
unfolding lookup retain_live
lookup-live k now [] g h = ground arith
lookup-live k now (x ∷ xs) g h = ground (
  arith,
  same_iff x.key k,
  lookup-live k now xs g h.1,
  lookup-absent x.key (retain_live now xs) (retain_live-All x.key now xs h.0),
  lookup-absent x.key xs h.0,
)

-- Pruning at `now` does not change what a later check opens.
check-live :
    (sha256_hex : String → String) (token opened : String) (now time : ℕ) (gs : List Grant)
    → IsUnique gs
    → now ≤ time
    → (check sha256_hex token time (record { grants = retain_live now gs }) ≡ opens opened)
      ↔ (check sha256_hex token time (record { grants = gs }) ≡ opens opened)
unfolding check lookup retain_live
check-live sha256_hex token opened now time [] u h = ground arith
check-live sha256_hex token opened now time (x ∷ xs) u h = ground (
  arith,
  same_iff x.key (sha256_hex token),
  check-live sha256_hex token opened now time xs u.1 h,
  lookup-absent x.key (retain_live now xs) (retain_live-All x.key now xs u.0),
  lookup-absent x.key xs u.0,
)

abbrev minted : (String → String) → String → String → ℕ → ℕ → Grant
minted sha256_hex token model ttl now = record {
  key = sha256_hex token;
  model = model;
  expires_at = now + min (max ttl min_ttl) max_ttl;
}

-- After minting a token at `now`, and when the hash tells it from the other token asked about: the
-- token opens its model from then until it expires, at least 30 s and at most an hour later, and is
-- then told expired; any other token opens at a later time exactly the model that it opened before.
pub check-mint :
    (sha256_hex : String → String) (token model other opened : String) (ttl now time : ℕ)
    (s : StreamTokens)
    → IsUnique s.grants
    → (sha256_hex token ≡ sha256_hex other → token ≡ other)
    → token ≢ other
    → now ≤ time
    → let r = mint sha256_hex token model ttl now s in
      (now + 30 * 10 ^ 9 ≤ r.1.expires_at)
      × (r.1.expires_at ≤ now + 3600 * 10 ^ 9)
      × (check sha256_hex token time r.0
          ≡ (if ltb time r.1.expires_at then opens model else denied expired))
      × ((check sha256_hex other time r.0 ≡ opens opened)
          ↔ (check sha256_hex other time s ≡ opens opened))
unfolding mint check
check-mint sha256_hex token model other opened ttl now time s u inj n h =
    let g = minted sha256_hex token model ttl now in
    let live = retain_live now s.grants in
    (
      omega arith,
      omega arith,
      rw (lookup-insert_same g live) (ground arith),
      rw (lookup-insert_other (sha256_hex other) g live (λ q. n (inj q)))
          (check-live sha256_hex other opened now time s.grants u h),
    )

-- Minting keeps one grant for each key.
pub mint-IsUnique :
    (sha256_hex : String → String) (token model : String) (ttl now : ℕ) (s : StreamTokens)
    → IsUnique s.grants
    → IsUnique (mint sha256_hex token model ttl now s).0.grants
unfolding mint
mint-IsUnique sha256_hex token model ttl now s u =
    insert-IsUnique _ _ (retain_live-IsUnique now s.grants u)
