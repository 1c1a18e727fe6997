-- ===== src/LocalApi/Letting.antt =====
-- Who reaches a handler (src/local_api.rs).
use studio_worker.Base.{
  ℕ, true, false, Option, some, [], ◌∷◌, ◌++◌, ◌==◌, ◌≡◌, refl, ap, ◌∙◌, ◌⊎◌, inl, inr, arith,
  Bool-cases, Option-cases,
}
use studio_worker.Base.Chars.{
  Chars, codes, same_chars, same_chars_iff, same_ignoring_case, lower, strip_prefix,
}
use studio_worker.Thinking.Laws.{strip_prefix-eq}
use studio_worker.LocalApi.Gate.{
  before_first, before_last, names_loopback, bracketed, without_port, by_bracket, host_is_loopback,
  first_of, on_loopback, origin_is_loopback,
}

-- A name of the loopback interface.
abbrev pub IsLoopback : Chars → Type 0
IsLoopback name =
    (lower name ≡ codes "localhost") ⊎ ((name ≡ codes "127.0.0.1") ⊎ (name ≡ codes "::1"))

names_loopback-IsLoopback : (name : Chars) → names_loopback name ≡ true → IsLoopback name
unfolding names_loopback same_ignoring_case lower
names_loopback-IsLoopback name h = elim (Bool-cases (same_chars (lower name) (codes "localhost"))) [
  | inl e ↦ inl ((same_chars_iff (lower name) (codes "localhost")).0 e)
  | inr e ↦ elim (Bool-cases (same_chars name (codes "127.0.0.1"))) [
    | inl f ↦ inr (inl ((same_chars_iff name (codes "127.0.0.1")).0 f))
    | inr f ↦ inr (inr ((same_chars_iff name (codes "::1")).0 (third e f)))
  ]
]
  where
    third :
        same_chars (lower name) (codes "localhost") ≡ false
        → same_chars name (codes "127.0.0.1") ≡ false
        → same_chars name (codes "::1") ≡ true
    third e f = ground (arith, h, e, f)

first_here :
    (c d : ℕ) (cs b : Chars)
    → (c == d) ≡ true
    → ◌≡◌ {A = Option Chars} (some []) (some b)
    → (after : Chars) × (c ∷ cs ≡ b ++ (d ∷ after))
first_here c d cs [] t q = (cs, ground (arith, t))
first_here c d cs (x ∷ xs) t q = cc q

first_later :
    (c d : ℕ) (cs x b : Chars)
    → some (c ∷ x) ≡ some b
    → ((after : Chars) × (cs ≡ x ++ (d ∷ after)))
    → (after : Chars) × (c ∷ cs ≡ b ++ (d ∷ after))
first_later c d cs x [] q (after, e) = cc q
first_later c d cs x (y ∷ ys) q (after, e) =
    let same_tail : x ≡ ys = ground (arith, q) in
    let same_head : c ≡ y = ground (arith, q) in
    (after, ground (arith, same_head, e, ap {B = Chars} (λ t. t ++ (d ∷ after)) same_tail))

before_first-eq :
    (d : ℕ) (s b : Chars) → before_first d s ≡ some b → (after : Chars) × (s ≡ b ++ (d ∷ after))
unfolding before_first
before_first-eq d [] b h = cc h
before_first-eq d (c ∷ cs) b h = elim (Bool-cases (c == d)) [
  | inl t ↦
      let q : ◌≡◌ {A = Option Chars} (some []) (some b) = ground (arith, h, t) in
      first_here c d cs b t q
  | inr t ↦ elim (Option-cases (before_first d cs)) [
    | inl e ↦ absurd (ground (arith, h, t, e))
    | inr (x, e) ↦
        let q : some (c ∷ x) ≡ some b = ground (arith, h, t, e) in
        first_later c d cs x b q (before_first-eq d cs x e)
  ]
]

before_last-eq :
    (d : ℕ) (s b : Chars) → before_last d s ≡ some b → (after : Chars) × (s ≡ b ++ (d ∷ after))
unfolding before_last
before_last-eq d [] b h = cc h
before_last-eq d (c ∷ cs) b h = elim (Option-cases (before_last d cs)) [
  | inl e ↦ elim (Bool-cases (c == d)) [
    | inl t ↦
        let q : ◌≡◌ {A = Option Chars} (some []) (some b) = ground (arith, h, t, e) in
        first_here c d cs b t q
    | inr t ↦ absurd (ground (arith, h, t, e))
  ]
  | inr (x, e) ↦
      let q : some (c ∷ x) ≡ some b = ground (arith, h, e) in
      first_later c d cs x b q (before_last-eq d cs x e)
]

-- What the code takes for a loopback host: a loopback name, by itself, with a colon and anything behind
-- it, or in brackets with anything behind them.
abbrev pub LoopbackHost : Chars → Type 0
LoopbackHost value =
    (name : Chars) × IsLoopback name
    × ((value ≡ name)
        ⊎ (((port : Chars) × (value ≡ name ++ (b':' ∷ port)))
            ⊎ ((rest : Chars) × (value ≡ b'[' ∷ (name ++ (b']' ∷ rest))))))

pub host_is_loopback-LoopbackHost :
    (value : Chars) → host_is_loopback value ≡ true → LoopbackHost value
unfolding host_is_loopback by_bracket bracketed without_port
host_is_loopback-LoopbackHost value h = elim (Option-cases (strip_prefix (codes "[") value)) [
  | inr (rest, e) ↦ elim (Option-cases (before_first b']' rest)) [
    | inl f ↦ absurd (ground (arith, h, e, f))
    | inr (name, f) ↦
        let n : names_loopback name ≡ true = ground (arith, h, e, f) in
        let (after, q) = before_first-eq b']' rest name f in
        let p : value ≡ b'[' ∷ rest = strip_prefix-eq (codes "[") value rest e in
        (
          name,
          names_loopback-IsLoopback name n,
          inr (inr (after, p ∙ ap {B = Chars} (λ t. b'[' ∷ t) q)),
        )
  ]
  | inl e ↦ elim (Option-cases (before_last b':' value)) [
    | inl f ↦
        let n : names_loopback value ≡ true = ground (arith, h, e, f) in
        (value, names_loopback-IsLoopback value n, inl refl)
    | inr (name, f) ↦
        let n : names_loopback name ≡ true = ground (arith, h, e, f) in
        (name, names_loopback-IsLoopback name n, inr (inl (before_last-eq b':' value name f)))
  ]
]

abbrev pub LoopbackOrigin : Chars → Type 0
LoopbackOrigin value =
    (at : Chars) × LoopbackHost at
    × ((value ≡ codes "https://" ++ at) ⊎ (value ≡ codes "http://" ++ at))

pub origin_is_loopback-LoopbackOrigin :
    (value : Chars) → origin_is_loopback value ≡ true → LoopbackOrigin value
unfolding origin_is_loopback on_loopback first_of
origin_is_loopback-LoopbackOrigin value h =
    elim (Option-cases (strip_prefix (codes "https://") value)) [
      | inr (at, e) ↦
          let n : host_is_loopback at ≡ true = ground (arith, h, e) in
          (
            at,
            host_is_loopback-LoopbackHost at n,
            inl (strip_prefix-eq (codes "https://") value at e),
          )
      | inl e ↦ elim (Option-cases (strip_prefix (codes "http://") value)) [
        | inl f ↦ absurd (ground (arith, h, e, f))
        | inr (at, f) ↦
            let n : host_is_loopback at ≡ true = ground (arith, h, e, f) in
            (
              at,
              host_is_loopback-LoopbackHost at n,
              inr (strip_prefix-eq (codes "http://") value at f),
            )
      ]
    ]
