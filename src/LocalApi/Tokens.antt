-- ===== src/LocalApi/Tokens.antt =====
-- Comparing tokens (src/local_api.rs).
use Prim.Native.Nat.{bit_or, bit_xor}
use studio_worker.Base.{
  ℕ, zero, suc, ◌<◌, Bool, true, false, not, ◌&&◌, [], ◌∷◌, length, All, ltb, ◌==◌, ◌≡◌, ◌↔◌, refl,
  ap, inl, inr, Bool-cases, ==_iff, arith,
}
use studio_worker.Base.Chars.{Chars}
use studio_worker.LocalApi.Gate.{folded, token_matches}

-- A test passes for every number under a limit, by running it on each.
passes_under : (ℕ → Bool) → ℕ → Bool
passes_under test zero = true
passes_under test (suc limit) = passes_under test limit && test limit

passed :
    (test : ℕ → Bool) (b limit : ℕ) → b < limit → passes_under test limit ≡ true → test b ≡ true
unfolding passes_under
passed test b zero under all = absurd (omega (arith, under))
passed test b (suc limit) under all = ground (arith, passed test b limit)

-- Two bytes: their difference is a byte, and 0 exactly if they are equal; two bytes together are 0
-- exactly if both are.
abbrev agree : Bool → Bool → Bool
agree true b = b
agree false b = not b

abbrev by_bytes : ℕ → ℕ → Bool
by_bytes x y =
    ltb (bit_xor x y) 256
    && ltb (bit_or x y) 256
    && agree (bit_xor x y == 0) (x == y)
    && agree (bit_or x y == 0) (x == 0 && y == 0)

byte_table : passes_under (λ x. passes_under (by_bytes x) 256) 256 ≡ true
unfolding passes_under
byte_table = refl

bytes_lem :
    (x y : ℕ)
    → x < 256
    → y < 256
    → (bit_xor x y < 256)
      × (bit_or x y < 256)
      × ((bit_xor x y ≡ 0) ↔ (x ≡ y))
      × ((bit_or x y ≡ 0) ↔ ((x ≡ 0) × (y ≡ 0)))
bytes_lem x y p q =
    let row = passed (λ a. passes_under (by_bytes a) 256) x 256 p byte_table in
    let cell : by_bytes x y ≡ true = passed (by_bytes x) y 256 q row in
    by_cell (bit_xor x y) (bit_or x y) cell
  where
    by_cell :
        (d o : ℕ)
        → (ltb d 256 && ltb o 256 && agree (d == 0) (x == y) && agree (o == 0) (x == 0 && y == 0))
          ≡ true
        → (d < 256) × (o < 256) × ((d ≡ 0) ↔ (x ≡ y)) × ((o ≡ 0) ↔ ((x ≡ 0) × (y ≡ 0)))
    by_cell d o h = ground (arith, h)

abbrev pub AreBytes : Chars → Type 0
AreBytes bs = All (λ b. b < 256) bs

folded-zero :
    (acc : ℕ) (a b : Chars)
    → acc < 256
    → AreBytes a
    → AreBytes b
    → length a ≡ length b
    → (folded acc a b ≡ 0) ↔ ((acc ≡ 0) × (a ≡ b))
unfolding folded
folded-zero acc [] [] h p q e = ground arith
folded-zero acc [] (y ∷ ys) h p q e = absurd (omega (arith, e))
folded-zero acc (x ∷ xs) [] h p q e = absurd (omega (arith, e))
folded-zero acc (x ∷ xs) (y ∷ ys) h (p, ps) (q, qs) e =
    let d = bytes_lem x y p q in
    let o = bytes_lem acc (bit_xor x y) h d.0 in
    let ih = folded-zero (bit_or acc (bit_xor x y)) xs ys o.1 ps qs (omega (arith, e)) in
    ground (arith, d, o, ih)

-- Tokens match exactly if they are equal.
pub token_matches_iff :
    (a b : Chars) → AreBytes a → AreBytes b → (token_matches a b ≡ true) ↔ (a ≡ b)
unfolding token_matches
token_matches_iff a b p q = elim (Bool-cases (length a == length b)) [
  | inl e ↦
      let l : length a ≡ length b = (==_iff (length a) (length b)).0 e in
      let f = folded-zero 0 a b (omega arith) p q l in
      let g = ==_iff (folded 0 a b) 0 in rw e ((λ h. (f.0 (g.0 h)).1, λ h. g.1 (f.1 (refl, h))))
  | inr e ↦ rw e (
    λ h. absurd (ground (arith, h)),
    λ h. absurd (ground (arith, e, ap {B = ℕ} (λ s. length s) h)),
  )
]
