-- ===== src/DaemonLink/Thumbnails.antt =====
-- What filtering and inserting thumbnails keeps (src/thumbnail.rs).
use studio_worker.Base.{
  ℕ, zero, suc, ◌+◌, ◌≤◌, Bool, true, false, not, List, [], ◌∷◌, ◌++◌, keep, any, All, length,
  String, same, same_refl, ltb, ◌≡◌, refl, arith, if_both,
}
use studio_worker.DaemonLink.Replica.{thumbnails_cap, evict, insert_thumbnail}

-- Predicates on lists that the operations keep.
by_test : (P : Bool → Type 0) (b : Bool) → (b ≡ true → P true) → (b ≡ false → P false) → P b
by_test P true t f = t refl
by_test P false t f = f refl

module _ {A : Type 0} (p : A → Bool) where
  -- One round of the filter.
  abbrev filtered : A → List A → Bool → List A
  filtered x rest b = elim b [ true ↦ x ∷ rest | false ↦ rest ]

  pub All-keep : (Q : A → Type 0) (xs : List A) → All Q xs → All Q (keep p xs)
  All-keep Q [] h = tt
  All-keep Q (x ∷ xs) (q, h) =
      by_test (λ b. All Q (filtered x (keep p xs) b)) (p x) (λ _. (q, All-keep Q xs h))
        (λ _. All-keep Q xs h)

  pub kept_passed : (xs : List A) → All (λ x. p x ≡ true) (keep p xs)
  kept_passed [] = tt
  kept_passed (x ∷ xs) =
      by_test (λ b. All (λ y. p y ≡ true) (filtered x (keep p xs) b)) (p x)
        (λ e. (e, kept_passed xs)) (λ _. kept_passed xs)

  pub length-keep : (xs : List A) → length (keep p xs) ≤ length xs
  length-keep [] = omega arith
  length-keep (x ∷ xs) =
      by_test (λ b. length (filtered x (keep p xs) b) ≤ suc (length xs)) (p x)
        (λ _. omega (arith, length-keep xs)) (λ _. omega (arith, length-keep xs))

All-append_one :
    {A : Type 0} (Q : A → Type 0) (xs : List A) (x : A) → All Q xs → Q x → All Q (xs ++ x ∷ [])
All-append_one Q [] x h q = (q, tt)
All-append_one Q (y ∷ ys) x (p, h) q = (p, All-append_one Q ys x h q)

pub All-any :
    (Q : String → Type 0) (ids : List String)
    → ((id : String) → any (same id) ids ≡ true → Q id)
    → All Q ids
All-any Q [] h = tt
All-any Q (x ∷ ids) h =
    (h x (rw (same_refl x) refl), All-any Q ids (λ id m. h id (ground (arith, m))))

module _ {P : Type 0} where
  evict-All :
      (Q : String × P → Type 0) (fuel : ℕ) (ring : List (String × P))
      → All Q ring
      → All Q (evict fuel ring)
  unfolding evict
  evict-All Q zero ring h = h
  evict-All Q (suc fuel) [] h = tt
  evict-All Q (suc fuel) (t ∷ ts) h =
      if_both (All Q) (ltb thumbnails_cap (length (t ∷ ts))) _ _ (λ _. evict-All Q fuel ts h.1)
        (λ _. h)

  evict_bound :
      (fuel : ℕ) (ring : List (String × P))
      → length ring ≤ fuel + thumbnails_cap
      → length (evict fuel ring) ≤ thumbnails_cap
  unfolding evict
  evict_bound zero ring h = omega (arith, h)
  evict_bound (suc fuel) [] h = omega arith
  evict_bound (suc fuel) (t ∷ ts) h =
      if_both (λ r. length r ≤ thumbnails_cap) (ltb thumbnails_cap (length (t ∷ ts)))
        (evict fuel ts) (t ∷ ts) (λ _. evict_bound fuel ts (omega (arith, h)))
        (λ e. ground (arith, e))

  pub insert_thumbnail-All :
      (Q : String × P → Type 0) (id : String) (png : P) (ts : List (String × P))
      → All Q ts
      → Q (id, png)
      → All Q (insert_thumbnail id png ts)
  unfolding insert_thumbnail
  insert_thumbnail-All Q id png ts h q =
      let others = keep (λ (t : String × P). not (same t.0 id)) ts in
      evict-All Q (length (others ++ (id, png) ∷ [])) (others ++ (id, png) ∷ [])
        (All-append_one Q others (id, png) (All-keep (λ t. not (same t.0 id)) Q ts h) q)

  pub insert_thumbnail_bound :
      (id : String) (png : P) (ts : List (String × P))
      → length (insert_thumbnail id png ts) ≤ thumbnails_cap
  unfolding insert_thumbnail
  insert_thumbnail_bound id png ts =
      evict_bound _ (keep (λ (t : String × P). not (same t.0 id)) ts ++ (id, png) ∷ [])
        (omega arith)
