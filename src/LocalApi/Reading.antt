-- ===== src/LocalApi/Reading.antt =====
-- How much of a body is kept (src/local_api.rs).
use studio_worker.Base.{
  ℕ, suc, zero, ◌≤◌, ◌<◌, Bool, true, false, not, Option, none, some, [], ◌∷◌, length, take,
  length-take, ltb, leb, ◌≡◌, refl, ap, subst, ◌⊎◌, inl, inr, arith, if_both,
}
use studio_worker.Base.Chars.{Chars}
use studio_worker.LocalApi.Bodies.{
  BodyOutcome, body, too_large, unreadable, declares_more, read_body_capped, read_bytes_capped,
}

take_within : (n : ℕ) (s : Chars) → length (take (suc n) s) ≤ n → take (suc n) s ≡ s
take_within n [] h = refl
take_within zero (c ∷ cs) h = absurd (omega (arith, h))
take_within (suc n) (c ∷ cs) h = ap {B = Chars} (λ t. c ∷ t) (take_within n cs (omega (arith, h)))

-- A body that is let through is what was sent, whole and within the cap; one that is too large was
-- declared larger than the cap, or is.
abbrev pub Keeps : ℕ → Option ℕ → Chars → Option Chars → Type 0
Keeps cap declared sent (some got) = (got ≡ sent) × (length sent ≤ cap)
Keeps cap declared sent none = (declares_more cap declared ≡ true) ⊎ (cap < length sent)

abbrev pub Reads : (Chars → Bool) → ℕ → Option ℕ → Chars → BodyOutcome → Type 0
Reads is_utf8 cap declared sent (body got) =
    Keeps cap declared sent (some got) × (is_utf8 sent ≡ true)
Reads is_utf8 cap declared sent too_large = Keeps cap declared sent none
Reads is_utf8 cap declared sent unreadable = is_utf8 (take (suc cap) sent) ≡ false

within :
    (cap : ℕ) (sent : Chars)
    → length (take (suc cap) sent) ≤ cap
    → (take (suc cap) sent ≡ sent) × (length sent ≤ cap)
within cap sent h = (take_within cap sent h, omega (arith, h, length-take (suc cap) sent))

beyond : (cap : ℕ) (sent : Chars) → cap < length (take (suc cap) sent) → cap < length sent
beyond cap sent h = omega (arith, h, length-take (suc cap) sent)

read_body_capped-Reads :
    (is_utf8 : Chars → Bool) (cap : ℕ) (declared : Option ℕ) (sent : Chars)
    → Reads is_utf8 cap declared sent (read_body_capped is_utf8 cap declared sent)
unfolding read_body_capped
read_body_capped-Reads is_utf8 cap declared sent =
    let got = take (suc cap) sent in
    let R = Reads is_utf8 cap declared sent in
    if_both R (declares_more cap declared) _ _ (λ e. inl e)
      (λ _.
        if_both R (not (is_utf8 got)) _ _ (λ e. ground (arith, e))
          (λ u.
            if_both R (ltb cap (length got)) _ _ (λ e. inr (beyond cap sent (ground (arith, e))))
              (λ e.
                let w = within cap sent (ground (arith, e)) in
                let v : is_utf8 got ≡ true = ground (arith, u) in
                (w, subst (λ s. is_utf8 s ≡ true) w.0 v))))

read_bytes_capped-Keeps :
    (cap : ℕ) (declared : Option ℕ) (sent : Chars)
    → Keeps cap declared sent (read_bytes_capped cap declared sent)
unfolding read_bytes_capped
read_bytes_capped-Keeps cap declared sent =
    let got = take (suc cap) sent in
    let K = Keeps cap declared sent in
    if_both K (declares_more cap declared) _ _ (λ e. inl e)
      (λ _.
        if_both K (leb (length got) cap) _ _ (λ e. within cap sent (ground (arith, e)))
          (λ e. inr (beyond cap sent (ground (arith, e)))))

-- With both ways of reading a body, one that is let through is what was sent, whole, and within the cap,
-- and one that is too large was declared or is larger than the cap; text that is let through is UTF-8,
-- and unreadable text is not UTF-8 up to one byte past the cap.
read_body_lem :
    (is_utf8 : Chars → Bool) (cap : ℕ) (declared : Option ℕ) (sent : Chars)
    → Reads is_utf8 cap declared sent (read_body_capped is_utf8 cap declared sent)
      × Keeps cap declared sent (read_bytes_capped cap declared sent)
read_body_lem is_utf8 cap declared sent =
    (read_body_capped-Reads is_utf8 cap declared sent, read_bytes_capped-Keeps cap declared sent)
