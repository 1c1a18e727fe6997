-- ===== src/Glb/Laws.antt =====
-- A file that src/glb.rs assembles passes its own check.
use studio_worker.Base.{
  ℕ, ◌+◌, ◌*◌, ◌/◌, ◌%◌, ◌^◌, ◌≤◌, ◌<◌, ◌≡◌, refl, List, [], ◌∷◌, ◌++◌, length, take, arith,
  length-append, ◌≢◌, length-take, get_elem?-take,
}
use studio_worker.Glb.{chunk_bin, check, valid, u32_at, padded, le_bytes, joined, assemble}

le_bytes_lem :
    (n : ℕ)
    → n < 2 ^ 32
    → n % 256 + 256 * (n / 256 % 256) + 65536 * (n / 65536 % 256) + 16777216 * (n / 16777216 % 256)
      ≡ n
le_bytes_lem n h = omega (arith, h)

joined-length : (json bin : List ℕ) → length (joined json bin) ≡ 28 + length json + length bin
unfolding joined
joined-length json bin =
    omega (arith, length-append json (le_bytes (length bin) ++ (le_bytes chunk_bin ++ bin)))

-- Padding keeps the bytes and adds at most three, to a multiple of four.
pub length-padded :
    (xs : List ℕ) (fill : ℕ)
    → (length (padded xs fill) % 4 ≡ 0)
      × (length xs ≤ length (padded xs fill))
      × (length (padded xs fill) < length xs + 4)
unfolding padded
length-padded xs fill = ground (
  arith,
  length-append xs (fill ∷ []),
  length-append (xs ++ fill ∷ []) (fill ∷ []),
  length-append (xs ++ fill ∷ [] ++ fill ∷ []) (fill ∷ []),
)

check-joined :
    (json bin : List ℕ) → 28 + length json + length bin < 2 ^ 32 → check (joined json bin) ≡ valid
unfolding check joined
check-joined json bin h =
    let total = 12 + 8 + length json + 8 + length bin in
    ground (arith, joined-length json bin, le_bytes_lem total (omega (arith, h)))

-- Whatever the document and the buffer, the assembled file passes the check, if its length fits the
-- header's 32 bits.
pub check-assemble :
    (json bin : List ℕ) → length (assemble json bin) < 2 ^ 32 → check (assemble json bin) ≡ valid
unfolding assemble
check-assemble json bin h =
    check-joined (padded json 32) (padded bin 0)
      (omega (arith, h, joined-length (padded json 32) (padded bin 0)))

u32_at-take : (n at : ℕ) (bytes : List ℕ) → at + 3 < n → u32_at (take n bytes) at ≡ u32_at bytes at
unfolding u32_at
u32_at-take n at bytes h =
    rw
      (
        get_elem?-take n at bytes (omega (arith, h)),
        get_elem?-take n (at + 1) bytes (omega (arith, h)),
        get_elem?-take n (at + 2) bytes (omega (arith, h)),
        get_elem?-take n (at + 3) bytes (omega (arith, h)),
      )
      refl

valid-length :
    (bytes : List ℕ) → check bytes ≡ valid → (u32_at bytes 8 ≡ length bytes) × (20 ≤ length bytes)
unfolding check
valid-length bytes h = ground (arith, h)

-- A file that passes the check does not pass it any more when its end is cut off.
check-take :
    (n : ℕ) (bytes : List ℕ) → check bytes ≡ valid → n < length bytes → check (take n bytes) ≢ valid
check-take n bytes h k e =
    let whole = valid-length bytes h in
    let cut = valid-length (take n bytes) e in
    let l = length-take n bytes in
    omega (arith, whole.0, cut.0, cut.1, l, k, u32_at-take n 8 bytes (omega (arith, cut.1, l)))
