-- ===== src/Glb.antt =====
-- src/glb.rs: the header of a binary glTF file: writing it and checking it. A byte is a number.
pub mod Laws
mod Tests
use studio_worker.Base.{
  ℕ, zero, suc, ◌+◌, ◌*◌, ◌/◌, ◌%◌, ◌^◌, Bool, true, false, not, Option, none, some, List, [], ◌∷◌,
  ◌++◌, length, get_elem?, ltb, ◌==◌, if◌then◌else◌,
}

abbrev pub magic : ℕ
magic = 1179937895

abbrev pub version : ℕ
version = 2

abbrev pub chunk_json : ℕ
chunk_json = 1313821514

abbrev pub chunk_bin : ℕ
chunk_bin = 5130562

abbrev pub min_len : ℕ
min_len = 20

pub data GlbError : Type 0 where
  too_short : ℕ → GlbError
  wrong_magic : GlbError
  wrong_version : ℕ → GlbError
  -- The declared length and the actual one.
  wrong_length : ℕ → ℕ → GlbError
  first_chunk : GlbError

-- `Result<(), GlbError>`.
pub data Checked : Type 0 where
  valid : Checked
  invalid : GlbError → Checked

-- The read panics past the end; `check` rules that out by the length first.
or_zero : Option ℕ → ℕ
or_zero none = 0
or_zero (some b) = b

byte_at : List ℕ → ℕ → ℕ
unfolding or_zero
byte_at bytes at = or_zero (get_elem? bytes at)

unfoldable pub u32_at : List ℕ → ℕ → ℕ
unfolding byte_at
u32_at bytes at =
    byte_at bytes at
    + 256 * byte_at bytes (at + 1)
    + 65536 * byte_at bytes (at + 2)
    + 16777216 * byte_at bytes (at + 3)

unfoldable pub check : List ℕ → Checked
unfolding u32_at
check bytes =
    if ltb (length bytes) min_len
    then invalid (too_short (length bytes))
    else if not (u32_at bytes 0 == magic)
    then invalid wrong_magic
    else if not (u32_at bytes 4 == version)
    then invalid (wrong_version (u32_at bytes 4))
    else if not (u32_at bytes 8 == length bytes)
    then invalid (wrong_length (u32_at bytes 8) (length bytes))
    else if not (u32_at bytes 16 == chunk_json)
    then invalid first_chunk
    else valid

-- The loop pushes at most three bytes.
pad : ℕ → List ℕ → ℕ → List ℕ
pad zero bytes fill = bytes
pad (suc fuel) bytes fill =
    let rest = pad fuel (bytes ++ fill ∷ []) fill in if length bytes % 4 == 0 then bytes else rest

unfoldable pub padded : List ℕ → ℕ → List ℕ
unfolding pad
padded bytes fill = pad 3 bytes fill

-- `u32::to_le_bytes` of a `usize` cast to `u32`.
unfoldable pub le_bytes : ℕ → List ℕ
le_bytes n = n % 256 ∷ n / 256 % 256 ∷ n / 65536 % 256 ∷ n / 16777216 % 256 ∷ []

-- The words and the two padded chunks, in order.
unfoldable pub joined : List ℕ → List ℕ → List ℕ
unfolding le_bytes
joined json bin =
    le_bytes magic
    ++ (le_bytes version
        ++ (le_bytes (12 + 8 + length json + 8 + length bin)
            ++ (le_bytes (length json)
                ++ (le_bytes chunk_json
                    ++ (json ++ (le_bytes (length bin) ++ (le_bytes chunk_bin ++ bin)))))))

-- `json` is the document's text in bytes.
unfoldable pub assemble : List ℕ → List ℕ → List ℕ
unfolding joined
assemble json bin = joined (padded json 32) (padded bin 0)
