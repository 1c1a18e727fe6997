-- ===== src/Stt/Tokens.antt =====
-- src/stt_stream/tokens.rs: the short-lived tokens that open a streaming session. Times are nanoseconds
-- on chrono's clock; the hash of `secrets::sha256_hex` and the fresh secret are arguments.
use studio_worker.Base.{
  ℕ, ◌+◌, ◌*◌, ◌^◌, min, max, String, Bool, Option, none, some, List, [], ◌∷◌, if◌then◌else◌, ltb,
  leb, same, length,
}

abbrev pub min_ttl : ℕ
min_ttl = 30 * 10 ^ 9

abbrev pub max_ttl : ℕ
max_ttl = 3600 * 10 ^ 9

pub record StreamGrant : Type 0 where
  pub token : String
  pub model : String
  pub expires_at : ℕ

pub data TokenRejection : Type 0 where
  unknown expired : TokenRejection

pub record Grant : Type 0 where
  pub key : String
  pub model : String
  pub expires_at : ℕ

-- `HashMap<String, Grant>`: the grants with their keys, each key once.
pub record StreamTokens : Type 0 where
  pub grants : List Grant

-- `Result<String, TokenRejection>`.
pub data Checked : Type 0 where
  opens : String → Checked
  denied : TokenRejection → Checked

unfoldable pub lookup : String → List Grant → Option Grant
lookup k [] = none
lookup k (g ∷ gs) = if same g.key k then some g else lookup k gs

unfoldable pub retain_live : ℕ → List Grant → List Grant
retain_live now [] = []
retain_live now (g ∷ gs) =
    let rest = retain_live now gs in if ltb now g.expires_at then g ∷ rest else rest

unfoldable pub insert : Grant → List Grant → List Grant
insert g [] = g ∷ []
insert g (x ∷ xs) = if same x.key g.key then g ∷ xs else x ∷ insert g xs

-- A negative `ttl` is clamped as 0 is.
unfoldable pub mint :
    (String → String) → String → String → ℕ → ℕ → StreamTokens → StreamTokens × StreamGrant
unfolding retain_live insert
mint sha256_hex token model ttl now s =
    let expires_at = now + min (max ttl min_ttl) max_ttl in
    (
      record {
        grants =
            insert (record { key = sha256_hex token; model = model; expires_at = expires_at })
              (retain_live now s.grants);
      },
      record { token = token; model = model; expires_at = expires_at },
    )

judged : ℕ → Option Grant → Checked
judged now none = denied unknown
judged now (some g) = if leb g.expires_at now then denied expired else opens g.model

unfoldable pub check : (String → String) → String → ℕ → StreamTokens → Checked
unfolding lookup judged
check sha256_hex token now s = judged now (lookup (sha256_hex token) s.grants)

unfoldable pub len : StreamTokens → ℕ
len s = length s.grants

unfoldable pub is_empty : StreamTokens → Bool
unfolding len
is_empty s = leb (len s) 0
