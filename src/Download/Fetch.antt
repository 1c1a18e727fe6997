-- ===== src/Download/Fetch.antt =====
-- A download and its checks (src/engine/download.rs, src/net.rs).
use studio_worker.Base.{
  ℕ, zero, suc, ◌+◌, ◌-◌, ◌*◌, ◌^◌, Bool, true, false, not, ◌&&◌, ◌||◌, Option, none, some, List,
  [], ◌∷◌, ◌++◌, length, ltb, leb, ◌==◌, if◌then◌else◌,
}
use studio_worker.Base.Chars.{
  Chars, codes, same_chars, is_digit, trim, strip_prefix, same_ignoring_case,
}
use studio_worker.Download.Names.{Folder, FilePath, same_path, with_extension}

abbrev pub Bytes : Type 0
Bytes = List ℕ

abbrev pub Store : Type 0
Store = FilePath → Option Bytes

unfoldable pub put_file : FilePath → Option Bytes → Store → Store
unfolding same_path
put_file p content store q = if same_path q p then content else store q

-- `url::Url`, as far as the gate reads it; an IPv4 address by its octets, an IPv6 one as a number.
pub data UrlHost : Type 0 where
  domain : Chars → UrlHost
  ipv4 : ℕ → ℕ → ℕ → ℕ → UrlHost
  ipv6 : ℕ → UrlHost
  no_host : UrlHost

pub record Url : Type 0 where
  pub scheme : Chars
  pub host : UrlHost

unfoldable pub is_loopback : UrlHost → Bool
is_loopback (domain d) = same_ignoring_case d (codes "localhost")
is_loopback (ipv4 a b c d) = a == 127
is_loopback (ipv6 n) = n == 1
is_loopback no_host = false

unfoldable pub validate_download_url : Option Url → Bool
unfolding is_loopback
validate_download_url none = false
validate_download_url (some url) =
    same_chars url.scheme (codes "https")
    || (same_chars url.scheme (codes "http") && is_loopback url.host)

-- A response: `body` is what arrives, and `broken` tells that reading or writing it then fails.
pub record Response : Type 0 where
  pub status : ℕ
  pub content_range : Option Chars
  pub content_length : Option ℕ
  pub body : Bytes
  pub broken : Bool

pub data Sent : Type 0 where
  lost : Sent
  answered : Response → Sent

-- The network, what the libraries compute, and which operations of the disk fail: each of them always
-- or never in one run. A request is told
-- its number, its URL and where its range starts (0 for no range). `free` is the space at a folder,
-- `from_base64` the decoder.
pub record Outside : Type 0 where
  pub parse_url : Chars → Option Url
  pub send : ℕ → Chars → ℕ → Sent
  pub sha256_hex : Bytes → Chars
  pub from_base64 : Chars → Option Bytes
  pub free : Folder → Option ℕ
  pub folder_fails : Bool
  pub remove_fails : Bool
  pub read_fails : Bool
  pub append_fails : Bool
  pub create_fails : Bool
  pub rename_fails : Bool

pub data DownloadError : Type 0 where
  bad_url no_folder request_failed bad_status unreadable_part not_reopened not_created streaming
        size_mismatch sha256_mismatch not_renamed not_plain no_space not_inline not_written :
      DownloadError

-- `unfinished` is a run that its fuel did not let end.
pub data Fetched (A : Type 0) : Type 0 where
  got : A → Fetched A
  failed : DownloadError → Fetched A
  unfinished : Fetched A

u64_limit : ℕ
u64_limit = 2 ^ 64

-- `u64::from_str`, after an optional `+`.
unfoldable pub digits_from : ℕ → ℕ → Chars → Option ℕ
digits_from limit acc [] = some acc
digits_from limit acc (c ∷ cs) =
    let next = acc * 10 + (c - b'0') in
    let rest = digits_from limit next cs in if is_digit c && ltb next limit then rest else none

unfoldable pub unsigned : ℕ → Chars → Option ℕ
unsigned limit [] = none
unsigned limit (c ∷ cs) = digits_from limit 0 (c ∷ cs)

unfoldable pub parse_u64 : ℕ → Chars → Option ℕ
unfolding unsigned
parse_u64 limit [] = none
parse_u64 limit (c ∷ cs) = if c == b'+' then unsigned limit cs else unsigned limit (c ∷ cs)

-- `split(d).next()`.
unfoldable pub up_to : ℕ → Chars → Chars
up_to d [] = []
up_to d (c ∷ cs) = let rest = up_to d cs in if c == d then [] else c ∷ rest

unfoldable pub content_range_start : Chars → Option ℕ
unfolding u64_limit up_to strip_prefix trim parse_u64
content_range_start header = elim (strip_prefix (codes "bytes ") (trim header)) [
  | none ↦ none
  | some rest ↦ parse_u64 u64_limit (up_to b'-' rest)
]

unfoldable pub verify_download_len : ℕ → Option ℕ → Bool
verify_download_len copied none = true
verify_download_len copied (some expected) = copied == expected

unfoldable pub verify_sha256 : Chars → Option Chars → Bool
verify_sha256 actual_hex none = true
verify_sha256 actual_hex (some expected) = same_ignoring_case actual_hex (trim expected)

-- `StatusCode::is_success`.
unfoldable pub is_success : ℕ → Bool
is_success status = leb 200 status && ltb status 300

unfoldable pub content_of : Option Bytes → Bytes
content_of none = []
content_of (some content) = content

-- The 206 starts where it was asked to.
unfoldable pub starts_at : ℕ → Option Chars → Bool
starts_at from none = false
starts_at from (some header) = elim (content_range_start header) [
  | none ↦ false
  | some start ↦ start == from
]

-- What was asked for: the URL, where to, and the digest that the registry expects.
pub record Wanted : Type 0 where
  pub url : Chars
  pub dest : FilePath
  pub sha256 : Option Chars

unfoldable pub part_of : FilePath → FilePath
unfolding with_extension
part_of dest = with_extension (codes "part") dest

module _ (out : Outside) where
  unfoldable pub remove_temp_file : FilePath → Store → Store
  unfolding put_file
  remove_temp_file p store = if out.remove_fails then store else put_file p none store

  -- The body is in the part: the checks and the rename.
  unfoldable pub checked : Wanted → Bytes → Response → Store → Store × Fetched (Unit {0})
  unfolding part_of remove_temp_file put_file
  checked w whole r store =
      if not (verify_download_len (length r.body) r.content_length)
      then (remove_temp_file (part_of w.dest) store, failed size_mismatch)
      else if not (verify_sha256 (out.sha256_hex whole) w.sha256)
      then (remove_temp_file (part_of w.dest) store, failed sha256_mismatch)
      else if out.rename_fails
      then (store, failed not_renamed)
      else (put_file (part_of w.dest) none (put_file w.dest (some whole) store), got tt)

  -- The body goes behind what the part has; the digest covers both.
  unfoldable pub copied_behind : Wanted → Bytes → Response → Store → Store × Fetched (Unit {0})
  unfolding checked
  copied_behind w before r store =
      let whole = before ++ r.body in
      let written = put_file (part_of w.dest) (some whole) store in
      if r.broken
      then (remove_temp_file (part_of w.dest) written, failed streaming)
      else checked w whole r written

  unfoldable pub appended : Wanted → Bytes → Response → Store → Store × Fetched (Unit {0})
  unfolding copied_behind
  appended w before r store =
      if out.read_fails
      then (store, failed unreadable_part)
      else if out.append_fails
      then (store, failed not_reopened)
      else copied_behind w before r store

  unfoldable pub created : Wanted → Response → Store → Store × Fetched (Unit {0})
  unfolding copied_behind
  created w r store =
      if out.create_fails then (store, failed not_created) else copied_behind w [] r store

  -- By the answer to a request that starts behind `before`; `again` is the call from the start.
  unfoldable pub received :
      (Store → Store × Fetched (Unit {0}))
      → Wanted
      → Bytes
      → Store
      → Sent
      → Store × Fetched (Unit {0})
  unfolding appended created
  received again w before store lost = (store, failed request_failed)
  received again w before store (answered r) =
      let restarted = again (remove_temp_file (part_of w.dest) store) in
      let resumes = ltb 0 (length before) in
      if resumes && r.status == 416
      then restarted
      else if not (is_success r.status)
      then (store, failed bad_status)
      else if resumes && r.status == 206
      then (if starts_at (length before) r.content_range
          then appended w before r store
          else restarted)
      else created w r store

  unfoldable pub download_file_verified : ℕ → ℕ → Wanted → Store → Store × Fetched (Unit {0})
  unfolding received
  download_file_verified zero n w store = (store, unfinished)
  download_file_verified (suc fuel) n w store =
      let before = content_of (store (part_of w.dest)) in
      let answer = received (download_file_verified fuel (suc n) w) w before store in
      if not (validate_download_url (out.parse_url w.url))
      then (store, failed bad_url)
      else if out.folder_fails
      then (store, failed no_folder)
      else answer (out.send n w.url (length before))
