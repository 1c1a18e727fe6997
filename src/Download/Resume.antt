-- ===== src/Download/Resume.antt =====
-- A download that was interrupted goes on where it stopped (src/engine/download.rs).
use studio_worker.Base.{
  ℕ, zero, suc, ◌-◌, ◌≤◌, ◌<◌, true, false, none, some, [], ◌∷◌, ◌++◌, length, take, drop,
  length-drop, ltb, ◌==◌, ◌≡◌, refl, sym, ap, subst, ◌∙◌, arith, inl, inr, le_cases, if◌then◌else◌,
}
use studio_worker.Base.Chars.{Chars}
use studio_worker.Download.Names.{same_path, same_path_iff}
use studio_worker.Download.Fetch.{
  Bytes, Store, put_file, Response, Sent, answered, Outside, Fetched, got, Wanted, part_of,
  verify_sha256, verify_download_len, is_success, starts_at, content_of, content_range_start,
  remove_temp_file, checked, copied_behind, appended, created, received, download_file_verified,
  validate_download_url,
}

abbrev pub whole_file : Bytes → Response
whole_file content = record {
  status = 200;
  content_range = none;
  content_length = some (length content);
  body = content;
  broken = false;
}

abbrev pub rest_of : Bytes → Chars → ℕ → Response
rest_of content range from = record {
  status = 206;
  content_range = some range;
  content_length = some (length content - from);
  body = drop from content;
  broken = false;
}

abbrev pub unsatisfiable : Response
unsatisfiable = record {
  status = 416;
  content_range = none;
  content_length = some 0;
  body = [];
  broken = false;
}

-- What a server that keeps to HTTP's rules for ranges answers for a file: all of it, the rest of it, or
-- that the range cannot be satisfied. `header from` is its Content-Range.
abbrev pub serving : Bytes → (ℕ → Chars) → ℕ → Sent
serving content header from =
    if from == 0
    then answered (whole_file content)
    else if ltb from (length content)
    then answered (rest_of content (header from) from)
    else answered unsatisfiable

-- No operation of the disk fails.
pub record Works (out : Outside) : Type 0 where
  pub folder : out.folder_fails ≡ false
  pub removes : out.remove_fails ≡ false
  pub reads : out.read_fails ≡ false
  pub appends : out.append_fails ≡ false
  pub creates : out.create_fails ≡ false
  pub renames : out.rename_fails ≡ false

abbrev pub Complete : Wanted → Bytes → Store × Fetched (Unit {0}) → Type 0
Complete w content r = (r.1 ≡ got tt) × (r.0 w.dest ≡ some content)

module _ (out : Outside) (w : Wanted) (content : Bytes) (works : Works out)
    (good : verify_sha256 (out.sha256_hex content) w.sha256 ≡ true)
    (apart : same_path w.dest (part_of w.dest) ≡ false) where
  checked-Complete :
      (r : Response) (store : Store)
      → r.content_length ≡ some (length r.body)
      → Complete w content (checked out w content r store)
  unfolding checked put_file verify_download_len
  checked-Complete r store e =
      let l : verify_download_len (length r.body) r.content_length ≡ true = rw e (ground arith) in
      let q : checked out w content r store
          ≡ (put_file (part_of w.dest) none (put_file w.dest (some content) store), got tt) =
        rw (l, good, works.renames) refl in
      subst (Complete w content) (sym q)
        (refl, rw (apart, (same_path_iff w.dest w.dest).1 refl) refl)

  copied_behind-Complete :
      (prefix : Bytes) (r : Response) (store : Store)
      → prefix ++ r.body ≡ content
      → r.content_length ≡ some (length r.body)
      → r.broken ≡ false
      → Complete w content (copied_behind out w prefix r store)
  unfolding copied_behind
  copied_behind-Complete prefix r store e l b =
      let after = put_file (part_of w.dest) (some content) store in
      let q : copied_behind out w prefix r store ≡ checked out w content r after = rw (b, e) refl in
      subst (Complete w content) (sym q) (checked-Complete r after l)

  module _ (header : ℕ → Chars) (again : Store → Store × Fetched (Unit {0})) where
    -- Without a part, or with an empty one, the file comes whole.
    received-fresh :
        (store : Store)
        → Complete w content (received out again w [] store (serving content header 0))
    unfolding received created is_success
    received-fresh store =
        rw works.creates (copied_behind-Complete [] (whole_file content) store refl refl refl)

    starts_at-start :
        (from : ℕ) (range : Chars)
        → content_range_start range ≡ some from
        → starts_at from (some range) ≡ true
    unfolding starts_at
    starts_at-start from range h = ground (arith, h)

    -- The rest comes behind the part.
    received-rest :
        (prefix : Bytes) (store : Store)
        → 0 < length prefix
        → length prefix < length content
        → prefix ++ drop (length prefix) content ≡ content
        → content_range_start (header (length prefix)) ≡ some (length prefix)
        → Complete w content
            (received out again w prefix store (serving content header (length prefix)))
    unfolding received appended is_success
    received-rest prefix store some_part less joined h =
        let n = length prefix in
        let r = rest_of content (header n) n in
        let zero_test : (n == 0) ≡ false = ground arith in
        let less_test : ltb n (length content) ≡ true = ground arith in
        let part_test : ltb 0 n ≡ true = ground arith in
        let start_test = starts_at-start n (header n) h in
        let q : received out again w prefix store (serving content header n)
            ≡ copied_behind out w prefix r store =
          rw (zero_test, less_test, part_test, start_test, works.reads, works.appends) refl in
        subst (Complete w content) (sym q) (
          copied_behind-Complete prefix r store joined (ap some (sym (length-drop n content))) refl)

    -- Nothing is left to ask for: the part goes, and the download starts again.
    received-done :
        (prefix : Bytes) (store : Store)
        → 0 < length prefix
        → length content ≤ length prefix
        → received out again w prefix store (serving content header (length prefix))
          ≡ again (put_file (part_of w.dest) none store)
    unfolding received remove_temp_file
    received-done prefix store some_part all =
        let n = length prefix in
        let zero_test : (n == 0) ≡ false = ground arith in
        let less_test : ltb n (length content) ≡ false = ground arith in
        let part_test : ltb 0 n ≡ true = ground arith in
        rw (zero_test, less_test, part_test, works.removes) refl

  module _ (header : ℕ → Chars) (url : validate_download_url (out.parse_url w.url) ≡ true)
      (serves : (m from : ℕ) → out.send m w.url from ≡ serving content header from) where
    -- One round, as far as the answer.
    one_round :
        (fuel n : ℕ) (store : Store) (prefix : Bytes)
        → content_of (store (part_of w.dest)) ≡ prefix
        → download_file_verified out (suc fuel) n w store
          ≡ received out
              (download_file_verified out fuel (suc n) w)
              w
              prefix
              store
              (serving content header (length prefix))
    unfolding download_file_verified
    one_round fuel n store prefix e = simp (url, works.folder, e, serves)

    fresh-Complete :
        (fuel n : ℕ) (store : Store)
        → content_of (store (part_of w.dest)) ≡ []
        → Complete w content (download_file_verified out (suc fuel) n w store)
    fresh-Complete fuel n store e =
        subst (Complete w content) (sym (one_round fuel n store [] e))
          (received-fresh header (download_file_verified out fuel (suc n) w) store)

    no_part :
        (store : Store) → content_of (put_file (part_of w.dest) none store (part_of w.dest)) ≡ []
    unfolding put_file content_of
    no_part store = rw ((same_path_iff (part_of w.dest) (part_of w.dest)).1 refl) refl

    by_prefix :
        (fuel n : ℕ) (store : Store) (prefix : Bytes)
        → ((from : ℕ) → from < length content → content_range_start (header from) ≡ some from)
        → content_of (store (part_of w.dest)) ≡ prefix
        → prefix ++ drop (length prefix) content ≡ content
        → Complete w content (download_file_verified out (suc (suc fuel)) n w store)
    by_prefix fuel n store [] ranges e joined = fresh-Complete (suc fuel) n store e
    by_prefix fuel n store (b ∷ bs) ranges e joined =
        let prefix : Bytes = b ∷ bs in
        let again = download_file_verified out (suc fuel) (suc n) w in
        let start = one_round (suc fuel) n store prefix e in
        elim (le_cases (length content) (length prefix)) [
          | inl all ↦
              subst (Complete w content)
                (sym (start ∙ received-done header again prefix store (omega arith) all))
                (fresh-Complete fuel (suc n) (put_file (part_of w.dest) none store) (no_part store))
          | inr less ↦ subst (Complete w content) (sym start) (
              received-rest header again prefix store (omega arith) less joined
                (ranges (length prefix) less))
        ]

take-joined :
    (k : ℕ) (content : Bytes) → take k content ++ drop (length (take k content)) content ≡ content
take-joined zero content = refl
take-joined (suc k) [] = refl
take-joined (suc k) (b ∷ bs) = ap {B = Bytes} (λ r. b ∷ r) (take-joined k bs)

-- If no operation fails and the server answers ranges of one file by the rules, a download whose part
-- holds a prefix of that file, the whole file or nothing, ends in at most two rounds, and it works: the
-- file is the server's, provided that its digest is the one asked for, if one is.
pub download_file_verified-Complete :
    (out : Outside) (w : Wanted) (content : Bytes) (header : ℕ → Chars) (fuel n k : ℕ)
    (store : Store)
    → Works out
    → validate_download_url (out.parse_url w.url) ≡ true
    → ((m from : ℕ) → out.send m w.url from ≡ serving content header from)
    → ((from : ℕ) → from < length content → content_range_start (header from) ≡ some from)
    → verify_sha256 (out.sha256_hex content) w.sha256 ≡ true
    → same_path w.dest (part_of w.dest) ≡ false
    → content_of (store (part_of w.dest)) ≡ take k content
    → Complete w content (download_file_verified out (suc (suc fuel)) n w store)
download_file_verified-Complete out w content header fuel n k store works url serves ranges good
      apart e =
    by_prefix out w content works good apart header url serves fuel n store (take k content) ranges
      e (take-joined k content)
