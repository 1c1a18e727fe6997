-- ===== src/Download/Safety.antt =====
-- What a download may change (src/engine/download.rs).
use studio_worker.Base.{
  ℕ, zero, suc, true, false, not, ◌&&◌, Option, none, some, [], ◌++◌, length, ltb, ◌==◌, ◌≡◌, refl,
  ◌∙◌, arith, inl, inr, Bool-cases, if_both,
}
use studio_worker.Download.Names.{FilePath, same_path, same_path_iff}
use studio_worker.Download.Fetch.{
  Bytes, Store, put_file, Response, Sent, lost, answered, Outside, DownloadError, bad_url,
  no_folder, request_failed, bad_status, unreadable_part, not_reopened, not_created, streaming,
  size_mismatch, sha256_mismatch, not_renamed, Fetched, got, failed, unfinished, Wanted, part_of,
  verify_sha256, verify_download_len, is_success, starts_at, content_of, remove_temp_file, checked,
  copied_behind, appended, created, received, download_file_verified, validate_download_url,
}

module _ (out : Outside) (w : Wanted) where
  -- At the end of a download that worked the file has the digest asked for and no part is left;
  -- one that did not work has left the file as it was.
  abbrev pub Settled : Store → Store → Fetched (Unit {0}) → Type 0
  Settled before after (got _) =
      (content : Bytes) × (after w.dest ≡ some content)
      × (verify_sha256 (out.sha256_hex content) w.sha256 ≡ true)
      × (after (part_of w.dest) ≡ none)
  Settled before after (failed e) = after w.dest ≡ before w.dest
  Settled before after unfinished = after w.dest ≡ before w.dest

  abbrev pub Others : Store → Store → Type 0
  Others before after =
      (q : FilePath)
      → same_path q w.dest ≡ false
      → same_path q (part_of w.dest) ≡ false
      → after q ≡ before q

  abbrev pub IsCareful : Store → Store × Fetched (Unit {0}) → Type 0
  IsCareful before r = Settled before r.0 r.1 × Others before r.0

  -- Only the part may differ.
  abbrev PartOnly : Store → Store → Type 0
  PartOnly before after = (q : FilePath) → same_path q (part_of w.dest) ≡ false → after q ≡ before q

  put_file-PartOnly :
      (content : Option Bytes) (store : Store)
      → PartOnly store (put_file (part_of w.dest) content store)
  unfolding put_file
  put_file-PartOnly content store q h = rw h refl

  remove_temp_file-PartOnly :
      (store : Store) → PartOnly store (remove_temp_file out (part_of w.dest) store)
  unfolding remove_temp_file
  remove_temp_file-PartOnly store q h = elim (Bool-cases out.remove_fails) [
    | inl e ↦ rw e refl
    | inr e ↦ rw e (put_file-PartOnly none store q h)
  ]

  module _ (apart : same_path w.dest (part_of w.dest) ≡ false) where
    -- What an end that failed must show.
    failed-IsCareful :
        (before after : Store) (e : DownloadError)
        → PartOnly before after
        → IsCareful before (after, failed e)
    failed-IsCareful before after e h = (h w.dest apart, λ q a b. h q b)

    removed-IsCareful :
        (before after : Store) (e : DownloadError)
        → PartOnly before after
        → IsCareful before (remove_temp_file out (part_of w.dest) after, failed e)
    removed-IsCareful before after e h =
        failed-IsCareful before (remove_temp_file out (part_of w.dest) after) e
          (λ q b. remove_temp_file-PartOnly after q b ∙ h q b)

    renamed-IsCareful :
        (before after : Store) (whole : Bytes)
        → PartOnly before after
        → verify_sha256 (out.sha256_hex whole) w.sha256 ≡ true
        → IsCareful before
            (put_file (part_of w.dest) none (put_file w.dest (some whole) after), got tt)
    unfolding put_file
    renamed-IsCareful before after whole h good = (
      (
        whole,
        rw (apart, (same_path_iff w.dest w.dest).1 refl) refl,
        good,
        rw ((same_path_iff (part_of w.dest) (part_of w.dest)).1 refl) refl,
      ),
      λ q a b. rw (b, a) (h q b),
    )

    checked-IsCareful :
        (before after : Store) (whole : Bytes) (r : Response)
        → PartOnly before after
        → IsCareful before (checked out w whole r after)
    unfolding checked
    checked-IsCareful before after whole r h =
        if_both (IsCareful before) (not (verify_download_len (length r.body) r.content_length)) _ _
          (λ _. removed-IsCareful before after size_mismatch h)
          (λ _.
            if_both (IsCareful before) (not (verify_sha256 (out.sha256_hex whole) w.sha256)) _ _
              (λ _. removed-IsCareful before after sha256_mismatch h)
              (λ good.
                if_both (IsCareful before) out.rename_fails _ _
                  (λ _. failed-IsCareful before after not_renamed h)
                  (λ _. renamed-IsCareful before after whole h (ground (arith, good)))))

    copied_behind-IsCareful :
        (prefix : Bytes) (r : Response) (store : Store)
        → IsCareful store (copied_behind out w prefix r store)
    unfolding copied_behind
    copied_behind-IsCareful prefix r store =
        let whole = prefix ++ r.body in
        let after = put_file (part_of w.dest) (some whole) store in
        let h = put_file-PartOnly (some whole) store in
        if_both (IsCareful store) r.broken _ _ (λ _. removed-IsCareful store after streaming h)
          (λ _. checked-IsCareful store after whole r h)

    untouched-IsCareful : (store : Store) (e : DownloadError) → IsCareful store (store, failed e)
    untouched-IsCareful store e = (refl, λ q a b. refl)

    appended-IsCareful :
        (prefix : Bytes) (r : Response) (store : Store)
        → IsCareful store (appended out w prefix r store)
    unfolding appended
    appended-IsCareful prefix r store =
        if_both (IsCareful store) out.read_fails _ _
          (λ _. untouched-IsCareful store unreadable_part)
          (λ _.
            if_both (IsCareful store) out.append_fails _ _
              (λ _. untouched-IsCareful store not_reopened)
              (λ _. copied_behind-IsCareful prefix r store))

    created-IsCareful : (r : Response) (store : Store) → IsCareful store (created out w r store)
    unfolding created
    created-IsCareful r store =
        if_both (IsCareful store) out.create_fails _ _ (λ _. untouched-IsCareful store not_created)
          (λ _. copied_behind-IsCareful [] r store)

    -- A run that starts where another, of which only the part may differ, would have.
    IsCareful-from :
        (before after : Store) (r : Store × Fetched (Unit {0}))
        → PartOnly before after
        → IsCareful after r
        → IsCareful before r
    IsCareful-from before after (last, got _) h (c, o) = (c, λ q a b. o q a b ∙ h q b)
    IsCareful-from before after (last, failed e) h (c, o) =
        (c ∙ h w.dest apart, λ q a b. o q a b ∙ h q b)
    IsCareful-from before after (last, unfinished) h (c, o) =
        (c ∙ h w.dest apart, λ q a b. o q a b ∙ h q b)

    received-IsCareful :
        (again : Store → Store × Fetched (Unit {0})) (prefix : Bytes) (store : Store) (s : Sent)
        → ((from : Store) → IsCareful from (again from))
        → IsCareful store (received out again w prefix store s)
    unfolding received
    received-IsCareful again prefix store lost keep = untouched-IsCareful store request_failed
    received-IsCareful again prefix store (answered r) keep =
        let removed = remove_temp_file out (part_of w.dest) store in
        let restarts =
          IsCareful-from store removed (again removed) (remove_temp_file-PartOnly store)
            (keep removed) in
        if_both (IsCareful store) (ltb 0 (length prefix) && r.status == 416) _ _ (λ _. restarts)
          (λ _.
            if_both (IsCareful store) (not (is_success r.status)) _ _
              (λ _. untouched-IsCareful store bad_status)
              (λ _.
                if_both (IsCareful store) (ltb 0 (length prefix) && r.status == 206) _ _
                  (λ _.
                    if_both (IsCareful store) (starts_at (length prefix) r.content_range) _ _
                      (λ _. appended-IsCareful prefix r store) (λ _. restarts))
                  (λ _. created-IsCareful r store)))

-- Whatever the network answers and whichever operations fail, a download that works leaves a file with
-- the digest asked for, if one was, and no part; any other end leaves the file as it was; and files
-- other than these two are never changed. The file's name must not be that of its own part.
pub download_file_verified-IsCareful :
    (out : Outside) (w : Wanted) (fuel n : ℕ) (store : Store)
    → same_path w.dest (part_of w.dest) ≡ false
    → IsCareful out w store (download_file_verified out fuel n w store)
unfolding download_file_verified
download_file_verified-IsCareful out w zero n store apart = (refl, λ q a b. refl)
download_file_verified-IsCareful out w (suc fuel) n store apart =
    let prefix = content_of (store (part_of w.dest)) in
    if_both (IsCareful out w store) (not (validate_download_url (out.parse_url w.url))) _ _
      (λ _. untouched-IsCareful out w apart store bad_url)
      (λ _.
        if_both (IsCareful out w store) out.folder_fails _ _
          (λ _. untouched-IsCareful out w apart store no_folder)
          (λ _.
            received-IsCareful out w apart (download_file_verified out fuel (suc n) w) prefix store
              (out.send n w.url (length prefix))
              (λ from. download_file_verified-IsCareful out w fuel (suc n) from apart)))
