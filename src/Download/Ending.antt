-- ===== src/Download/Ending.antt =====
-- How often a download starts again (src/engine/download.rs).
use studio_worker.Base.{
  ℕ, zero, suc, ◌<◌, true, false, not, ◌&&◌, some, [], ◌++◌, length, ltb, ◌==◌, ◌≡◌, refl, sym,
  subst, arith, if_both,
}
use studio_worker.Download.Names.{same_path_iff}
use studio_worker.Download.Fetch.{
  Bytes, Store, put_file, Response, Sent, lost, answered, Outside, Fetched, got, failed, unfinished,
  Wanted, part_of, verify_sha256, verify_download_len, is_success, starts_at, content_of,
  remove_temp_file, checked, copied_behind, appended, created, received, download_file_verified,
  validate_download_url,
}

abbrev pub IsEnded : {A : Type 0} → Fetched A → Type 0
IsEnded (got a) = Unit
IsEnded (failed e) = Unit
IsEnded unfinished = ⊥

abbrev Ends : Store × Fetched (Unit {0}) → Type 0
Ends r = IsEnded r.1

module _ (out : Outside) (w : Wanted) where
  checked-Ends : (whole : Bytes) (r : Response) (store : Store) → Ends (checked out w whole r store)
  unfolding checked
  checked-Ends whole r store =
      if_both Ends (not (verify_download_len (length r.body) r.content_length)) _ _ (λ _. tt)
        (λ _.
          if_both Ends (not (verify_sha256 (out.sha256_hex whole) w.sha256)) _ _ (λ _. tt)
            (λ _. if_both Ends out.rename_fails _ _ (λ _. tt) (λ _. tt)))

  copied_behind-Ends :
      (prefix : Bytes) (r : Response) (store : Store) → Ends (copied_behind out w prefix r store)
  unfolding copied_behind
  copied_behind-Ends prefix r store =
      if_both Ends r.broken _ _ (λ _. tt)
        (λ _.
          checked-Ends (prefix ++ r.body) r
            (put_file (part_of w.dest) (some (prefix ++ r.body)) store))

  appended-Ends :
      (prefix : Bytes) (r : Response) (store : Store) → Ends (appended out w prefix r store)
  unfolding appended
  appended-Ends prefix r store =
      if_both Ends out.read_fails _ _ (λ _. tt)
        (λ _. if_both Ends out.append_fails _ _ (λ _. tt) (λ _. copied_behind-Ends prefix r store))

  created-Ends : (r : Response) (store : Store) → Ends (created out w r store)
  unfolding created
  created-Ends r store =
      if_both Ends out.create_fails _ _ (λ _. tt) (λ _. copied_behind-Ends [] r store)

  -- Without a part no answer makes it start again.
  received-Ends-fresh :
      (again : Store → Store × Fetched (Unit {0})) (store : Store) (s : Sent)
      → Ends (received out again w [] store s)
  unfolding received
  received-Ends-fresh again store lost = tt
  received-Ends-fresh again store (answered r) =
      if_both Ends (not (is_success r.status)) _ _ (λ _. tt) (λ _. created-Ends r store)

  received-Ends :
      (again : Store → Store × Fetched (Unit {0})) (prefix : Bytes) (store : Store) (s : Sent)
      → Ends (again (remove_temp_file out (part_of w.dest) store))
      → Ends (received out again w prefix store s)
  unfolding received
  received-Ends again prefix store lost h = tt
  received-Ends again prefix store (answered r) h =
      if_both Ends (ltb 0 (length prefix) && r.status == 416) _ _ (λ _. h)
        (λ _.
          if_both Ends (not (is_success r.status)) _ _ (λ _. tt)
            (λ _.
              if_both Ends (ltb 0 (length prefix) && r.status == 206) _ _
                (λ _.
                  if_both Ends (starts_at (length prefix) r.content_range) _ _
                    (λ _. appended-Ends prefix r store) (λ _. h))
                (λ _. created-Ends r store)))

  fresh-Ends :
      (fuel n : ℕ) (store : Store)
      → content_of (store (part_of w.dest)) ≡ []
      → Ends (download_file_verified out (suc fuel) n w store)
  unfolding download_file_verified
  fresh-Ends fuel n store e =
      if_both Ends (not (validate_download_url (out.parse_url w.url))) _ _ (λ _. tt)
        (λ _.
          if_both Ends out.folder_fails _ _ (λ _. tt)
            (λ _.
              subst
                (λ p. Ends (
                  received out (download_file_verified out fuel (suc n) w) w p store
                    (out.send n w.url (length p))))
                (sym e)
                (received-Ends-fresh (download_file_verified out fuel (suc n) w) store
                  (out.send n w.url 0))))

  removed-content :
      (store : Store)
      → out.remove_fails ≡ false
      → content_of (remove_temp_file out (part_of w.dest) store (part_of w.dest)) ≡ []
  unfolding remove_temp_file put_file content_of
  removed-content store works =
      rw (works, (same_path_iff (part_of w.dest) (part_of w.dest)).1 refl) refl

-- Where a part can be removed, two rounds are enough for every answer of the network, and no more are
-- made.
pub download_file_verified-IsEnded :
    (out : Outside) (w : Wanted) (fuel n : ℕ) (store : Store)
    → out.remove_fails ≡ false
    → IsEnded (download_file_verified out (suc (suc fuel)) n w store).1
unfolding download_file_verified
download_file_verified-IsEnded out w fuel n store works =
    let prefix = content_of (store (part_of w.dest)) in
    let removed = remove_temp_file out (part_of w.dest) store in
    if_both Ends (not (validate_download_url (out.parse_url w.url))) _ _ (λ _. tt)
      (λ _.
        if_both Ends out.folder_fails _ _ (λ _. tt)
          (λ _.
            received-Ends out w (download_file_verified out (suc fuel) (suc n) w) prefix store
              (out.send n w.url (length prefix))
              (fresh-Ends out w fuel (suc n) removed (removed-content out w store works))))

-- Where it cannot, a server that answers every range with 416 keeps the download from ever ending.
pub download_file_verified-unfinished :
    (out : Outside) (w : Wanted) (r : Response) (fuel n : ℕ) (store : Store)
    → out.remove_fails ≡ true
    → out.folder_fails ≡ false
    → validate_download_url (out.parse_url w.url) ≡ true
    → r.status ≡ 416
    → ((m : ℕ) → out.send m w.url (length (content_of (store (part_of w.dest)))) ≡ answered r)
    → 0 < length (content_of (store (part_of w.dest)))
    → download_file_verified out fuel n w store ≡ (store, unfinished)
unfolding download_file_verified received remove_temp_file
download_file_verified-unfinished out w r zero n store stuck folder url s answers some_part = refl
download_file_verified-unfinished out w r (suc fuel) n store stuck folder url s answers some_part =
    let t : ltb 0 (length (content_of (store (part_of w.dest)))) ≡ true = ground arith in
    let ih =
      download_file_verified-unfinished out w r fuel (suc n) store stuck folder url s answers
        some_part in
    simp (url, folder, answers, t, s, stuck, ih)
