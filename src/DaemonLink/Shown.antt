-- ===== src/DaemonLink/Shown.antt =====
-- What a status that was applied makes the UI show, and what thumbnails keep of it
-- (src/daemon_link.rs).
use studio_worker.Base.{
  ◌≤◌, Bool, true, Option, none, some, List, [], ◌∷◌, map, any, All, length, String, same, same_iff,
  ◌≡◌, refl, sym, ◌∙◌, ap, arith, if_both,
}
use studio_worker.DaemonLink.Replica.{
  ShownJob, DaemonStatus, Replica, thumbnails_cap, to_current, ended_jobs, job_of_id, current_of,
  with_thumbnail, all_jobs, insert_thumbnail, apply_status,
}
use studio_worker.DaemonLink.Poller.{Client, fetch_one, fetch_thumbnails}
use studio_worker.DaemonLink.Thumbnails.{
  kept_passed, length-keep, insert_thumbnail-All, insert_thumbnail_bound,
}

module _ {C S : Type 0} where
  -- A thumbnail of a job that the daemon lists with one.
  abbrev pub IsListed : DaemonStatus C S → String → Type 0
  IsListed s id = any (same id) (with_thumbnail (all_jobs s)) ≡ true

  abbrev pub IsCurrent : DaemonStatus C S → Option (ShownJob C) → Type 0
  IsCurrent s none = Unit
  IsCurrent s (some j) = s.current_job_id ≡ some j.job_id

  job_of_id-IsCurrent :
      (s : DaemonStatus C S) (id : String) (jobs : List (ShownJob C))
      → s.current_job_id ≡ some id
      → IsCurrent s (job_of_id id jobs)
  unfolding job_of_id
  job_of_id-IsCurrent s id [] e = tt
  job_of_id-IsCurrent s id (j ∷ js) e =
      if_both (IsCurrent s) (same j.job_id id) _ _
        (λ m. e ∙ ap some (sym ((same_iff j.job_id id).0 m))) (λ _. job_of_id-IsCurrent s id js e)

  current_of-IsCurrent :
      (s : DaemonStatus C S) (o : Option String) (jobs : List (ShownJob C))
      → s.current_job_id ≡ o
      → IsCurrent s (current_of o jobs)
  unfolding current_of
  current_of-IsCurrent s none jobs e = tt
  current_of-IsCurrent s (some id) jobs e = job_of_id-IsCurrent s id jobs e

module _ {A C S P M L : Type 0} where
  -- The replica shows that status.
  abbrev pub ShowsStatus : DaemonStatus C S → Replica A C S P M L → Type 0
  ShowsStatus s r =
      (r.status ≡ some s)
      × (r.busy ≡ s.busy)
      × (r.paused ≡ s.paused)
      × (r.active_jobs ≡ map to_current s.active_jobs)
      × (r.recent_jobs ≡ ended_jobs s.recent_jobs)
      × (r.local_jobs ≡ ended_jobs s.local_jobs)
      × IsCurrent s r.current_job
      × All (λ t. IsListed s t.0) r.thumbnails
      × (length r.thumbnails ≤ thumbnails_cap)

  pub apply_status-ShowsStatus :
      (s : DaemonStatus C S) (r : Replica A C S P M L)
      → length r.thumbnails ≤ thumbnails_cap
      → ShowsStatus s (apply_status s r)
  unfolding apply_status
  apply_status-ShowsStatus s r h =
      let listed = λ (t : String × P). any (same t.0) (with_thumbnail (all_jobs s)) in
      (
        refl,
        refl,
        refl,
        refl,
        refl,
        refl,
        current_of-IsCurrent s s.current_job_id (map to_current s.active_jobs) refl,
        kept_passed listed r.thumbnails,
        omega (arith, h, length-keep listed r.thumbnails),
      )

  pub inserted-ShowsStatus :
      (s : DaemonStatus C S) (id : String) (png : P) (r : Replica A C S P M L)
      → IsListed s id
      → ShowsStatus s r
      → ShowsStatus s (record r { thumbnails = insert_thumbnail id png r.thumbnails })
  inserted-ShowsStatus s id png r q (st, bu, pa, ac, re, lo, cu, th, le) = (
    st,
    bu,
    pa,
    ac,
    re,
    lo,
    cu,
    insert_thumbnail-All (λ t. IsListed s t.0) id png r.thumbnails th q,
    insert_thumbnail_bound id png r.thumbnails,
  )

  -- Fetching keeps what inserting one thumbnail keeps.
  pub fetch_thumbnails-keeps :
      (Q : String → Type 0) (R : Replica A C S P M L → Type 0)
      → ((id : String) (png : P) (r : Replica A C S P M L)
          → Q id
          → R r
          → R (record r { thumbnails = insert_thumbnail id png r.thumbnails }))
      → (client : Client A C S P M L) (ids : List String) (r : Replica A C S P M L) → All Q ids
      → R r
      → R (fetch_thumbnails client ids r).0
  unfolding fetch_thumbnails
  fetch_thumbnails-keeps Q R insert client [] r q h = h
  fetch_thumbnails-keeps Q R insert client (id ∷ ids) r (q, qs) h =
      one (client.thumbnail id) (fetch_thumbnails client ids)
        (λ r' h'. fetch_thumbnails-keeps Q R insert client ids r' qs h')
    where
      one :
          (o : Option (Option P)) (rest : Replica A C S P M L → Replica A C S P M L × Bool)
          → ((r' : Replica A C S P M L) → R r' → R (rest r').0)
          → R (fetch_one id o rest r).0
      one none rest go = unfold fetch_one in h
      one (some none) rest go = unfold fetch_one in go r h
      one (some (some png)) rest go = unfold fetch_one in go _ (insert id png r q h)
