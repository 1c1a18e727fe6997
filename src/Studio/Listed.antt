-- ===== src/Studio/Listed.antt =====
-- The studio's jobs among those that are listed (src/job_run.rs).
use studio_worker.Base.{
  String, ◌≡◌, ◌≢◌, refl, sym, ap, ◌∙◌, List, [], ◌∷◌, ◌++◌, All, arith, same, same_iff,
  if◌then◌else◌, append_assoc, append-nil,
}
use studio_worker.Studio.Frames.{Job}
use studio_worker.Studio.Worker.{
  JobSource, studio, local, lane, stream, CurrentJob, job_listed, without,
}

ids_of : JobSource → String → List String
ids_of studio id = id ∷ []
ids_of _ id = []

-- The studio's jobs among those that are listed.
unfoldable pub studio_ids : List CurrentJob → List String
unfolding ids_of
studio_ids [] = []
studio_ids (j ∷ js) = ids_of j.source j.job_id ++ studio_ids js

pub unlisted : String → List String → List String
unlisted id [] = []
unlisted id (x ∷ xs) = let rest = unlisted id xs in if same x id then rest else x ∷ rest

ids_of-foreign : (s : JobSource) (id : String) → s ≢ studio → ids_of s id ≡ []
unfolding ids_of
ids_of-foreign studio id h = absurd (h refl)
ids_of-foreign local id h = refl
ids_of-foreign lane id h = refl
ids_of-foreign stream id h = refl

pub studio_ids-foreign :
    (js : List CurrentJob) (j : CurrentJob)
    → j.source ≢ studio
    → studio_ids (js ++ j ∷ []) ≡ studio_ids js
unfolding studio_ids
studio_ids-foreign [] j h = rw (ids_of-foreign j.source j.job_id h) refl
studio_ids-foreign (x ∷ js) j h =
    ap {B = List String} (λ r. ids_of x.source x.job_id ++ r) (studio_ids-foreign js j h)

studio_ids-append :
    (js : List CurrentJob) (j : CurrentJob)
    → studio_ids (js ++ j ∷ []) ≡ studio_ids js ++ ids_of j.source j.job_id
unfolding studio_ids
studio_ids-append [] j = append-nil (ids_of j.source j.job_id)
studio_ids-append (x ∷ js) j =
    ap {B = List String} (λ r. ids_of x.source x.job_id ++ r) (studio_ids-append js j)
    ∙ sym (append_assoc (ids_of x.source x.job_id) (studio_ids js) (ids_of j.source j.job_id))

pub studio_ids-begun :
    (js : List CurrentJob) (job : Job)
    → studio_ids (js ++ job_listed job ∷ []) ≡ studio_ids js ++ job.job_id ∷ []
unfolding job_listed ids_of
studio_ids-begun js job = studio_ids-append js (job_listed job)

unlisted-ids_of :
    (s : JobSource) (k id : String) (rest : List String)
    → unlisted id (ids_of s k ++ rest)
      ≡ (if same k id then unlisted id rest else ids_of s k ++ unlisted id rest)
unfolding ids_of unlisted
unlisted-ids_of studio k id rest = refl
unlisted-ids_of local k id rest = ground arith
unlisted-ids_of lane k id rest = ground arith
unlisted-ids_of stream k id rest = ground arith

pub studio_ids-without :
    (id : String) (js : List CurrentJob) → studio_ids (without id js) ≡ unlisted id (studio_ids js)
unfolding studio_ids without unlisted
studio_ids-without id [] = refl
studio_ids-without id (j ∷ js) =
    ground (arith, unlisted-ids_of j.source j.job_id id (studio_ids js), studio_ids-without id js)

pub unlisted-kept : (id : String) (xs : List String) → All (λ b. b ≢ id) xs → unlisted id xs ≡ xs
unfolding unlisted
unlisted-kept id [] h = refl
unlisted-kept id (x ∷ xs) (n, h) = ground (arith, n, same_iff x id, unlisted-kept id xs h)

-- The end of the only job that has begun.
pub studio_ids-ended :
    (id : String) (js : List CurrentJob) → studio_ids js ≡ id ∷ [] → studio_ids (without id js) ≡ []
unfolding unlisted
studio_ids-ended id js h = rw (studio_ids-without id js, h) (ground (arith, same_iff id id))
