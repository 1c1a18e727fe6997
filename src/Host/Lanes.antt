-- ===== src/Host/Lanes.antt =====
-- src/host.rs: the serving path of a loaded model.
use studio_worker.Base.{
  ℕ, String, Bool, true, false, ◌||◌, Option, none, some, List, [], ◌∷◌, if◌then◌else◌, ◌==◌,
}
use studio_worker.Lifecycle.{ModelState, unloading, serves, name}
use studio_worker.Host.State.{
  Loaded, Host, entry, put, not_loaded, lane_busy, Answer, answer, failing,
}

unfoldable pub lane_found : {G : Type 0} → Option Loaded → ModelState → String → Answer G Loaded
lane_found none state id = failing (not_loaded id (name state))
lane_found (some l) state id =
    if serves state then answer l else failing (not_loaded id (name state))

unfoldable pub in_list : List ℕ → ℕ → Bool
in_list [] n = false
in_list (x ∷ xs) n = x == n || in_list xs n

module _ {G F : Type 0} where
  unfoldable pub lane_of : Host F → ℕ → String → Host F × Answer G Loaded
  unfolding lane_found
  lane_of h now id =
      let e = entry h now id in (put h id e, lane_found e.loaded e.lifecycle.state id)

  -- `serve`, once the request holds the lane: the request's work runs on an answer.
  unfoldable pub serve : Host F → String → Loaded → Answer G Loaded
  unfolding in_list
  serve h id l =
      if in_list h.cancelled l.lane then failing (not_loaded id (name unloading)) else answer l

  unfoldable pub served : Answer G Loaded → Host F → String → Answer G Loaded
  unfolding serve
  served (failing e) h id = failing e
  served (answer l) h id = serve h id l

  -- `with_lane`: the lane is found in `h`, and is held at last in `h'`.
  unfoldable pub with_lane : Host F → Host F → ℕ → String → Answer G Loaded
  unfolding lane_of served
  with_lane h h' now id = served (lane_of h now id).1 h' id

  unfoldable pub tried : Bool → Answer G Loaded → Host F → String → Answer G Loaded
  unfolding serve
  tried free (failing e) h id = failing e
  tried true (answer l) h id = serve h id l
  tried false (answer l) h id = failing (lane_busy id)

  -- `try_with_lane`: `free` says whether nobody holds the lane.
  unfoldable pub try_with_lane : Bool → Host F → Host F → ℕ → String → Answer G Loaded
  unfolding lane_of tried
  try_with_lane free h h' now id = tried free (lane_of h now id).1 h' id
