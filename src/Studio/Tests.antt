-- ===== src/Studio/Tests.antt =====
-- A studio session at concrete inputs: one offer, and what becomes of it.
use studio_worker.Base.{
  ℕ, ◌≤◌, ◌^◌, ◌*◌, ◌-◌, min, Bool, true, false, ◌≡◌, refl, none, some, [], ◌∷◌, ◌↔◌, inr, arith,
  same,
}
use studio_worker.Admission.{whole_gib}
use studio_worker.Catalog.{image, CatalogModel, Catalog}
use studio_worker.JobGate.{is_busy}
use studio_worker.JobGate.Laws.{Reach as GateReach}
use studio_worker.Studio.Frames.{JobOfferClaim}
use studio_worker.Studio.Worker.{lane, CurrentJob, Worker, list_job}
use studio_worker.Studio.Offers.{handle_offer}
use studio_worker.Studio.Tasks.{Answer, EngineEnd}
use studio_worker.Studio.Steps.{Settings, at_start, Reach, fresh, next, offered, lists, holders}
use studio_worker.Studio.Gate.{view, Reach-view}
use studio_worker.Studio.Listed.{studio_ids}
use studio_worker.Studio.Jobs.{SaysJob, running_lem}
use studio_worker.Studio.Answers.{OfferOutcome, handle_offer_lem}
use studio_worker.Studio.Promises.{answers, offers_of, answered_once, total}
use studio_worker.Studio.Settling.{awaits, settle, settle_lem}
use studio_worker.Studio.Connection.{Online, connecting, frame, welcome, offer, transport}
use studio_worker.Studio.Rounds.{
  Attempt, Round, SessionSchedule, backoff_for, has_credentials, run_one_session, spawn_ws_session,
}
use studio_worker.Studio.Backoff.{backoff_for_lem}
use studio_worker.Studio.GivingUp.{ending, Loses, spawn_ws_session_lem}

abbrev no_models : Catalog ℕ (Unit {0})
no_models = record { models = []; dismissed_seeds = [] }

abbrev never : CatalogModel ℕ (Unit {0}) → CatalogModel ℕ (Unit {0}) → Bool
never a b = false

abbrev open_settings : Settings
open_settings = record {
  paused = false;
  update_pending = false;
  only_when_idle = false;
  user_presence = none;
}

abbrev idle_worker : Worker ℕ (Unit {0})
idle_worker = at_start open_settings no_models []

abbrev claim : JobOfferClaim ℕ (Unit {0})
claim = record {
  job_id = "j1";
  model = "z";
  vram_gb_estimate = 6;
  weights = record { offload_to_cpu = none; mmap = none; approx_bytes = [] };
  kind = image;
  prompt = "a fox";
  preview = "a fox";
  payload = tt;
}

abbrev after_offer : Worker ℕ (Unit {0})
after_offer = handle_offer whole_gib never none claim idle_worker

abbrev idle_reached : Reach whole_gib never idle_worker
idle_reached = fresh open_settings no_models []

abbrev offer_reached : Reach whole_gib never after_offer
offer_reached = next idle_reached (offered none claim idle_worker)

-- A request on a lane beside it.
abbrev lane_job : CurrentJob
lane_job = record { job_id = "local-7"; kind = image; model = "z"; prompt = ""; source = lane }

abbrev beside_lane : Worker ℕ (Unit {0})
beside_lane = list_job lane_job after_offer

beside_lane_reached : Reach whole_gib never beside_lane
beside_lane_reached = next offer_reached (lists lane_job after_offer (ground arith))

abbrev job_done : ℕ → Answer
job_done n = record {
  send_error = none;
  upload_error = some "no route";
  engine = EngineEnd.broke "no kernel" true;
}

taken_run :
    (after_offer.current_job ≡ none)
    × (is_busy after_offer.gate ≡ true)
    × (holders after_offer.tasks ≡ 1)
unfolding handle_offer at_start is_busy holders
taken_run = (refl, refl, refl)

Reach-view_example : GateReach (view after_offer)
Reach-view_example = Reach-view whole_gib never offer_reached

running_lem_example :
    (holders beside_lane.tasks ≤ 1)
    × ((is_busy beside_lane.gate ≡ true) ↔ (holders beside_lane.tasks ≡ 1))
    × SaysJob beside_lane
running_lem_example = running_lem whole_gib never beside_lane_reached

handle_offer_lem_example :
    OfferOutcome whole_gib never none claim idle_worker
      (handle_offer whole_gib never none claim idle_worker)
handle_offer_lem_example = handle_offer_lem whole_gib never none claim idle_worker

answered_once_example : answers "j1" after_offer ≡ offers_of whole_gib never "j1" offer_reached
answered_once_example = answered_once whole_gib never "j1" offer_reached

settle_lem_example :
    ((settle (total awaits beside_lane.tasks) job_done beside_lane).tasks ≡ [])
    × (is_busy (settle (total awaits beside_lane.tasks) job_done beside_lane).gate ≡ false)
    × ((settle (total awaits beside_lane.tasks) job_done beside_lane).current_job ≡ none)
    × (studio_ids (settle (total awaits beside_lane.tasks) job_done beside_lane).active_jobs ≡ [])
settle_lem_example = settle_lem whole_gib never job_done beside_lane_reached

abbrev slow : SessionSchedule
slow = record { base_backoff_ms = 1000; max_backoff_ms = 30000 }

backoff_for_lem_example :
    (backoff_for 3 slow ≡ min (1000 * 2 ^ (3 - 1)) 30000)
    × (backoff_for 3 slow ≤ backoff_for 9 slow)
    × (backoff_for 9 slow ≤ 30000)
backoff_for_lem_example = backoff_for_lem 3 9 slow (omega arith) (omega arith)

abbrev online : Online ℕ (Unit {0})
online = record { worker = idle_worker; session_state = connecting; acked = false }

abbrev attempt : Attempt ℕ (Unit {0})
attempt = record {
  worker_id = "w1";
  auth_token = "t1";
  connect_error = none;
  engine_error = none;
  hello_error = none;
  events = frame (offer claim) ∷ frame (welcome "w1" "now") ∷ frame (offer claim) ∷ [];
  readings = λ n. none;
}

abbrev unreachable : Round ℕ (Unit {0})
unreachable = record {
  stop = false;
  worker_id = some "w1";
  auth_token = some "t1";
  attempt = record attempt { connect_error = some (transport "no route") };
}

unreachable-Loses : Loses whole_gib never false unreachable
unfolding has_credentials run_one_session same
unreachable-Loses = (refl, refl, λ s. (refl, inr refl))

spawn_ws_session_lem_example :
    (spawn_ws_session whole_gib never 1 0 (unreachable ∷ unreachable ∷ []) online).exit ≡ ending 1 2
spawn_ws_session_lem_example =
    spawn_ws_session_lem whole_gib never 1 (unreachable ∷ unreachable ∷ []) online (omega arith)
      (unreachable-Loses, (unreachable-Loses, tt))
