-- ===== src/AutoRegister/Tests.antt =====
-- A registration from first launch to approval, and the theorems at concrete inputs.
use studio_worker.Base.{
  ℕ, String, true, false, ◌≡◌, refl, none, some, [], ◌∷◌, List, arith, push_str, inl, inr,
}
use studio_worker.AutoRegister.{
  pristine, pending, approved, Config, waits, accepts, rejects, Poll, poll_failed, found, World,
  Outside, tick, ready, Round, ensure_registered,
}
use studio_worker.AutoRegister.Laws.{IsWaiting, ensure_registered-accepted, tick-rejected}

abbrev blank : Config ℕ
blank = record {
  worker_id = none;
  auth_token = none;
  install_id = none;
  registration_request_id = none;
  registration_secret = none;
  rest = 7;
}

abbrev first_launch : World ℕ ℕ
first_launch = record { cfg = blank; disk = blank; observers = pristine }

-- The studio answers a request with its id, and a poll as given.
abbrev answering : Poll → ℕ → Outside ℕ ℕ String
answering poll now = record {
  new_uuid = "install";
  new_secret_hex = "secret";
  now = now;
  saves_install = true;
  saves_outcome = true;
  sha256_hex = λ s. push_str "hash of " s;
  build_payload = λ c i h. some (push_str i (push_str " with the " h));
  register_request = λ p. some "rr-1";
  poll_register_status = λ r s. poll;
}

abbrev round : Poll → ℕ → Round ℕ ℕ String
round poll now = record { stop_before = false; outside = answering poll now; stop_asleep = false }

abbrev asked : Config ℕ
asked = record {
  worker_id = none;
  auth_token = none;
  install_id = some "install";
  registration_request_id = some "rr-1";
  registration_secret = some "secret";
  rest = 7;
}

abbrev in_wait : World ℕ ℕ
in_wait = record { cfg = asked; disk = asked; observers = pending "rr-1" 10 }

abbrev waits_on : Poll
waits_on = found waits

first_tick : tick (answering waits_on 10) first_launch ≡ (in_wait, pending "rr-1" 10)
unfolding tick
first_tick = refl

in_wait-IsWaiting : IsWaiting "rr-1" "secret" 10 in_wait
in_wait-IsWaiting = record {
  worker_id = refl;
  install_id = ground arith;
  request = refl;
  pair = refl;
  observed = refl;
}

abbrev yes : Poll
yes = found (accepts "w" "t")

abbrev granted : Config ℕ
granted = record {
  worker_id = some "w";
  auth_token = some "t";
  install_id = some "install";
  registration_request_id = none;
  registration_secret = none;
  rest = 7;
}

ensure_registered-accepted_example :
    ensure_registered (round waits_on 40 ∷ round poll_failed 70 ∷ round yes 100 ∷ []) in_wait
    ≡ (record { cfg = granted; disk = granted; observers = approved }, some ready)
ensure_registered-accepted_example =
    ensure_registered-accepted (round waits_on 40 ∷ round poll_failed 70 ∷ []) (round yes 100) []
      "rr-1" "secret" "w" "t" 10 in_wait in_wait-IsWaiting
      ((refl, refl, inr refl), ((refl, refl, inl refl), tt)) refl refl refl

abbrev no : Poll
no = found (rejects "unknown host")

abbrev refusing : List (Round ℕ ℕ String)
refusing = round no 40 ∷ []

abbrev turned_away : World ℕ ℕ
turned_away = (tick (answering no 40) in_wait).0

tick-rejected_example :
    ((tick (answering waits_on 70) turned_away).1 ≡ pending "rr-1" 70)
    × ((tick (answering waits_on 70) turned_away).0.cfg.registration_request_id ≡ some "rr-1")
    × ((tick (answering waits_on 70) turned_away).0.cfg.registration_secret ≡ some "secret")
unfolding tick push_str
tick-rejected_example =
    tick-rejected (answering no 40) (answering waits_on 70) in_wait "unknown host" "rr-1"
      "install with the hash of secret" refl refl refl
