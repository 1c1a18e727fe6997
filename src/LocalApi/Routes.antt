-- ===== src/LocalApi/Routes.antt =====
-- `route` of src/local_api.rs: the gate, and the handler that a request goes to.
use studio_worker.Base.{
  ℕ, Bool, true, false, not, ◌&&◌, ◌||◌, Option, none, some, [], ◌∷◌, length, if◌then◌else◌,
}
use studio_worker.Base.Chars.{Chars, codes, same_chars, strip_prefix, contains_char}
use studio_worker.Thinking.{begins_with, trim_start_matches}
use studio_worker.LocalApi.Gate.{Denial, host, origin, token, consed, before_first, deny_reason}

pub data Method : Type 0 where
  get post delete other_method : Method

-- `vision::Route`.
pub data VisionRoute : Type 0 where
  detect classify species : VisionRoute

pub data Handler : Type 0 where
  healthz image chat tokenize tts stt video mesh list_models add_model jobs stream_token : Handler
  voice_samples wake_words : Chars → Handler
  vision : VisionRoute → Handler
  daemon : Chars → Handler
  job_log job_thumbnail : Chars → Handler
  state_of load unload delete_model : Chars → Handler
  not_found : Handler

-- A status that the gate answers, or the handler.
pub data Reply : Type 0 where
  denied : ℕ → Reply
  to : Handler → Reply

-- What of a request the router reads.
pub record Request : Type 0 where
  pub method : Method
  pub url : Chars
  pub host_header : Option Chars
  pub origin_header : Option Chars
  pub authorization : Option Chars

unfoldable pub is_get : Method → Bool
is_get get = true
is_get _ = false

unfoldable pub is_post : Method → Bool
is_post post = true
is_post _ = false

unfoldable pub is_delete : Method → Bool
is_delete delete = true
is_delete _ = false

-- `str::strip_suffix`.
unfoldable pub strip_suffix : Chars → Chars → Option Chars
unfolding consed
strip_suffix suffix [] = if same_chars [] suffix then some [] else none
strip_suffix suffix (c ∷ cs) =
    if same_chars (c ∷ cs) suffix then some [] else consed c (strip_suffix suffix cs)

unfoldable pub is_id : Chars → Bool
is_id id = not (same_chars id []) && not (contains_char b'/' id)

unfoldable pub only_id : Option Chars → Option Chars
unfolding is_id
only_id none = none
only_id (some id) = if is_id id then some id else none

unfoldable pub id_between : Chars → Chars → Option Chars → Option Chars
unfolding only_id strip_suffix
id_between prefix suffix none = none
id_between prefix suffix (some rest) = only_id (strip_suffix suffix rest)

unfoldable pub lifecycle_route : Chars → Chars → Option Chars
unfolding id_between strip_prefix
lifecycle_route path suffix =
    id_between (codes "/models/") suffix (strip_prefix (codes "/models/") path)

unfoldable pub job_route : Chars → Chars → Option Chars
unfolding id_between strip_prefix
job_route path suffix = id_between (codes "/jobs/") suffix (strip_prefix (codes "/jobs/") path)

unfoldable pub is_voice_route : Chars → Bool
is_voice_route path =
    same_chars path (codes "/voice-sample-tokens")
    || same_chars path (codes "/voice-samples")
    || begins_with (codes "/voice-samples/") path

unfoldable pub is_wake_word_route : Chars → Bool
is_wake_word_route path =
    same_chars path (codes "/wake-words") || begins_with (codes "/wake-words/") path

unfoldable pub vision_route : Chars → Option VisionRoute
vision_route path =
    if same_chars path (codes "/vision/detect")
    then some detect
    else if same_chars path (codes "/vision/classify")
    then some classify
    else if same_chars path (codes "/vision/species")
    then some species
    else none

-- `Some(id)` goes to its handler, `None` on to the next arm.
unfoldable pub or_next : (Chars → Handler) → Option Chars → Handler → Handler
or_next handler none next = next
or_next handler (some id) next = handler id

unfoldable pub or_next_vision : Option VisionRoute → Handler → Handler
or_next_vision none next = next
or_next_vision (some r) next = vision r

-- The paths that are given whole.
unfoldable pub fixed_post : Chars → Handler → Handler
fixed_post path next =
    if same_chars path (codes "/image")
    then image
    else if same_chars path (codes "/v1/chat/completions")
    then chat
    else if same_chars path (codes "/tokenize")
    then tokenize
    else if same_chars path (codes "/tts")
    then tts
    else if same_chars path (codes "/stt")
    then stt
    else if same_chars path (codes "/video")
    then video
    else if same_chars path (codes "/mesh")
    then mesh
    else if same_chars path (codes "/models")
    then add_model
    else if same_chars path (codes "/stream-tokens")
    then stream_token
    else next

unfoldable pub fixed_get : Chars → Handler → Handler
fixed_get path next =
    if same_chars path (codes "/healthz")
    then healthz
    else if same_chars path (codes "/models")
    then list_models
    else if same_chars path (codes "/jobs")
    then jobs
    else next

-- The arms with guards, from the first that lets a method of this kind pass.
unfoldable pub guarded_get : Chars → Handler
unfolding or_next job_route lifecycle_route
guarded_get path = or_next job_log (job_route path (codes "/log")) (
    or_next job_thumbnail (job_route path (codes "/thumbnail"))
      (or_next state_of (lifecycle_route path (codes "/state")) not_found))

unfoldable pub guarded_post : Chars → Handler
unfolding or_next lifecycle_route
guarded_post path =
    or_next load (lifecycle_route path (codes "/load"))
      (or_next unload (lifecycle_route path (codes "/unload")) not_found)

unfoldable pub guarded_delete : Chars → Handler
unfolding trim_start_matches begins_with
guarded_delete path =
    if begins_with (codes "/models/") path
    then delete_model (trim_start_matches (length path) (codes "/models/") path)
    else not_found

unfoldable pub by_method : Method → Chars → Handler
unfolding guarded_get guarded_post guarded_delete
by_method get path = guarded_get path
by_method post path = guarded_post path
by_method delete path = guarded_delete path
by_method other_method path = not_found

unfoldable pub guarded : Method → Chars → Chars → Handler
unfolding is_voice_route is_wake_word_route vision_route or_next_vision by_method is_post
guarded method url path =
    if is_voice_route path
    then voice_samples path
    else if is_wake_word_route path
    then wake_words path
    else or_next_vision (if is_post method then vision_route path else none)
        (if begins_with (codes "/daemon/") path then daemon url else by_method method path)

unfoldable pub dispatch : Method → Chars → Chars → Handler
unfolding fixed_get fixed_post guarded
dispatch get url path = fixed_get path (guarded get url path)
dispatch post url path = fixed_post path (guarded post url path)
dispatch delete url path = guarded delete url path
dispatch other_method url path = guarded other_method url path

unfoldable pub status_of : Denial → ℕ
status_of (host value) = 403
status_of (origin value) = 403
status_of token = 401

unfoldable pub path_in : Chars → Option Chars → Chars
path_in url none = url
path_in url (some path) = path

unfoldable pub path_of : Chars → Chars
unfolding path_in before_first
path_of url = path_in url (before_first b'?' url)

unfoldable pub after_gate : Option Denial → Handler → Reply
unfolding status_of
after_gate (some denial) handler = denied (status_of denial)
after_gate none handler = to handler

unfoldable pub route : Chars → Request → Reply
unfolding path_of after_gate deny_reason dispatch is_get
route expected r =
    let path = path_of r.url in
    if is_get r.method && same_chars path (codes "/healthz")
    then to healthz
    else after_gate (deny_reason r.host_header r.origin_header r.authorization expected)
        (dispatch r.method r.url path)
