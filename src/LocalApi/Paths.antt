-- ===== src/LocalApi/Paths.antt =====
-- Where clients' requests go (src/local_api.rs).
use studio_worker.Base.{
  ℕ, suc, ◌+◌, ◌<◌, Bool, true, false, ◌&&◌, none, some, [], ◌∷◌, ◌++◌, length, length-append, ◌==◌,
  ◌≡◌, refl, ap, ◌∙◌, inl, inr, arith, Bool-cases, if◌then◌else◌,
}
use studio_worker.Base.Chars.{
  Chars, codes, same_chars, same_chars_iff, same_chars_refl, same_ignoring_case, strip_prefix,
  contains_char,
}
use studio_worker.Thinking.{begins_with}
use studio_worker.LocalApi.Gate.{
  names_loopback, before_last, before_first, last_here, by_bracket, without_port, host_is_loopback,
  consed, first_of, unless_present, presents, bearer, deny_reason,
}
use studio_worker.LocalApi.Tokens.{AreBytes, token_matches_iff}
use studio_worker.LocalApi.Routes.{
  Method, get, post, healthz, state_of, load, unload, to, Request, is_get, dispatch, path_of,
  path_in, or_next, job_route, after_gate, route, strip_suffix, is_id, only_id, id_between,
  lifecycle_route,
}

before_last-none : (d : ℕ) (s : Chars) → contains_char d s ≡ false → before_last d s ≡ none
unfolding before_last contains_char last_here
before_last-none d [] h = refl
before_last-none d (c ∷ cs) h =
    let ih = before_last-none d cs (ground (arith, h)) in
    let e : (c == d) ≡ false = ground (arith, h) in rw (ih, e) refl

before_last-append :
    (d : ℕ) (name port : Chars)
    → contains_char d port ≡ false
    → before_last d (name ++ (d ∷ port)) ≡ some name
unfolding before_last last_here
before_last-append d [] port h =
    let e : (d == d) ≡ true = ground arith in rw (before_last-none d port h, e) refl
before_last-append d (c ∷ cs) port h = rw (before_last-append d cs port h) refl

-- 127.0.0.1 with any port is let in.
host_is_loopback-port :
    (port : Chars)
    → contains_char b':' port ≡ false
    → host_is_loopback (codes "127.0.0.1:" ++ port) ≡ true
unfolding host_is_loopback by_bracket strip_prefix without_port names_loopback same_chars
    same_ignoring_case
host_is_loopback-port port h =
    rw (before_last-append b':' (codes "127.0.0.1") port h, by_bracket) refl

-- A client of the worker: it asks 127.0.0.1 at some port, is no web page, and presents the token.
abbrev pub client : Chars → Chars → Method → Chars → Request
client expected port method url = record {
  method = method;
  url = url;
  host_header = some (codes "127.0.0.1:" ++ port);
  origin_header = none;
  authorization = some (codes "Bearer " ++ expected);
}

presents-bearer :
    (expected : Chars)
    → AreBytes expected
    → presents (bearer (some (codes "Bearer " ++ expected))) expected ≡ true
unfolding presents bearer first_of strip_prefix
presents-bearer expected t = (token_matches_iff expected expected t t).1 refl

deny_reason-client :
    (expected port : Chars)
    → AreBytes expected
    → contains_char b':' port ≡ false
    → deny_reason
        (some (codes "127.0.0.1:" ++ port))
        none
        (some (codes "Bearer " ++ expected))
        expected
      ≡ none
unfolding deny_reason unless_present
deny_reason-client expected port t h =
    rw (host_is_loopback-port port h, presents-bearer expected t) refl

-- An id of a model, as it can stand in a path.
abbrev pub IsId : Chars → Type 0
IsId id = is_id id ≡ true

longer_ne : (s t : Chars) → length t < length s → same_chars s t ≡ false
longer_ne s t h = elim (Bool-cases (same_chars s t)) [
  | inl e ↦ absurd (omega (arith, h, ap {B = ℕ} (λ x. length x) ((same_chars_iff s t).0 e)))
  | inr e ↦ e
]

strip_suffix-append : (id suffix : Chars) → strip_suffix suffix (id ++ suffix) ≡ some id
unfolding strip_suffix consed
strip_suffix-append [] [] = rw (same_chars_refl []) refl
strip_suffix-append [] (s ∷ ss) = rw (same_chars_refl (s ∷ ss)) refl
strip_suffix-append (c ∷ cs) suffix =
    let l : length (c ∷ (cs ++ suffix)) ≡ suc (length cs + length suffix) =
      ap suc (length-append cs suffix) in
    let n = longer_ne (c ∷ (cs ++ suffix)) suffix (omega (arith, l)) in
    rw (n, strip_suffix-append cs suffix) refl

-- What ends in `/unload` does not end in `/load`.
strip_suffix-other : (id : Chars) → strip_suffix (codes "/load") (id ++ codes "/unload") ≡ none
unfolding strip_suffix consed same_chars
strip_suffix-other [] = refl
strip_suffix-other (c ∷ cs) =
    let l : length (c ∷ (cs ++ codes "/unload")) ≡ suc (length cs + 7) =
      ap suc (length-append cs (codes "/unload")) in
    let n = longer_ne (c ∷ (cs ++ codes "/unload")) (codes "/load") (omega (arith, l)) in
    rw (n, strip_suffix-other cs) refl

-- A path of the models' lifecycle, and what the router makes of it.
lifecycle_route-append :
    (id suffix : Chars)
    → IsId id
    → lifecycle_route (codes "/models/" ++ (id ++ suffix)) suffix ≡ some id
unfolding lifecycle_route id_between only_id strip_prefix
lifecycle_route-append id suffix h = rw (strip_suffix-append id suffix, only_id) (rw h refl)

lifecycle_route-other :
    (id : Chars)
    → lifecycle_route (codes "/models/" ++ (id ++ codes "/unload")) (codes "/load") ≡ none
unfolding lifecycle_route id_between only_id strip_prefix
lifecycle_route-other id = rw (strip_suffix-other id, only_id) refl

abbrev pub lifecycle_path : Chars → Chars → Chars
lifecycle_path id suffix = codes "/models/" ++ (id ++ suffix)

before_first-none : (d : ℕ) (s : Chars) → contains_char d s ≡ false → before_first d s ≡ none
unfolding before_first contains_char consed
before_first-none d [] h = refl
before_first-none d (c ∷ cs) h =
    let e : (c == d) ≡ false = ground (arith, h) in
    let ih = before_first-none d cs (ground (arith, h)) in rw (e, ih) refl

contains_char-append :
    (d : ℕ) (s t : Chars)
    → contains_char d s ≡ false
    → contains_char d t ≡ false
    → contains_char d (s ++ t) ≡ false
unfolding contains_char
contains_char-append d [] t p q = q
contains_char-append d (c ∷ cs) t p q =
    let e : (c == d) ≡ false = ground (arith, p) in
    rw (e, contains_char-append d cs t (ground (arith, p)) q) refl

path_of-plain : (url : Chars) → contains_char b'?' url ≡ false → path_of url ≡ url
unfolding path_of path_in
path_of-plain url h = rw (before_first-none b'?' url h, path_in) refl

no_query :
    (id suffix : Chars)
    → contains_char b'?' id ≡ false
    → contains_char b'?' suffix ≡ false
    → contains_char b'?' (lifecycle_path id suffix) ≡ false
unfolding contains_char
no_query id suffix p q = rw (contains_char-append b'?' id suffix p q) refl

dispatch-lifecycle :
    (id : Chars)
    → IsId id
    → (dispatch get (lifecycle_path id (codes "/state")) (lifecycle_path id (codes "/state"))
        ≡ state_of id)
      × (dispatch post (lifecycle_path id (codes "/load")) (lifecycle_path id (codes "/load"))
          ≡ load id)
      × (dispatch post (lifecycle_path id (codes "/unload")) (lifecycle_path id (codes "/unload"))
          ≡ unload id)
unfolding dispatch same_chars begins_with strip_prefix or_next job_route id_between only_id
dispatch-lifecycle id h = (
  rw (lifecycle_route-append id (codes "/state") h) refl,
  rw (lifecycle_route-append id (codes "/load") h) refl,
  rw (lifecycle_route-other id, lifecycle_route-append id (codes "/unload") h) refl,
)

-- A client asks for a path of the lifecycle of a model.
abbrev pub asks : Chars → Chars → Method → Chars → Chars → Request
asks expected port method id suffix = client expected port method (lifecycle_path id suffix)

route-dispatch :
    (expected port : Chars) (method : Method) (url : Chars)
    → AreBytes expected
    → contains_char b':' port ≡ false
    → contains_char b'?' url ≡ false
    → same_chars url (codes "/healthz") ≡ false
    → route expected (client expected port method url) ≡ to (dispatch method url url)
unfolding route after_gate
route-dispatch expected port method url t h q z =
    let p = path_of-plain url q in
    let d = deny_reason-client expected port t h in
    rw (p, z, d) (by_method_test (is_get method) method)
  where
    by_method_test :
        (b : Bool) (m : Method)
        → (if b && false then to healthz else to (dispatch m url url)) ≡ to (dispatch m url url)
    by_method_test true m = refl
    by_method_test false m = refl

-- A client at 127.0.0.1, on a port without a colon, that is no web page and presents the token gets, for
-- every id that is not empty and has no slash and no question mark, the handlers of the model's state,
-- of its load and of its unload, each at its own path. (The token is a list of bytes.)
pub route-client :
    (expected port id : Chars)
    → AreBytes expected
    → contains_char b':' port ≡ false
    → is_id id ≡ true
    → contains_char b'?' id ≡ false
    → (route expected (asks expected port get id (codes "/state")) ≡ to (state_of id))
      × (route expected (asks expected port post id (codes "/load")) ≡ to (load id))
      × (route expected (asks expected port post id (codes "/unload")) ≡ to (unload id))
unfolding same_chars contains_char
route-client expected port id t h i q =
    let d = dispatch-lifecycle id i in
    (
      route-dispatch expected port get (lifecycle_path id (codes "/state")) t h
            (no_query id (codes "/state") q refl) refl
          ∙ ap to d.0,
      route-dispatch expected port post (lifecycle_path id (codes "/load")) t h
            (no_query id (codes "/load") q refl) refl
          ∙ ap to d.1,
      route-dispatch expected port post (lifecycle_path id (codes "/unload")) t h
            (no_query id (codes "/unload") q refl) refl
          ∙ ap to d.2,
    )
