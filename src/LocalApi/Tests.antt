-- ===== src/LocalApi/Tests.antt =====
-- A client with the token `t` (src/local_api.rs).
use studio_worker.Base.{true, false, some, ◌≡◌, refl, arith}
use studio_worker.Base.Chars.{Chars, codes, same_chars, same_ignoring_case, contains_char}
use studio_worker.LocalApi.Tokens.{AreBytes}
use studio_worker.LocalApi.Gate.{host_is_loopback, origin_is_loopback}
use studio_worker.LocalApi.Routes.{
  get, post, state_of, load, unload, denied, to, Request, is_id, route,
}
use studio_worker.LocalApi.Paths.{asks, route-client}

abbrev secret : Chars
secret = codes "t"

abbrev page : Request
page = record {
  method = post;
  url = codes "/image";
  host_header = some (codes "localhost:8080");
  origin_header = some (codes "https://evil.example");
  authorization = some (codes "Bearer t");
}

-- A web page of another origin is turned away, though it has the token.
page_run : route secret page ≡ denied 403
unfolding route same_ignoring_case
page_run = refl

are_bytes : AreBytes secret
are_bytes = omega arith

no_colon : contains_char b':' (codes "8080") ≡ false
unfolding contains_char
no_colon = refl

id_ok : is_id (codes "m") ≡ true
unfolding is_id contains_char same_chars
id_ok = refl

no_mark : contains_char b'?' (codes "m") ≡ false
unfolding contains_char
no_mark = refl

route-client_example :
    (route secret (asks secret (codes "8080") get (codes "m") (codes "/state"))
      ≡ to (state_of (codes "m")))
    × (route secret (asks secret (codes "8080") post (codes "m") (codes "/load"))
        ≡ to (load (codes "m")))
    × (route secret (asks secret (codes "8080") post (codes "m") (codes "/unload"))
        ≡ to (unload (codes "m")))
route-client_example =
    route-client secret (codes "8080") (codes "m") are_bytes no_colon id_ok no_mark

-- What stands behind the brackets or the last colon is not looked at.
loose_hosts_run :
    (host_is_loopback (codes "[::1].evil.example") ≡ true)
    × (origin_is_loopback (codes "https://[127.0.0.1].evil.example") ≡ true)
    × (origin_is_loopback (codes "http://localhost:anything") ≡ true)
    × (host_is_loopback (codes "127.0.0.1.evil.example") ≡ false)
unfolding host_is_loopback origin_is_loopback same_ignoring_case same_chars
loose_hosts_run = (refl, refl, refl, refl)
