-- ===== src/LocalApi/Admitting.antt =====
-- The gate in front of the handlers (src/local_api.rs).
use studio_worker.Base.{Option, none, some, ◌++◌, ◌≡◌, ◌⊎◌}
use studio_worker.Base.Chars.{Chars, codes}
use studio_worker.LocalApi.Routes.{get, healthz, Reply, denied, to, Request, path_of}
use studio_worker.LocalApi.Letting.{LoopbackHost, LoopbackOrigin}

-- What holds of a header if it is there.
abbrev pub WhenThere : (Chars → Type 0) → Option Chars → Type 0
WhenThere P none = Unit
WhenThere P (some value) = P value

-- The header presents the token.
abbrev pub Presents : Option Chars → Chars → Type 0
Presents authorization expected =
    (authorization ≡ some (codes "Bearer " ++ expected))
    ⊎ (authorization ≡ some (codes "bearer " ++ expected))

-- A request that the gate lets through.
abbrev pub IsAuthorised : Chars → Request → Type 0
IsAuthorised expected r =
    WhenThere LoopbackHost r.host_header
    × WhenThere LoopbackOrigin r.origin_header
    × Presents r.authorization expected

-- A handler other than the liveness check has an authorised request; the gate answers 401 or 403.
abbrev pub IsGuarded : Chars → Request → Reply → Type 0
IsGuarded expected r (denied status) = (status ≡ 401) ⊎ (status ≡ 403)
IsGuarded expected r (to handler) =
    ((r.method ≡ get) × (path_of r.url ≡ codes "/healthz") × (handler ≡ healthz))
    ⊎ IsAuthorised expected r
