-- ===== src/Tests/EdgeTests.antt =====
-- The HTTP side and the connectors at concrete inputs.
use licitaciones_mcp.Base.{
  ℕ, ◌+◌, ◌-◌, ◌*◌, ◌≤◌, ◌≡◌, refl, ◌↔◌, ◌⊎◌, true, some, [], ◌∷◌, contains, list_eq, nat_eq, arith,
}
use licitaciones_mcp.Base.Dict.{lookup}
use licitaciones_mcp.Base.Result.{ok, raised}
use licitaciones_mcp.Base.Text.{Text, codes, strip, is_space}
use licitaciones_mcp.Core.Countries.{ted_country_code}
use licitaciones_mcp.Base.Unicode.{ascii_only}
use licitaciones_mcp.Http.RateLimiter.{RateLimiter, acquired, pass}
use licitaciones_mcp.Http.RateLimiter.Bound.{Call, grants, grants_bound, wait_is_enough}
use licitaciones_mcp.Server.Auth.{Middleware, Request, passed_on, is_plain, dispatch}
use licitaciones_mcp.Server.Auth.Access.{Presents, IsRaising, dispatch_iff}
use licitaciones_mcp.Sources.Period.{menores, dataset_of, build_placsp_period_url}
use licitaciones_mcp.Sources.Period.Valid.{IsPeriod, build_placsp_period_url_iff}
use licitaciones_mcp.Sources.TedQuery.{SearchPayload, payload, build_ted_search_payload}
use licitaciones_mcp.Sources.TedQuery.Country.{
  IsBoundedQuery, build_ted_search_payload-IsBoundedQuery,
}
use licitaciones_mcp.Core.Models.{default_filters}

-- Two tokens at most, one more every five units of time.
abbrev limiter : RateLimiter
limiter = record { one = 10; rate = 2; capacity = 20; buckets = [] }

abbrev host : Text
host = codes "ted"

abbrev call_at : ℕ → Call
call_at now = record { host = host; first = now; now = now }

grants_bound_example :
    10 * grants limiter host (call_at 0 ∷ call_at 0 ∷ call_at 1 ∷ call_at 6 ∷ []) ≤ 20 + (6 - 0) * 2
unfolding lookup
grants_bound_example =
    grants_bound host limiter 0 (call_at 0 ∷ call_at 0 ∷ call_at 1 ∷ call_at 6 ∷ [])
      (
        omega arith,
        omega arith,
        (omega arith, omega arith, (omega arith, omega arith, (omega arith, omega arith, tt))),
      )
      refl

abbrev drained : RateLimiter
drained = record {
  one = 10;
  rate = 2;
  capacity = 20;
  buckets = (codes "ted", record { tokens = 0; last = 0 }) ∷ [];
}

wait_is_enough_example : (pass (pass drained host 1 1).0 host 5 5).1 ≡ acquired
unfolding pass lookup list_eq
wait_is_enough_example =
    wait_is_enough drained host 1 1 5 5 8 (omega arith) (omega arith) refl (omega arith)

abbrev middleware : Middleware
middleware = record { token = codes "secret"; exempt = codes "/healthz" ∷ [] }

abbrev request : Request
request = record { path = codes "/mcp"; authorization = codes "Bearer secret" }

dispatch_iff_example :
    ((dispatch ascii_only middleware request ≡ ok passed_on) ↔ (
      (contains (codes "/healthz" ∷ []) (codes "/mcp") ≡ true)
      ⊎ (Presents ascii_only (codes "secret") (codes "Bearer secret")
          × (is_plain (codes "secret") ≡ true))))
    × (((e : Text) × (dispatch ascii_only middleware request ≡ raised e))
        ↔ IsRaising ascii_only middleware request)
dispatch_iff_example = dispatch_iff ascii_only middleware request refl

build_placsp_period_url_iff_example :
    ((url : Text) × (build_placsp_period_url menores 2025 (some 3) ≡ ok url))
    ↔ IsPeriod (dataset_of menores) 2025 (some 3)
build_placsp_period_url_iff_example = build_placsp_period_url_iff menores 2025 (some 3)

abbrev spain : SearchPayload
spain = payload ascii_only default_filters 0 (some 250) (codes "ESP")

build_ted_search_payload-IsBoundedQuery_example : IsBoundedQuery ascii_only default_filters spain
unfolding build_ted_search_payload ted_country_code strip is_space ascii_only lookup
build_ted_search_payload-IsBoundedQuery_example =
    build_ted_search_payload-IsBoundedQuery ascii_only default_filters 0 (some 250) spain refl
