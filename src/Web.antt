-- ===== src/Web.antt =====
-- What the servers of both agents are put together from: HTTP handlers, net/http's ServeMux, the SDK's
-- authentication middleware, and the readiness of a registration. Headers and bodies of answers are left
-- out where the samples only write them.
use ne_kiro_samples.Base.{
  ◌≡◌, false, ℕ, String, Bool, Option, none, some, List, map, get_elem?, Outcome, Error,
}
use ne_kiro_samples.Platform.{RouterAuth}

-- What the samples and the middleware read of an *http.Request.
pub record Request : Type 0 where
  pub method : String
  pub path : String
  pub authorization : Option String

-- A bare status, http.Error's page for a status, bytes, or what another handler writes.
pub data Answer : Type 0 where
  status page : ℕ → Answer
  bytes : List ℕ → Answer
  written : String → Answer

-- A handler, given what the readiness says at the time of the request.
abbrev pub HttpHandler : Type 0
HttpHandler = (ready : Bool) → Request → Answer

-- A Readiness: a constant, or the registration's.
pub data Readiness : Type 0 where
  static : Bool → Readiness
  registered : Readiness

abbrev pub is_ready : Readiness → Bool → Bool
is_ready (static value) now = value
is_ready registered now = now

-- net/http's choice of a pattern (`none`: it answers by itself, with `unmatched`), routerauth's
-- NewMiddleware, and the text of an error.
pub record Web : Type 0 where
  pub pick : List String → Request → Option ℕ
  pub unmatched : List String → Request → Answer
  pub new_middleware : RouterAuth → Outcome (HttpHandler → HttpHandler)
  pub error_text : Error → String

abbrev pub picked : Option (String × HttpHandler) → Answer → HttpHandler
picked none otherwise ready request = otherwise
picked (some (pattern, handler)) otherwise ready request = handler ready request

abbrev pub chosen : List (String × HttpHandler) → Option ℕ → Answer → HttpHandler
chosen routes none otherwise ready request = otherwise
chosen routes (some i) otherwise ready request = picked (get_elem? routes i) otherwise ready request

abbrev pub patterns : List (String × HttpHandler) → List String
patterns routes = map (λ route. route.0) routes

-- A ServeMux with its routes.
abbrev pub serve_mux : Web → List (String × HttpHandler) → HttpHandler
serve_mux web routes ready request =
    chosen routes (web.pick (patterns routes) request) (web.unmatched (patterns routes) request)
      ready request

-- What the samples rely on of the middleware: a request that it does not accept is answered without the
-- handler behind it.
abbrev pub Protects : (Request → Bool) → (HttpHandler → HttpHandler) → Type 0
Protects accepts middleware =
    (next other : HttpHandler) (ready : Bool) (request : Request)
    → accepts request ≡ false
    → middleware next ready request ≡ middleware other ready request
