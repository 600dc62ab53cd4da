-- ===== src/Auth/BeforeRequest.antt =====
-- `_require_api_key` of backend/lto_backend_main.py, which runs before every request, and a request
-- that passes it and then a decorator of its route.
use fossilsafe_t.Prelude.{
  ℕ, ◌+◌, ◌*◌, String, Bool, true, false, not, ◌||◌, Option, none, some, List, [], ◌∷◌,
  if◌then◌else◌, ◌==◌, nat_eq, string_eq, text_truth,
}
use text.Mathlib.Text.{starts_with}
use fossilsafe_t.RateLimiter.{
  RateLimiter, Verdict, allowed, try_again, locked_out, check_rate_limit, record_attempt,
  clear_attempts,
}
use fossilsafe_t.Auth.Database.{Session, AuthDb}
use fossilsafe_t.Auth.Sessions.{validate_session}
use fossilsafe_t.Auth.Requests.{Request, Response, Context, proceed, error, request_token}

-- The settings that the check reads: the global key, and whether the limiter is switched off.
pub record Settings : Type 0 where
  pub api_key : Option String
  pub limiter_off : Bool

pub record Server : Type 0 where
  pub manager : Option AuthDb
  pub limiter : Option RateLimiter

abbrev public_paths : List String
public_paths =
    "/api/healthz" ∷ "/healthz" ∷ "/api/csrf-token" ∷ "/api/auth/setup-status" ∷ "/api/auth/setup"
    ∷ "/api/auth/login" ∷ "/api/auth/logout" ∷ "/api/auth/sso/config" ∷ []

abbrev among : String → List String → Bool
among s [] = false
among s (t ∷ ts) = s == t || among s ts

unfoldable pub is_public : String → Bool
is_public path = among path public_paths

-- The first part: a valid session of the request becomes `g.session`.
unfoldable pub attach_session : ℕ → Option String → Option AuthDb → Option Session × Option AuthDb
attach_session now token none = (none, none)
attach_session now none (some db) = (none, some db)
attach_session now (some token) (some db) =
    let v = validate_session now token db in
    if text_truth token then (v.0, some v.1) else (none, some db)

-- `RateLimiter.check_rate_limit`, where there is a limiter.
unfoldable pub limit : Bool → ℕ → String → Option RateLimiter → Verdict × Option RateLimiter
limit off now id none = (allowed, none)
limit off now id (some r) = let v = check_rate_limit off now id r in (v.0, some v.1)

abbrev with_limiter : (RateLimiter → RateLimiter) → Option RateLimiter → Option RateLimiter
with_limiter f none = none
with_limiter f (some r) = some (f r)

-- The session of those who hold the global key.
abbrev pub key_session : ℕ → Session
key_session now = record {
  token = "global_api_key";
  user_id = 0;
  role = "admin";
  has_2fa = true;
  created_at = now;
  expires_at = now + 3600 * 1000000;
}

-- The second part: the key that was sent against the configured one.
unfoldable pub check_key :
    ℕ
    → String
    → Option String
    → String
    → Option RateLimiter
    → Response × Option Session × Option RateLimiter
check_key now configured none id r = (error 401 "API key required", none, r)
check_key now configured (some key) id r =
    if not (text_truth key)
    then (error 401 "API key required", none, r)
    else if key == configured
    then (proceed, some (key_session now), with_limiter (clear_attempts id) r)
    else (error 403 "Invalid API key", none, with_limiter (record_attempt now id) r)

unfoldable pub check_limited_key :
    Bool
    → ℕ
    → String
    → Option String
    → String
    → Option RateLimiter
    → Response × Option Session × Option RateLimiter
check_limited_key off now configured key id r =
    let v = limit off now id r in
    elim v.0 [
      | allowed ↦ check_key now configured key id v.1
      | try_again _ ↦ (error 429 "rate_limit_exceeded", none, v.1)
      | locked_out _ ↦ (error 429 "rate_limit_exceeded", none, v.1)
    ]

abbrev identifier : Request → String
identifier req = elim req.remote_addr [
  | none ↦ "unknown"
  | some a ↦ if text_truth a then a else "unknown"
]

-- What follows the search for a session, whose answer is the first argument.
unfoldable pub without_session :
    Settings → ℕ → Request → Server → Response × Option Session × Server
without_session set now req srv =
    if not (starts_with req.path "/api/") then (proceed, none, srv) else elim set.api_key [
      | none ↦ (proceed, none, srv)
      | some configured ↦
          let k =
            check_limited_key set.limiter_off now configured req.provided_key (identifier req)
              srv.limiter in
          (k.0, k.1, record srv { limiter = k.2 })
    ]

unfoldable pub after_attach :
    Settings
    → ℕ
    → Request
    → Option RateLimiter
    → Option Session × Option AuthDb
    → Response × Option Session × Server
after_attach set now req r (some s, m) = (proceed, some s, record { manager = m; limiter = r })
after_attach set now req r (none, m) =
    without_session set now req (record { manager = m; limiter = r })

unfoldable pub require_api_key :
    Settings → ℕ → Request → Server → Response × Option Session × Server
unfolding after_attach
require_api_key set now req srv =
    let v = attach_session now (request_token req) srv.manager in
    if is_public req.path then (proceed, none, srv) else after_attach set now req srv.limiter v

-- The route's decorator, after the check: the route runs where the answer is `proceed`.
unfoldable pub run_guard :
    (ℕ → Request → Context → Response × Context)
    → ℕ
    → Request
    → Response × Option Session × Server
    → Response × Server
run_guard guard now req (error code message, s, srv) = (error code message, srv)
run_guard guard now req (proceed, s, srv) =
    let d = guard now req (record { manager = srv.manager; session = s }) in
    (d.0, record srv { manager = d.1.manager })

unfoldable pub serve :
    (ℕ → Request → Context → Response × Context)
    → Settings
    → ℕ
    → Request
    → Server
    → Response × Server
unfolding run_guard
serve guard set now req srv = run_guard guard now req (require_api_key set now req srv)
