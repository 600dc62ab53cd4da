-- ===== src/Auth/Requests.antt =====
-- The check before each request (`_require_api_key` of backend/lto_backend_main.py) and the
-- decorators of backend/auth.py. A response that is not an error is the route's own.
use fossilsafe_t.Prelude.{
  ℕ, String, Bool, false, not, ◌&&◌, Option, none, some, ltb, if◌then◌else◌, ◌==◌, nat_eq,
  string_eq, text_truth, truth,
}
use fossilsafe_t.Auth.Permissions.{hierarchy}
use fossilsafe_t.Auth.Database.{Session, AuthDb, get_user_by_id}
use fossilsafe_t.Auth.Accounts.{has_permission}
use fossilsafe_t.Auth.Sessions.{validate_session}

-- What the checks read of a request: the path, the text after `Bearer ` in the header, the cookie,
-- the two arguments, the key that `_extract_api_key_from_request` finds, and the address.
pub record Request : Type 0 where
  pub path : String
  pub bearer : Option String
  pub cookie_token : Option String
  pub arg_token : Option String
  pub arg_session_token : Option String
  pub provided_key : Option String
  pub remote_addr : Option String

-- `None` and the empty text are false.
abbrev or_else : Option String → Option String → Option String
or_else a b = if truth a then a else b

unfoldable pub request_token : Request → Option String
request_token req = elim req.bearer [
  | some token ↦ some token
  | none ↦ or_else req.cookie_token (or_else req.arg_token req.arg_session_token)
]

pub data Response : Type 0 where
  proceed : Response
  error : ℕ → String → Response

-- The auth manager, if it is set, and `g.session`.
pub record Context : Type 0 where
  pub manager : Option AuthDb
  pub session : Option Session

-- `user and user.totp_secret and not session.has_2fa`
unfoldable pub lacks_2fa : Session → AuthDb → Bool
lacks_2fa s db = elim (get_user_by_id s.user_id db) [
  | none ↦ false
  | some u ↦ truth u.totp_secret && not s.has_2fa
]

unfoldable pub check_token : ℕ → Option String → AuthDb → Response × Context
check_token now none db =
    (error 401 "Authentication required", record { manager = some db; session = none })
check_token now (some token) db =
    let v = validate_session now token db in
    if not (text_truth token)
    then (error 401 "Authentication required", record { manager = some db; session = none })
    else elim v.0 [
      | none ↦
          (error 401 "Invalid or expired session", record { manager = some v.1; session = none })
      | some s ↦
          if lacks_2fa s v.1
          then (
            error 401 "2FA verification required",
            record { manager = some v.1; session = none },
          )
          else (proceed, record { manager = some v.1; session = some s })
    ]

unfoldable pub require_auth : ℕ → Request → Context → Response × Context
require_auth now req c = elim c.session [
  | some s ↦ (proceed, c)
  | none ↦ elim c.manager [ none ↦ (proceed, c) | some db ↦ check_token now (request_token req) db ]
]

unfoldable pub level : ℕ → String → ℕ
level unknown role = elim (hierarchy role) [ none ↦ unknown | some n ↦ n ]

unfoldable pub role_allows : String → Session → Response
role_allows role s =
    if s.role == "admin"
    then proceed
    else if ltb (level 0 s.role) (level 99 role)
    then error 403 "Insufficient permissions"
    else proceed

unfoldable pub permission_allows : String → Session → Option AuthDb → Response
permission_allows permission s none = error 500 "Authentication system unavailable"
permission_allows permission s (some db) =
    if has_permission s.user_id permission db then proceed else error 403 "Permission denied"

-- What `require_role` and `require_permission` add to `require_auth`: a test of the session.
unfoldable pub then_test :
    (Session → Option AuthDb → Response) → Response × Context → Response × Context
then_test test (error code message, c) = (error code message, c)
then_test test (proceed, c) = elim c.session [
  | none ↦ (error 401 "Authentication required", c)
  | some s ↦ (test s c.manager, c)
]

unfoldable pub require_role : String → ℕ → Request → Context → Response × Context
unfolding then_test
require_role role now req c = then_test (λ s db. role_allows role s) (require_auth now req c)

unfoldable pub require_admin : ℕ → Request → Context → Response × Context
unfolding require_role
require_admin now req c = require_role "admin" now req c

unfoldable pub require_permission : String → ℕ → Request → Context → Response × Context
unfolding then_test
require_permission permission now req c =
    then_test (permission_allows permission) (require_auth now req c)
