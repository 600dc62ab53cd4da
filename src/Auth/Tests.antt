-- ===== src/Auth/Tests.antt =====
-- Runs of the accounts and the requests, and the theorems at concrete inputs.
use fossilsafe_t.Prelude.{
  ℕ, ◌+◌, ◌≤◌, ◌<◌, String, ◌≡◌, refl, ◌↔◌, Bool, true, false, none, some, [], ◌∷◌, if◌then◌else◌,
  find, ◌==◌, nat_eq, string_eq, beq_refl,
}
use fossilsafe_t.Prelude.Dict.{lookup, insert}
use fossilsafe_t.Auth.Permissions.{role_permissions, mentions}
use fossilsafe_t.Auth.Database.{
  User, Session, AuthDb, get_user, get_user_by_id, get_sso_user, local_fields, insert_session,
}
use fossilsafe_t.Auth.Accounts.{Passwords, new_user, update_user, delete_user}
use fossilsafe_t.Auth.Sessions.{
  login, new_session, session_duration, validate_session, login_sso_user, create_session,
}
use fossilsafe_t.Auth.Requests.{Request, proceed, request_token, require_role, role_allows}
use fossilsafe_t.Auth.BeforeRequest.{Settings}
use fossilsafe_t.Auth.GroupRoles.{gives, assigned_role-priority}
use fossilsafe_t.Auth.Login.{
  assigned_role, failed, logged_in, login_user, sso_login, sso_user, sso_session,
}
use fossilsafe_t.Auth.Roles.{role_allows-iff-permissions}
use fossilsafe_t.Auth.Expiry.{login-validate}
use fossilsafe_t.Auth.Revocation.{fresh, require_role-stale}
use fossilsafe_t.Auth.LoginRoute.{passes_2fa, login_user-second_factor}
use fossilsafe_t.Auth.WellFormed.{
  HaveRoles, creates, provisions, deletes, change_all, change_all-HaveRoles,
}

-- A hash that keeps the password, enough to run the model.
abbrev plain : Passwords
plain = record {
  hash = λ salt word. word;
  verify = λ word hashed. word == hashed;
  verify-hash = λ salt word. beq_refl {A = String} word;
}

abbrev code_is_secret : String → String → Bool
code_is_secret secret code = secret == code

abbrev ann : User
ann = record (new_user "ann" "pw" "admin" 0) { id = 1; totp_secret = some "S" }

abbrev ann_session : Session
ann_session = new_session 0 "T" ann false

abbrev db : AuthDb
db = record { users = ann ∷ []; next_id = 2; sessions = ("T", ann_session) ∷ [] }

abbrev empty_db : AuthDb
empty_db = record { users = ann ∷ []; next_id = 2; sessions = [] }

abbrev request : Request
request = record {
  path = "/api/tapes";
  bearer = some "T";
  cookie_token = none;
  arg_token = none;
  arg_session_token = none;
  provided_key = none;
  remote_addr = none;
}

abbrev open_server : Settings
open_server = record { api_key = none; limiter_off = false }

sent_token : request_token request ≡ some "T"
unfolding request_token
sent_token = refl

valid_token : (validate_session 5 "T" db).0 ≡ some ann_session
unfolding validate_session lookup
valid_token = refl

ann_found : get_user "ann" empty_db ≡ some ann
unfolding get_user find local_fields
ann_found = refl

ann_by_id : get_user_by_id 1 db ≡ some ann
unfolding get_user_by_id find local_fields
ann_by_id = refl

no_session : lookup "T" empty_db.sessions ≡ none
unfolding lookup
no_session = refl

role_allows-iff-permissions_example : (role_allows "operator" ann_session ≡ proceed) ↔ (
    (text : String)
    → mentions text (role_permissions "operator") ≡ true
    → mentions text (role_permissions "admin") ≡ true)
role_allows-iff-permissions_example = role_allows-iff-permissions "operator" ann_session refl refl

login-validate_example :
    let r = login plain 7 "T" "ann" "pw" false empty_db in
    (r.0 ≡ some "T")
    × ((t : ℕ)
        → t ≤ 7 + session_duration
        → (validate_session t "T" r.1).0 ≡ some (new_session 7 "T" ann false))
    × ((t : ℕ) → 7 + session_duration < t → (validate_session t "T" r.1).0 ≡ none)
login-validate_example =
    login-validate plain 7 "T" "ann" "pw" false empty_db ann ann_found refl refl no_session

require_role-stale_example :
    ((require_role "admin" 5 request (fresh (delete_user 1 db))).0
      ≡ role_allows "admin" ann_session)
    × ((require_role "admin" 5 request (fresh (update_user 1 (some "viewer") (some false) db).1)).0
        ≡ (require_role "admin" 5 request (fresh db)).0)
require_role-stale_example =
    require_role-stale 5 "T" request ann_session db "admin" "viewer" sent_token refl valid_token
      refl

login_user-second_factor_example :
    let r = login_user plain code_is_secret 7 "T" "ann" "pw" (some "S") empty_db in
    ((passes_2fa code_is_secret (some "S") ann empty_db ≡ true)
      → (r.0 ≡ logged_in "T" ann) × (lookup "T" r.1.sessions ≡ some (new_session 7 "T" ann true)))
    × ((passes_2fa code_is_secret (some "S") ann empty_db ≡ false)
        → (m : String) × (r ≡ (failed 401 m, empty_db)))
login_user-second_factor_example =
    login_user-second_factor plain code_is_secret 7 "T" "ann" "pw" empty_db (some "S") ann ann_found
      refl refl no_session refl

change_all-HaveRoles_example :
    HaveRoles
      (change_all plain code_is_secret
        (creates 1 "" "bob" "pw" "owner"
          ∷ provisions 2 "" "r" "eve" "idp" "e1" (("staff", "owner") ∷ []) ("staff" ∷ [])
          ∷ deletes 1
          ∷ [])
        db).users
change_all-HaveRoles_example =
    change_all-HaveRoles plain code_is_secret
      (creates 1 "" "bob" "pw" "owner"
        ∷ provisions 2 "" "r" "eve" "idp" "e1" (("staff", "owner") ∷ []) ("staff" ∷ [])
        ∷ deletes 1
        ∷ [])
      db (refl, tt)

assigned_role-priority_example :
    assigned_role (("staff", "operator") ∷ ("root", "admin") ∷ []) ("staff" ∷ "root" ∷ []) ≡ (
      if gives (("staff", "operator") ∷ ("root", "admin") ∷ []) "admin" ("staff" ∷ "root" ∷ [])
      then "admin"
      else if gives
          (("staff", "operator") ∷ ("root", "admin") ∷ [])
          "operator"
          ("staff" ∷ "root" ∷ [])
      then "operator"
      else "viewer")
assigned_role-priority_example =
    assigned_role-priority (("staff", "operator") ∷ ("root", "admin") ∷ []) ("staff" ∷ "root" ∷ [])

-- The session of an SSO user with a TOTP secret is made without 2FA.
sso_user_passes :
    (lookup "T"
      (sso_login plain 7 "T" "" "r" "eve" "idp" "e1" "viewer" (record {
        users =
            record (new_user "eve" "" "viewer" 0) {
              id = 1;
              totp_secret = some "S";
              sso_provider = some "idp";
              sso_id = some "e1";
            }
            ∷ [];
        next_id = 2;
        sessions = [];
      })).1.sessions)
    ≡ some (new_session 7 "T" (record (new_user "eve" "" "viewer" 0) { id = 1 }) false)
unfolding sso_login sso_user sso_session login_sso_user create_session insert_session lookup insert
    find get_sso_user
sso_user_passes = refl
