-- ===== src/Auth/Login.antt =====
-- The login route and the last part of the SSO callback of backend/routes/auth.py, from the groups
-- that the identity provider sent.
use fossilsafe_t.Prelude.{
  ℕ, String, Bool, not, ◌&&◌, Option, none, some, List, [], ◌∷◌, if◌then◌else◌, ◌==◌, nat_eq,
  string_eq, is_text, text_truth, truth,
}
use fossilsafe_t.Prelude.Dict.{Dict, lookup}
use fossilsafe_t.Auth.Database.{User, AuthDb, get_user, get_user_by_id, get_sso_user}
use fossilsafe_t.Auth.Accounts.{Passwords, verify_2fa, create_sso_user, update_user_role}
use fossilsafe_t.Auth.Sessions.{login, login_sso_user}

pub data LoginReply : Type 0 where
  failed : ℕ → String → LoginReply
  logged_in : String → User → LoginReply

-- `login`, from the body of the request.
module _ (p : Passwords) (totp : String → String → Bool) where
  unfoldable pub finish_login : ℕ → String → String → String → User → AuthDb → LoginReply × AuthDb
  finish_login now token username password u db =
      let r = login p now token username password (truth u.totp_secret) db in
      elim r.0 [
        | none ↦ (failed 401 "Login failed", r.1)
        | some t ↦ if text_truth t then (logged_in t u, r.1) else (failed 401 "Login failed", r.1)
      ]

  unfoldable pub check_2fa : Option String → User → AuthDb → Option String
  check_2fa none u db = if truth u.totp_secret then some "2FA code required" else none
  check_2fa (some code) u db =
      if truth u.totp_secret
      then if not (text_truth code)
        then some "2FA code required"
        else if not (verify_2fa totp u.id code db)
        then some "Invalid 2FA code"
        else none
      else none

  unfoldable pub login_user :
      ℕ → String → String → String → Option String → AuthDb → LoginReply × AuthDb
  login_user now token username password code db = elim (get_user username db) [
    | none ↦ (failed 401 "Invalid username or password", db)
    | some u ↦
        let done = finish_login now token username password u db in
        if not u.is_active
        then (failed 401 "Invalid username or password", db)
        else if not (p.verify password u.password_hash)
        then (failed 401 "Invalid username or password", db)
        else elim (check_2fa code u db) [ some message ↦ (failed 401 message, db) | none ↦ done ]
  ]

  unfoldable pub login_route :
      ℕ → String → Option String → Option String → Option String → AuthDb → LoginReply × AuthDb
  login_route now token (some username) (some password) code db =
      if text_truth username && text_truth password
      then login_user now token username password code db
      else (failed 400 "Username and password are required", db)
  login_route now token _ _ code db = (failed 400 "Username and password are required", db)

-- The loop over the groups: `assigned_role` so far, and the groups that are left.
unfoldable pub map_groups : Dict String String → String → List String → String
map_groups role_map assigned [] = assigned
map_groups role_map assigned (group ∷ groups) =
    let mapped = lookup group role_map in
    let with_operator = map_groups role_map "operator" groups in
    let same = map_groups role_map assigned groups in
    if is_text mapped "admin"
    then "admin"
    else if is_text mapped "operator" && not (assigned == "admin")
    then with_operator
    else same

unfoldable pub assigned_role : Dict String String → List String → String
unfolding map_groups
assigned_role role_map groups = map_groups role_map "viewer" groups

pub data SsoReply : Type 0 where
  provision_failed : SsoReply
  account_disabled : SsoReply
  sso_token : String → SsoReply

unfoldable pub sso_session : ℕ → String → User → AuthDb → SsoReply × AuthDb
sso_session now token u db =
    let r = login_sso_user now token u (not (truth u.totp_secret)) db in
    elim r.0 [ none ↦ (account_disabled, r.1) | some t ↦ (sso_token t, r.1) ]

-- The user that was found or provisioned; `None` has no field `totp_secret`, which raises.
unfoldable pub sso_user :
    Passwords
    → ℕ
    → String
    → String
    → String
    → String
    → String
    → String
    → AuthDb
    → Option User × AuthDb
sso_user p now salt random username issuer sso_id role db = elim (get_sso_user issuer sso_id db) [
  | some u ↦
      if not (u.role == role)
      then (some (record u { role = role }), (update_user_role u.id role db).1)
      else (some u, db)
  | none ↦
      let made = create_sso_user p now salt random username issuer sso_id role db in
      elim made.0 [
        | none ↦ (none, made.1)
        | some id ↦ if id == 0 then (none, made.1) else (get_user_by_id id made.1, made.1)
      ]
]

unfoldable pub sso_login :
    Passwords
    → ℕ
    → String
    → String
    → String
    → String
    → String
    → String
    → String
    → AuthDb
    → SsoReply × AuthDb
sso_login p now token salt random username issuer sso_id role db =
    let found = sso_user p now salt random username issuer sso_id role db in
    elim found.0 [ none ↦ (provision_failed, found.1) | some u ↦ sso_session now token u found.1 ]
