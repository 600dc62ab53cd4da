-- ===== src/Auth/Sessions.antt =====
-- Sessions: login, SSO login, validation and logout. A time is a number of microseconds, which
-- `isoformat` and `fromisoformat` keep. The token is the random text of `secrets.token_urlsafe`.
use fossilsafe_t.Prelude.{
  ℕ, ◌+◌, ◌*◌, String, Bool, not, Option, none, some, ltb, if◌then◌else◌, nat_eq, string_eq,
}
use fossilsafe_t.Prelude.Dict.{lookup, remove}
use fossilsafe_t.Auth.Database.{
  User, Session, AuthDb, get_user, update_rows, insert_session, get_user_by_id,
}
use fossilsafe_t.Auth.Accounts.{Passwords}

abbrev pub session_duration : ℕ
session_duration = 24 * 3600 * 1000000

-- The row that both logins write.
abbrev pub new_session : ℕ → String → User → Bool → Session
new_session now token u has_2fa = record {
  token = token;
  user_id = u.id;
  role = u.role;
  has_2fa = has_2fa;
  created_at = now;
  expires_at = now + session_duration;
}

-- What a login returns: a token, or that it failed.
unfoldable pub create_session : ℕ → String → User → Bool → AuthDb → Option String × AuthDb
create_session now token u has_2fa db = elim (insert_session (new_session now token u has_2fa) db) [
  | none ↦ (none, db)
  | some db' ↦ (some token, db')
]

abbrev pub seen : ℕ → ℕ → AuthDb → AuthDb
seen now id db = record db {
  users = update_rows id (λ u. record u { last_login = some now }) db.users;
}

unfoldable pub login :
    Passwords → ℕ → String → String → String → Bool → AuthDb → Option String × AuthDb
login p now token username password has_2fa db = elim (get_user username db) [
  | none ↦ (none, db)
  | some u ↦
      let done = create_session now token u has_2fa (seen now u.id db) in
      if not u.is_active
      then (none, db)
      else if not (p.verify password u.password_hash)
      then (none, db)
      else done
]

-- `login_sso_user`, which raises `ValueError` where this is `none`.
unfoldable pub login_sso_user : ℕ → String → User → Bool → AuthDb → Option String × AuthDb
login_sso_user now token u has_2fa db =
    let done = create_session now token u has_2fa db in if not u.is_active then (none, db) else done

unfoldable pub validate_session : ℕ → String → AuthDb → Option Session × AuthDb
validate_session now token db = elim (lookup token db.sessions) [
  | none ↦ (none, db)
  | some s ↦
      if ltb s.expires_at now
      then (none, record db { sessions = remove token db.sessions })
      else (some s, db)
]

unfoldable pub logout : String → AuthDb → AuthDb
logout token db = record db { sessions = remove token db.sessions }

-- `get_current_user`, of `g.session`.
unfoldable pub get_current_user : Option Session → AuthDb → Option User
get_current_user none db = none
get_current_user (some s) db = get_user_by_id s.user_id db
