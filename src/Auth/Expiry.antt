-- ===== src/Auth/Expiry.antt =====
-- What a login makes and how long it lasts.
use fossilsafe_t.Prelude.{
  ℕ, ◌+◌, ◌≤◌, ◌<◌, String, ◌≡◌, refl, ◌≢◌, inl, inr, Bool, true, false, ◌&&◌, none, some, arith,
  Option-cases, nat_eq, string_eq,
}
use fossilsafe_t.Prelude.Dict.{
  lookup, insert, lookup-insert_self, lookup-remove_self, lookup-remove_ne,
}
use fossilsafe_t.Auth.Database.{User, Session, AuthDb, get_user, insert_session}
use fossilsafe_t.Auth.Accounts.{Passwords}
use fossilsafe_t.Auth.Sessions.{
  session_duration, new_session, create_session, seen, login, validate_session, logout,
}

create_session-made :
    (now : ℕ) (token : String) (u : User) (has_2fa : Bool) (db : AuthDb)
    → lookup token db.sessions ≡ none
    → create_session now token u has_2fa db ≡ (
      some token,
      record db { sessions = insert token (new_session now token u has_2fa) db.sessions },
    )
unfolding create_session insert_session
create_session-made now token u has_2fa db e = rw (create_session, insert_session, e) refl

validate_session-kept :
    (t : ℕ) (token : String) (s : Session) (db : AuthDb)
    → t ≤ s.expires_at
    → (validate_session t token (record db { sessions = insert token s db.sessions })).0 ≡ some s
unfolding validate_session
validate_session-kept t token s db le = ground (arith, lookup-insert_self token s db.sessions)

validate_session-over :
    (t : ℕ) (token : String) (s : Session) (db : AuthDb)
    → s.expires_at < t
    → (validate_session t token (record db { sessions = insert token s db.sessions })).0 ≡ none
unfolding validate_session
validate_session-over t token s db lt = ground (arith, lookup-insert_self token s db.sessions)

pub login-made :
    (p : Passwords) (now : ℕ) (token username password : String) (has_2fa : Bool) (db : AuthDb)
    (u : User)
    → get_user username db ≡ some u
    → u.is_active ≡ true
    → p.verify password u.password_hash ≡ true
    → lookup token db.sessions ≡ none
    → login p now token username password has_2fa db ≡ (
      some token,
      record (seen now u.id db) {
        sessions = insert token (new_session now token u has_2fa) db.sessions;
      },
    )
unfolding login create_session
login-made p now token username password has_2fa db u found active right fresh =
    rw (login, found, active, right)
      (create_session-made now token u has_2fa (seen now u.id db) fresh)

-- An active user who gives the right password, where no session has the new token yet, gets this
-- token, with a session that holds the user's id and role. It is valid until 24 hours after the
-- login and at no later time.
pub login-validate :
    (p : Passwords) (now : ℕ) (token username password : String) (has_2fa : Bool) (db : AuthDb)
    (u : User)
    → get_user username db ≡ some u
    → u.is_active ≡ true
    → p.verify password u.password_hash ≡ true
    → lookup token db.sessions ≡ none
    → let r = login p now token username password has_2fa db in
      (r.0 ≡ some token)
      × ((t : ℕ)
          → t ≤ now + session_duration
          → (validate_session t token r.1).0 ≡ some (new_session now token u has_2fa))
      × ((t : ℕ) → now + session_duration < t → (validate_session t token r.1).0 ≡ none)
login-validate p now token username password has_2fa db u found active right fresh =
    let s : Session = new_session now token u has_2fa in
    let db' = seen now u.id db in
    rw (login-made p now token username password has_2fa db u found active right fresh)
      (refl, λ t. validate_session-kept t token s db', λ t. validate_session-over t token s db')

-- Where there is no such user, the user is not active, or the password is wrong, a login returns
-- no token and changes nothing.
login-refused :
    (p : Passwords) (now : ℕ) (token username password : String) (has_2fa : Bool) (db : AuthDb)
    → ((u : User)
        → get_user username db ≡ some u
        → (u.is_active && p.verify password u.password_hash) ≡ false)
    → login p now token username password has_2fa db ≡ (none, db)
unfolding login
login-refused p now token username password has_2fa db bad =
    elim (Option-cases (get_user username db)) [
      | inl e ↦ rw (login, e) refl
      | inr (u, e) ↦ rw (login, e) (ground (arith, bad u e))
    ]

-- After a logout the token is refused at every time, and the other tokens are as before.
pub validate_session-logout :
    (token other : String) (t : ℕ) (db : AuthDb)
    → token ≢ other
    → ((validate_session t token (logout token db)).0 ≡ none)
      × ((validate_session t other (logout token db)).0 ≡ (validate_session t other db).0)
unfolding validate_session logout
validate_session-logout token other t db ne =
    ground
      (arith, lookup-remove_self token db.sessions, lookup-remove_ne token other db.sessions ne)

-- Time only ends a session: a token that is refused stays refused at every later time, also when
-- the first test has deleted its row.
pub validate_session-ended :
    (token : String) (t later : ℕ) (db : AuthDb)
    → t ≤ later
    → (validate_session t token db).0 ≡ none
    → ((validate_session later token db).0 ≡ none)
      × ((validate_session later token (validate_session t token db).1).0 ≡ none)
unfolding validate_session
validate_session-ended token t later db le e = ground (arith, lookup-remove_self token db.sessions)
