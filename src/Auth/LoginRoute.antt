-- ===== src/Auth/LoginRoute.antt =====
-- When the login route hands out a session.
use fossilsafe_t.Prelude.{
  ℕ, String, ◌≡◌, refl, ap, inl, inr, Bool, true, false, not, ◌&&◌, ◌||◌, Option, none, some, arith,
  Bool-cases, nat_eq, string_eq, text_truth, truth,
}
use fossilsafe_t.Prelude.Dict.{lookup, insert, lookup-insert_self}
use fossilsafe_t.Auth.Database.{User, AuthDb, get_user}
use fossilsafe_t.Auth.Accounts.{Passwords, verify_2fa}
use fossilsafe_t.Auth.Sessions.{new_session, seen}
use fossilsafe_t.Auth.Expiry.{login-made}
use fossilsafe_t.Auth.Login.{failed, logged_in, finish_login, check_2fa, login_user}

-- The code that the second factor wants: none, or one that `verify_2fa` accepts now.
abbrev pub passes_2fa : (String → String → Bool) → Option String → User → AuthDb → Bool
passes_2fa totp code u db =
    not (truth u.totp_secret)
    || elim code [ none ↦ false | some c ↦ text_truth c && verify_2fa totp u.id c db ]

module _ (p : Passwords) (totp : String → String → Bool) (now : ℕ)
    (token username password : String) (db : AuthDb) where
  check_2fa-passes :
      (code : Option String) (u : User)
      → passes_2fa totp code u db ≡ true
      → check_2fa p totp code u db ≡ none
  unfolding check_2fa
  check_2fa-passes none u h = ground arith
  check_2fa-passes (some c) u h = ground arith

  check_2fa-fails :
      (code : Option String) (u : User)
      → passes_2fa totp code u db ≡ false
      → (m : String) × (check_2fa p totp code u db ≡ some m)
  unfolding check_2fa
  check_2fa-fails none u h = ("2FA code required", ground arith)
  check_2fa-fails (some c) u h = elim (Bool-cases (text_truth c)) [
    | inl e ↦ ("Invalid 2FA code", ground (arith, e))
    | inr e ↦ ("2FA code required", ground (arith, e))
  ]

  finish_login-made :
      (u : User)
      → get_user username db ≡ some u
      → u.is_active ≡ true
      → p.verify password u.password_hash ≡ true
      → lookup token db.sessions ≡ none
      → text_truth token ≡ true
      → finish_login p totp now token username password u db ≡ (
        logged_in token u,
        record (seen now u.id db) {
          sessions = insert token (new_session now token u (truth u.totp_secret)) db.sessions;
        },
      )
  unfolding finish_login
  finish_login-made u found active right unused nonempty =
      let made =
        login-made p now token username password (truth u.totp_secret) db u found active right
          unused in
      rw (finish_login, ap (λ r. r.0) made, ap (λ r. r.1) made, nonempty) refl

  -- An active user logs in by the right password, where no session has the new token yet. Without
  -- a TOTP secret, or with a code that `verify_2fa` accepts, the token is handed out and its
  -- session is marked `has_2fa` just where the user has a secret. Otherwise the login is refused
  -- and changes nothing.
  pub login_user-second_factor :
      (code : Option String) (u : User)
      → get_user username db ≡ some u
      → u.is_active ≡ true
      → p.verify password u.password_hash ≡ true
      → lookup token db.sessions ≡ none
      → text_truth token ≡ true
      → let r = login_user p totp now token username password code db in
        ((passes_2fa totp code u db ≡ true)
          → (r.0 ≡ logged_in token u)
            × (lookup token r.1.sessions ≡ some (new_session now token u (truth u.totp_secret))))
        × ((passes_2fa totp code u db ≡ false) → (m : String) × (r ≡ (failed 401 m, db)))
  unfolding login_user
  login_user-second_factor code u found active right unused nonempty = (
    λ ok.
        rw
          (
            login_user,
            found,
            check_2fa-passes code u ok,
            finish_login-made u found active right unused nonempty,
            active,
            right,
          )
          (
            refl,
            lookup-insert_self token (new_session now token u (truth u.totp_secret)) db.sessions,
          ),
    λ bad.
        let (m, e) = check_2fa-fails code u bad in
        (m, rw (login_user, found, e, active, right) refl),
  )
