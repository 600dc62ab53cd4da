-- ===== src/Auth/Revocation.antt =====
-- What a change of a user means for requests with a session that the user already has.
use fossilsafe_t.Prelude.{
  ℕ, String, ◌≡◌, refl, ap, ◌∙◌, inl, inr, Bool, true, false, not, ◌&&◌, Option, none, some, List,
  [], ◌∷◌, arith, if◌then◌else◌, Option-cases, find, nat_eq, string_eq, text_truth, truth,
}
use fossilsafe_t.Prelude.Dict.{lookup}
use fossilsafe_t.Auth.Database.{
  User, Session, AuthDb, get_user_by_id, update_rows, delete_rows, local_fields, has_id,
}
use fossilsafe_t.Auth.Accounts.{is_role, update_user, delete_user, set_columns}
use fossilsafe_t.Auth.Sessions.{validate_session}
use fossilsafe_t.Auth.Requests.{
  Request, Response, Context, proceed, error, request_token, lacks_2fa, check_token, require_auth,
  require_role, role_allows, then_test,
}

find-update :
    (id : ℕ) (change : User → User) (us : List User)
    → ((u : User) → (change u).id ≡ u.id)
    → find (has_id id) (update_rows id change us)
      ≡ elim (find (has_id id) us) [ none ↦ none | some u ↦ some (change u) ]
unfolding find update_rows
find-update id change [] keeps = refl
find-update id change (u ∷ us) keeps = ground (arith, keeps u, find-update id change us keeps)

find-delete : (id : ℕ) (us : List User) → find (has_id id) (delete_rows id us) ≡ none
unfolding find delete_rows
find-delete id [] = refl
find-delete id (u ∷ us) = ground (arith, find-delete id us)

set_columns-id :
    (role : Option String) (active : Option Bool) (u : User) → (set_columns role active u).id ≡ u.id
set_columns-id none none u = refl
set_columns-id (some r) none u = refl
set_columns-id none (some a) u = refl
set_columns-id (some r) (some a) u = refl

pub validate_session-some :
    (now : ℕ) (token : String) (s : Session) (db : AuthDb)
    → (validate_session now token db).0 ≡ some s
    → validate_session now token db ≡ (some s, db)
unfolding validate_session
validate_session-some now token s db e = elim (Option-cases (lookup token db.sessions)) [
  | inl f ↦ ground (arith, e, f)
  | inr (row, f) ↦ ground (arith, e, f)
]

validate_session-users :
    (now : ℕ) (token : String) (db : AuthDb) (us : List User)
    → (validate_session now token (record db { users = us })).0 ≡ (validate_session now token db).0
unfolding validate_session
validate_session-users now token db us = elim (Option-cases (lookup token db.sessions)) [
  | inl f ↦ ground (arith, f)
  | inr (row, f) ↦ ground (arith, f)
]

-- A context in which no session has been attached.
abbrev pub fresh : AuthDb → Context
fresh db = record { manager = some db; session = none }

abbrev pub no_2fa : Response
no_2fa = error 401 "2FA verification required"

module _ (now : ℕ) (token : String) (req : Request) (s : Session) (db : AuthDb) where
  -- `require_auth` with a valid token leaves what is to be said about 2FA.
  pub require_auth-valid :
      request_token req ≡ some token
      → text_truth token ≡ true
      → (validate_session now token db).0 ≡ some s
      → require_auth now req (fresh db) ≡ (
          if lacks_2fa s db
          then (no_2fa, fresh db)
          else (proceed, record { manager = some db; session = some s }))
  unfolding require_auth check_token
  require_auth-valid sent nonempty valid =
      let same = ap (λ v. v.1) (validate_session-some now token s db valid) in
      rw (require_auth, sent, check_token, valid, same, nonempty) refl

  require_role-valid :
      (role : String)
      → request_token req ≡ some token
      → text_truth token ≡ true
      → (validate_session now token db).0 ≡ some s
      → (require_role role now req (fresh db)).0
        ≡ (if lacks_2fa s db then no_2fa else role_allows role s)
  unfolding require_role then_test
  require_role-valid role sent nonempty valid =
      rw (require_role, require_auth-valid sent nonempty valid) (ground arith)

lacks_2fa-delete : (s : Session) (db : AuthDb) → lacks_2fa s (delete_user s.user_id db) ≡ false
unfolding lacks_2fa get_user_by_id delete_user local_fields
lacks_2fa-delete s db = rw (lacks_2fa, find-delete s.user_id db.users) refl

lacks_2fa-update :
    (role : Option String) (active : Option Bool) (s : Session) (db : AuthDb)
    → lacks_2fa s (record db { users = update_rows s.user_id (set_columns role active) db.users })
      ≡ lacks_2fa s db
unfolding lacks_2fa get_user_by_id local_fields
lacks_2fa-update role active s db = elim (Option-cases (find (has_id s.user_id) db.users)) [
  | inl e ↦
      rw
        (
          lacks_2fa,
          find-update s.user_id (set_columns role active) db.users (set_columns-id role active),
          e,
        )
        refl
  | inr (u, e) ↦
      rw
        (
          lacks_2fa,
          find-update s.user_id (set_columns role active) db.users (set_columns-id role active),
          e,
        )
        (columns role active u)
]
  where
    columns :
        (r : Option String) (a : Option Bool) (u : User)
        → (truth (set_columns r a u).totp_secret && not s.has_2fa)
          ≡ (truth u.totp_secret && not s.has_2fa)
    columns none none u = refl
    columns (some x) none u = refl
    columns none (some y) u = refl
    columns (some x) (some y) u = refl

module _ (now : ℕ) (token : String) (req : Request) (s : Session) (db : AuthDb) where
  -- The role of a session is the one it was made with. A request sends the token of a valid
  -- session to a route that requires a role. After its user is deleted, the answer depends on the
  -- role in the session alone; after its user is given another of the three roles and
  -- deactivated, the answer is the one of before.
  pub require_role-stale :
      (role new_role : String)
      → request_token req ≡ some token
      → text_truth token ≡ true
      → (validate_session now token db).0 ≡ some s
      → is_role new_role ≡ true
      → ((require_role role now req (fresh (delete_user s.user_id db))).0 ≡ role_allows role s)
        × ((require_role role now req
              (fresh (update_user s.user_id (some new_role) (some false) db).1)).0
            ≡ (require_role role now req (fresh db)).0)
  unfolding update_user delete_user
  require_role-stale role new_role sent nonempty valid known =
      let change = set_columns (some new_role) (some false) in
      let updated : AuthDb = record db { users = update_rows s.user_id change db.users } in
      let deleted = delete_user s.user_id db in
      (
        rw
            (
              require_role-valid now token req s deleted role sent nonempty
                  (validate_session-users now token db deleted.users ∙ valid),
              lacks_2fa-delete s db,
            )
            refl,
        rw
            (
              update_user,
              known,
              require_role-valid now token req s updated role sent nonempty
                  (validate_session-users now token db updated.users ∙ valid),
              lacks_2fa-update (some new_role) (some false) s db,
              require_role-valid now token req s db role sent nonempty valid,
            )
            refl,
      )
