-- ===== src/Auth/Accounts.antt =====
-- Users: creation, setup, updates and permissions. The password hash is a parameter. The database
-- does what it is asked to, but for the UNIQUE username, which makes an insert fail.
use fossilsafe_t.Prelude.{
  ℕ, String, ◌≡◌, Bool, true, false, not, ◌||◌, Option, none, some, List, [], ◌∷◌, if◌then◌else◌,
  ◌==◌, nat_eq, string_eq, text_truth,
}
use fossilsafe_t.Auth.Permissions.{Permission, role_permissions, mentions}
use fossilsafe_t.Auth.Database.{User, AuthDb, get_user_by_id, update_rows, delete_rows, insert_user}

-- argon2: a hash with a random salt, and its test, which accepts the password that was hashed.
pub record Passwords : Type 0 where
  pub hash : String → String → String
  pub verify : String → String → Bool
  pub verify-hash : (salt password : String) → verify password (hash salt password) ≡ true

abbrev pub is_role : String → Bool
is_role role = role == "admin" || role == "operator" || role == "viewer"

-- A row as the inserts write it: the defaults of the table stand in what they leave out.
abbrev pub new_user : String → String → String → ℕ → User
new_user username password_hash role now = record {
  id = 0;
  username = username;
  password_hash = password_hash;
  salt = "";
  role = role;
  created_at = now;
  is_active = true;
  totp_secret = none;
  last_login = none;
  sso_provider = none;
  sso_id = none;
}

-- What `create_user` does: raises, or returns an id or `None`.
pub data Created : Type 0 where
  bad_role : Created
  returned : Option ℕ → Created

module _ (p : Passwords) where
  unfoldable pub create_user : ℕ → String → String → String → String → AuthDb → Created × AuthDb
  create_user now salt username password role db =
      let r = insert_user (new_user username (p.hash salt password) role now) db in
      if is_role role then (returned r.0, r.1) else (bad_role, db)

  abbrev pub is_setup_required : AuthDb → Bool
  is_setup_required db = elim db.users [ [] ↦ true | _ ∷ _ ↦ false ]

  unfoldable pub setup_admin : ℕ → String → String → String → AuthDb → Created × AuthDb
  unfolding create_user
  setup_admin now salt username password db =
      if is_setup_required db
      then create_user now salt username password "admin" db
      else (returned none, db)

  unfoldable pub create_sso_user :
      ℕ → String → String → String → String → String → String → AuthDb → Option ℕ × AuthDb
  create_sso_user now salt random username provider sso_id role db =
      insert_user
        (record (new_user username (p.hash salt random) role now) {
          sso_provider = some provider;
          sso_id = some sso_id;
        })
        db

  unfoldable pub change_password : String → ℕ → String → AuthDb → AuthDb
  change_password salt user_id new_password db = record db {
    users =
        update_rows user_id (λ u. record u { password_hash = p.hash salt new_password; salt = "" })
          db.users;
  }

unfoldable pub has_permission : ℕ → String → AuthDb → Bool
has_permission user_id permission db = elim (get_user_by_id user_id db) [
  | none ↦ false
  | some u ↦ if not u.is_active then false else mentions permission (role_permissions u.role)
]

unfoldable pub get_user_permissions : ℕ → AuthDb → List Permission
get_user_permissions user_id db = elim (get_user_by_id user_id db) [
  | none ↦ []
  | some u ↦ if not u.is_active then [] else role_permissions u.role
]

-- The columns that `update_user` sets: those of the arguments that are not `None`.
abbrev pub set_columns : Option String → Option Bool → User → User
set_columns none none u = u
set_columns (some role) none u = record u { role = role }
set_columns none (some active) u = record u { is_active = active }
set_columns (some role) (some active) u = record u { role = role; is_active = active }

abbrev pub bad_argument : Option String → Bool
bad_argument none = false
bad_argument (some role) = not (is_role role)

unfoldable pub update_user : ℕ → Option String → Option Bool → AuthDb → Bool × AuthDb
update_user user_id role is_active db =
    if bad_argument role
    then (false, db)
    else (true, record db { users = update_rows user_id (set_columns role is_active) db.users })

unfoldable pub update_user_role : ℕ → String → AuthDb → Bool × AuthDb
unfolding update_user
update_user_role user_id new_role db = update_user user_id (some new_role) none db

unfoldable pub delete_user : ℕ → AuthDb → AuthDb
delete_user user_id db = record db { users = delete_rows user_id db.users }

unfoldable pub set_totp : ℕ → Option String → AuthDb → AuthDb
set_totp user_id secret db = record db {
  users = update_rows user_id (λ u. record u { totp_secret = secret }) db.users;
}

-- `totp.verify(code)` of pyotp at this time, as a function of the secret and the code.
unfoldable pub verify_2fa : (String → String → Bool) → ℕ → String → AuthDb → Bool
verify_2fa totp user_id code db = elim (get_user_by_id user_id db) [
  | none ↦ false
  | some u ↦ elim u.totp_secret [
    | none ↦ false
    | some secret ↦ if text_truth secret then totp secret code else false
  ]
]

unfoldable pub enable_2fa : (String → String → Bool) → ℕ → String → String → AuthDb → Bool × AuthDb
unfolding set_totp
enable_2fa totp user_id secret code db =
    if totp secret code then (true, set_totp user_id (some secret) db) else (false, db)

unfoldable pub disable_2fa : ℕ → AuthDb → AuthDb
unfolding set_totp
disable_2fa user_id db = set_totp user_id none db
