-- ===== src/Auth/Database.antt =====
-- The tables `users` and `sessions` of backend/auth.py, and the queries that read one row.
-- Ids are never used twice (AUTOINCREMENT). The foreign key of `sessions` has no effect: sqlite
-- ignores it unless a connection turns `foreign_keys` on, which none does.
use fossilsafe_t.Prelude.{
  ℕ, ◌+◌, String, Bool, not, ◌&&◌, Option, none, some, List, [], ◌∷◌, ◌++◌, if◌then◌else◌, keep,
  find, ◌==◌, nat_eq, string_eq, is_text,
}
use fossilsafe_t.Prelude.Dict.{Dict, lookup, insert}

pub record User : Type 0 where
  pub id : ℕ
  pub username : String
  pub password_hash : String
  pub salt : String
  pub role : String
  pub created_at : ℕ
  pub is_active : Bool
  pub totp_secret : Option String
  pub last_login : Option ℕ
  pub sso_provider : Option String
  pub sso_id : Option String

pub record Session : Type 0 where
  pub token : String
  pub user_id : ℕ
  pub role : String
  pub has_2fa : Bool
  pub created_at : ℕ
  pub expires_at : ℕ

pub record AuthDb : Type 0 where
  pub users : List User
  pub next_id : ℕ
  pub sessions : Dict String Session

-- `WHERE id = ?` and `WHERE username = ?`
abbrev pub has_id : ℕ → User → Bool
has_id id u = u.id == id

abbrev pub has_name : String → User → Bool
has_name username u = u.username == username

-- The fields that `get_user` and `get_user_by_id` read.
unfoldable pub local_fields : User → User
local_fields u = record u { salt = ""; sso_provider = none; sso_id = none }

unfoldable pub get_user : String → AuthDb → Option User
get_user username db = elim (find (has_name username) db.users) [
  | none ↦ none
  | some u ↦ some (local_fields u)
]

unfoldable pub get_user_by_id : ℕ → AuthDb → Option User
get_user_by_id id db = elim (find (has_id id) db.users) [
  | none ↦ none
  | some u ↦ some (local_fields u)
]

abbrev is_sso : String → String → User → Bool
is_sso provider sso_id u = is_text u.sso_provider provider && is_text u.sso_id sso_id

unfoldable pub get_sso_user : String → String → AuthDb → Option User
get_sso_user provider sso_id db = elim (find (is_sso provider sso_id) db.users) [
  | none ↦ none
  | some u ↦ some (record u { salt = "" })
]

-- `UPDATE users SET ... WHERE id = ?`
unfoldable pub update_rows : ℕ → (User → User) → List User → List User
update_rows id change [] = []
update_rows id change (u ∷ us) = (if u.id == id then change u else u) ∷ update_rows id change us

-- `DELETE FROM users WHERE id = ?`
unfoldable pub delete_rows : ℕ → List User → List User
delete_rows id us = keep (λ u. not (u.id == id)) us

-- An insert into `users`: the username is UNIQUE, and the row takes the next id.
unfoldable pub insert_user : User → AuthDb → Option ℕ × AuthDb
insert_user u db = elim (find (has_name u.username) db.users) [
  | some _ ↦ (none, db)
  | none ↦ (
    some db.next_id,
    record db { users = db.users ++ record u { id = db.next_id } ∷ []; next_id = db.next_id + 1 },
  )
]

-- An insert into `sessions`, whose primary key is the token.
unfoldable pub insert_session : Session → AuthDb → Option AuthDb
insert_session s db = elim (lookup s.token db.sessions) [
  | some _ ↦ none
  | none ↦ some (record db { sessions = insert s.token s db.sessions })
]
