-- ===== src/Auth/WellFormed.antt =====
-- The rows of `users`: each has one of the three roles, through every change of accounts.
use fossilsafe_t.Prelude.{
  ℕ, String, ◌≡◌, refl, inl, inr, Bool, true, false, not, ◌&&◌, Option, none, some, List, [], ◌∷◌,
  ◌++◌, arith, Bool-cases, Option-cases, find, ◌==◌, nat_eq, string_eq, is_text,
}
use fossilsafe_t.Prelude.Dict.{Dict, lookup}
use fossilsafe_t.Auth.Database.{
  User, AuthDb, has_name, update_rows, delete_rows, insert_user, get_sso_user,
}
use fossilsafe_t.Auth.Accounts.{
  Passwords, is_role, new_user, create_user, setup_admin, is_setup_required, create_sso_user,
  change_password, set_columns, bad_argument, update_user, update_user_role, delete_user, set_totp,
  enable_2fa, disable_2fa,
}
use fossilsafe_t.Auth.Sessions.{seen}
use fossilsafe_t.Auth.Login.{map_groups, assigned_role, sso_user}

-- Every row has the role admin, operator or viewer.
abbrev pub HaveRoles : List User → Type 0
HaveRoles [] = Unit
HaveRoles (u ∷ us) = (is_role u.role ≡ true) × HaveRoles us

update-HaveRoles :
    (id : ℕ) (change : User → User) (us : List User)
    → ((u : User) → is_role u.role ≡ true → is_role (change u).role ≡ true)
    → HaveRoles us
    → HaveRoles (update_rows id change us)
unfolding update_rows
update-HaveRoles id change [] keeps h = tt
update-HaveRoles id change (u ∷ us) keeps (role, h) =
    let rest = update-HaveRoles id change us keeps h in
    elim (Bool-cases (u.id == id)) [ inl e ↦ rw e (keeps u role, rest) | inr e ↦ rw e (role, rest) ]

delete-HaveRoles : (id : ℕ) (us : List User) → HaveRoles us → HaveRoles (delete_rows id us)
unfolding delete_rows
delete-HaveRoles id [] h = h
delete-HaveRoles id (u ∷ us) (role, h) =
    let rest = delete-HaveRoles id us h in
    elim (Bool-cases (u.id == id)) [ inl e ↦ rw e rest | inr e ↦ rw e (role, rest) ]

append-HaveRoles :
    (us : List User) (u : User) → is_role u.role ≡ true → HaveRoles us → HaveRoles (us ++ u ∷ [])
append-HaveRoles [] u role h = (role, tt)
append-HaveRoles (v ∷ us) u role (first, h) = (first, append-HaveRoles us u role h)

insert_user-HaveRoles :
    (u : User) (db : AuthDb)
    → is_role u.role ≡ true
    → HaveRoles db.users
    → HaveRoles (insert_user u db).1.users
unfolding insert_user
insert_user-HaveRoles u db role h = elim (Option-cases (find (has_name u.username) db.users)) [
  | inl e ↦ rw (insert_user, e) (append-HaveRoles db.users (record u { id = db.next_id }) role h)
  | inr (v, e) ↦ rw (insert_user, e) h
]

set_columns-role :
    (role : Option String) (active : Option Bool) (u : User)
    → bad_argument role ≡ false
    → is_role u.role ≡ true
    → is_role (set_columns role active u).role ≡ true
set_columns-role none none u good old = old
set_columns-role (some r) none u good old = ground (arith, good)
set_columns-role none (some a) u good old = old
set_columns-role (some r) (some a) u good old = ground (arith, good)

update_user-HaveRoles :
    (id : ℕ) (role : Option String) (active : Option Bool) (db : AuthDb)
    → HaveRoles db.users
    → HaveRoles (update_user id role active db).1.users
unfolding update_user
update_user-HaveRoles id role active db h = elim (Bool-cases (bad_argument role)) [
  | inl e ↦ rw (update_user, e) h
  | inr e ↦
      rw (update_user, e)
        (update-HaveRoles id (set_columns role active) db.users
          (λ u old. set_columns-role role active u e old) h)
]

-- Whatever the groups are mapped to, the role that they give is one of the three.
map_groups-role :
    (role_map : Dict String String) (assigned : String) (groups : List String)
    → is_role assigned ≡ true
    → is_role (map_groups role_map assigned groups) ≡ true
unfolding map_groups
map_groups-role role_map assigned [] h = h
map_groups-role role_map assigned (g ∷ groups) h =
    let same = map_groups-role role_map assigned groups h in
    let raised = map_groups-role role_map "operator" groups refl in
    let mapped = lookup g role_map in
    elim (Bool-cases (is_text mapped "admin")) [
      | inl e ↦ rw (map_groups, e) refl
      | inr e ↦ elim (Bool-cases (is_text mapped "operator" && not (assigned == "admin"))) [
        | inl f ↦ rw (map_groups, e, f) raised
        | inr f ↦ rw (map_groups, e, f) same
      ]
    ]

-- A change of the users, with the library values of the moment.
pub data Change : Type 0 where
  creates : ℕ → String → String → String → String → Change
  sets_up : ℕ → String → String → String → Change
  provisions :
      ℕ → String → String → String → String → String → Dict String String → List String → Change
  updates : ℕ → Option String → Option Bool → Change
  changes_password : String → ℕ → String → Change
  deletes : ℕ → Change
  enables_2fa : ℕ → String → String → Change
  disables_2fa : ℕ → Change
  logs_in : ℕ → ℕ → Change

module _ (p : Passwords) (totp : String → String → Bool) where
  unfoldable pub change : Change → AuthDb → AuthDb
  change (creates now salt name word role) db = (create_user p now salt name word role db).1
  change (sets_up now salt name word) db = (setup_admin p now salt name word db).1
  change (provisions now salt random name issuer id role_map groups) db =
      (sso_user p now salt random name issuer id (assigned_role role_map groups) db).1
  change (updates id role active) db = (update_user id role active db).1
  change (changes_password salt id word) db = change_password p salt id word db
  change (deletes id) db = delete_user id db
  change (enables_2fa id secret code) db = (enable_2fa totp id secret code db).1
  change (disables_2fa id) db = disable_2fa id db
  change (logs_in now id) db = seen now id db

  unfoldable pub change_all : List Change → AuthDb → AuthDb
  change_all [] db = db
  change_all (c ∷ cs) db = change_all cs (change c db)

  create_user-HaveRoles :
      (now : ℕ) (salt name word role : String) (db : AuthDb)
      → HaveRoles db.users
      → HaveRoles (create_user p now salt name word role db).1.users
  unfolding create_user
  create_user-HaveRoles now salt name word role db h = elim (Bool-cases (is_role role)) [
    | inl e ↦
        rw (create_user, e)
          (insert_user-HaveRoles (new_user name (p.hash salt word) role now) db e h)
    | inr e ↦ rw (create_user, e) h
  ]

  setup_admin-HaveRoles :
      (now : ℕ) (salt name word : String) (db : AuthDb)
      → HaveRoles db.users
      → HaveRoles (setup_admin p now salt name word db).1.users
  unfolding setup_admin
  setup_admin-HaveRoles now salt name word db h =
      let made = create_user-HaveRoles now salt name word "admin" db h in
      elim (Bool-cases (is_setup_required p db)) [
        | inl e ↦ rw (setup_admin, e) made
        | inr e ↦ rw (setup_admin, e) h
      ]

  -- The user's row after the callback has found it or made it.
  sso_user-HaveRoles :
      (now : ℕ) (salt random name issuer id role : String) (db : AuthDb)
      → is_role role ≡ true
      → HaveRoles db.users
      → HaveRoles (sso_user p now salt random name issuer id role db).1.users
  unfolding sso_user update_user_role create_sso_user
  sso_user-HaveRoles now salt random name issuer id role db good h =
      elim (Option-cases (get_sso_user issuer id db)) [
        | inl e ↦
            let u : User = record (new_user name (p.hash salt random) role now) {
              sso_provider = some issuer;
              sso_id = some id;
            } in
            let made = insert_user-HaveRoles u db good h in
            elim (Option-cases (insert_user u db).0) [
              | inl f ↦ rw (sso_user, e, f) made
              | inr (n, f) ↦ elim (Bool-cases (n == 0)) [
                | inl g ↦ rw (sso_user, e, f, g) made
                | inr g ↦ rw (sso_user, e, f, g) made
              ]
            ]
        | inr (u, e) ↦ elim (Bool-cases (not (u.role == role))) [
          | inl f ↦ rw (sso_user, e, f) (update_user-HaveRoles u.id (some role) none db h)
          | inr f ↦ rw (sso_user, e, f) h
        ]
      ]

  change-HaveRoles : (c : Change) (db : AuthDb) → HaveRoles db.users → HaveRoles (change c db).users
  unfolding change change_password delete_user enable_2fa set_totp disable_2fa assigned_role
  change-HaveRoles (creates now salt name word role) db h =
      create_user-HaveRoles now salt name word role db h
  change-HaveRoles (sets_up now salt name word) db h = setup_admin-HaveRoles now salt name word db h
  change-HaveRoles (provisions now salt random name issuer id role_map groups) db h =
      sso_user-HaveRoles now salt random name issuer id (assigned_role role_map groups) db
        (map_groups-role role_map "viewer" groups refl) h
  change-HaveRoles (updates id role active) db h = update_user-HaveRoles id role active db h
  change-HaveRoles (changes_password salt id word) db h =
      update-HaveRoles id _ db.users (λ u old. old) h
  change-HaveRoles (deletes id) db h = delete-HaveRoles id db.users h
  change-HaveRoles (enables_2fa id secret code) db h =
      let set =
        update-HaveRoles id (λ u. record u { totp_secret = some secret }) db.users (λ u old. old)
          h in
      elim (Bool-cases (totp secret code)) [
        | inl e ↦ rw (change, enable_2fa, e) set
        | inr e ↦ rw (change, enable_2fa, e) h
      ]
  change-HaveRoles (disables_2fa id) db h = update-HaveRoles id _ db.users (λ u old. old) h
  change-HaveRoles (logs_in now id) db h = update-HaveRoles id _ db.users (λ u old. old) h

  -- From users who all have the role admin, operator or viewer, every sequence of creations, setups,
  -- updates, deletions, changes of passwords and of 2FA, logins and SSO callbacks, with any
  -- arguments and any role map and groups, leads to users who all have one of these roles.
  pub change_all-HaveRoles :
      (cs : List Change) (db : AuthDb) → HaveRoles db.users → HaveRoles (change_all cs db).users
  unfolding change_all
  change_all-HaveRoles [] db h = h
  change_all-HaveRoles (c ∷ cs) db h =
      change_all-HaveRoles cs (change c db) (change-HaveRoles c db h)
