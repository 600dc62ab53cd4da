-- ===== src/Auth/Roles.antt =====
-- The numbers of `require_role` against the permissions of `require_permission`.
use fossilsafe_t.Prelude.{
  ℕ, ◌≤◌, ◌<◌, String, ◌≡◌, refl, ◌↔◌, ◌⊎◌, inl, inr, Bool, true, false, ◌&&◌, List, [], ◌∷◌, arith,
  nat_eq, string_eq, str_iff,
}
use fossilsafe_t.Auth.Permissions.{
  Permission, role_permissions, hierarchy, mentions, permission_text,
}
use fossilsafe_t.Auth.Requests.{level, role_allows, proceed}
use fossilsafe_t.Auth.Database.{Session}
use fossilsafe_t.Auth.Accounts.{is_role}

-- Every text of one list is a text of the other.
within : List Permission → List Permission → Bool
within [] qs = true
within (p ∷ ps) qs = mentions (permission_text p) qs && within ps qs

mentions-within :
    (text : String) (ps qs : List Permission)
    → within ps qs ≡ true
    → mentions text ps ≡ true
    → mentions text qs ≡ true
unfolding within mentions
mentions-within text [] qs w m = ground arith
mentions-within text (p ∷ ps) qs w m =
    ground (arith, mentions-within text ps qs, str_iff (permission_text p) text)

-- The role `high` may do all that `low` may.
abbrev Includes : (low high : String) → Type 0
Includes low high =
    (text : String)
    → mentions text (role_permissions low) ≡ true
    → mentions text (role_permissions high) ≡ true

abbrev Agrees : (low high : String) → Type 0
Agrees low high = (level 0 low ≤ level 0 high) ↔ Includes low high

higher :
    (low high : String)
    → level 0 low ≤ level 0 high
    → within (role_permissions low) (role_permissions high) ≡ true
    → Agrees low high
higher low high le w =
    (λ _ text. mentions-within text (role_permissions low) (role_permissions high) w, λ _. le)

absurd_order : {m n : ℕ} → m < n → n ≤ m → true ≡ false
absurd_order lt le = ground arith

lower :
    (low high text : String)
    → level 0 high < level 0 low
    → mentions text (role_permissions low) ≡ true
    → mentions text (role_permissions high) ≡ false
    → Agrees low high
lower low high text lt has hasnt = (λ le. cc (absurd_order lt le), λ all. cc (all text has, hasnt))

is_role-cases :
    (role : String)
    → is_role role ≡ true
    → (role ≡ "admin") ⊎ ((role ≡ "operator") ⊎ (role ≡ "viewer"))
is_role-cases role h =
    ground (arith, str_iff role "admin", str_iff role "operator", str_iff role "viewer")

admin_over : (low : String) → is_role low ≡ true → Agrees low "admin"
unfolding role_permissions within mentions permission_text level hierarchy
admin_over low h = elim (is_role-cases low h) [
  | inl e ↦ rw e (higher "admin" "admin" (omega arith) refl)
  | inr (inl e) ↦ rw e (higher "operator" "admin" (omega arith) refl)
  | inr (inr e) ↦ rw e (higher "viewer" "admin" (omega arith) refl)
]

operator_over : (low : String) → is_role low ≡ true → Agrees low "operator"
unfolding role_permissions within mentions permission_text level hierarchy
operator_over low h = elim (is_role-cases low h) [
  | inl e ↦ rw e (lower "admin" "operator" "user:view" (omega arith) refl refl)
  | inr (inl e) ↦ rw e (higher "operator" "operator" (omega arith) refl)
  | inr (inr e) ↦ rw e (higher "viewer" "operator" (omega arith) refl)
]

viewer_over : (low : String) → is_role low ≡ true → Agrees low "viewer"
unfolding role_permissions within mentions permission_text level hierarchy
viewer_over low h = elim (is_role-cases low h) [
  | inl e ↦ rw e (lower "admin" "viewer" "user:view" (omega arith) refl refl)
  | inr (inl e) ↦ rw e (lower "operator" "viewer" "tape:scan" (omega arith) refl refl)
  | inr (inr e) ↦ rw e (higher "viewer" "viewer" (omega arith) refl)
]

-- Between the three roles, the number of one is at most the number of the other just where every
-- permission of the one is a permission of the other.
hierarchy-iff-permissions :
    (low high : String)
    → is_role low ≡ true
    → is_role high ≡ true
    → (level 0 low ≤ level 0 high) ↔ (
        (text : String)
        → mentions text (role_permissions low) ≡ true
        → mentions text (role_permissions high) ≡ true)
hierarchy-iff-permissions low high l h = elim (is_role-cases high h) [
  | inl e ↦ rw e (admin_over low l)
  | inr (inl e) ↦ rw e (operator_over low l)
  | inr (inr e) ↦ rw e (viewer_over low l)
]

hierarchy-role : (role : String) → is_role role ≡ true → level 99 role ≡ level 0 role
unfolding level hierarchy
hierarchy-role role h = elim (is_role-cases role h) [
  | inl e ↦ rw e refl
  | inr (inl e) ↦ rw e refl
  | inr (inr e) ↦ rw e refl
]

admin_highest : (role : String) → is_role role ≡ true → level 0 role ≤ level 0 "admin"
unfolding level hierarchy
admin_highest role h = elim (is_role-cases role h) [
  | inl e ↦ rw e (omega arith)
  | inr (inl e) ↦ rw e (omega arith)
  | inr (inr e) ↦ rw e (omega arith)
]

role_allows-iff-level :
    (role : String) (s : Session)
    → is_role role ≡ true
    → (role_allows role s ≡ proceed) ↔ (level 0 role ≤ level 0 s.role)
unfolding role_allows
role_allows-iff-level role s h =
    ground (arith, hierarchy-role role h, admin_highest role h, str_iff s.role "admin")

-- Between the three roles, a route that requires a role lets a session pass just where the
-- session's role has every permission of the required role in `ROLE_PERMISSIONS`.
pub role_allows-iff-permissions :
    (role : String) (s : Session)
    → is_role role ≡ true
    → is_role s.role ≡ true
    → (role_allows role s ≡ proceed) ↔ (
        (text : String)
        → mentions text (role_permissions role) ≡ true
        → mentions text (role_permissions s.role) ≡ true)
role_allows-iff-permissions role s known user_known =
    let a = role_allows-iff-level role s known in
    let b = hierarchy-iff-permissions role s.role known user_known in
    (λ e. b.0 (a.0 e), λ all. a.1 (b.1 all))
