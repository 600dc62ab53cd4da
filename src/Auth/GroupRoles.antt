-- ===== src/Auth/GroupRoles.antt =====
-- Which role the groups of an SSO user give.
use fossilsafe_t.Prelude.{
  String, ◌≡◌, refl, Bool, false, ◌||◌, List, [], ◌∷◌, arith, if◌then◌else◌, nat_eq, string_eq,
  is_text,
}
use fossilsafe_t.Prelude.Dict.{Dict, lookup}
use fossilsafe_t.Auth.Login.{map_groups, assigned_role}

-- Some of the groups stands in the map with this role.
unfoldable pub gives : Dict String String → String → List String → Bool
gives role_map role [] = false
gives role_map role (g ∷ groups) = is_text (lookup g role_map) role || gives role_map role groups

map_groups-operator :
    (role_map : Dict String String) (groups : List String)
    → map_groups role_map "operator" groups
      ≡ (if gives role_map "admin" groups then "admin" else "operator")
unfolding map_groups gives
map_groups-operator role_map [] = refl
map_groups-operator role_map (g ∷ groups) = ground (arith, map_groups-operator role_map groups)

map_groups-viewer :
    (role_map : Dict String String) (groups : List String)
    → map_groups role_map "viewer" groups ≡ (
        if gives role_map "admin" groups
        then "admin"
        else if gives role_map "operator" groups
        then "operator"
        else "viewer")
unfolding map_groups gives
map_groups-viewer role_map [] = refl
map_groups-viewer role_map (g ∷ groups) =
    let a = map_groups-viewer role_map groups in
    let b = map_groups-operator role_map groups in ground (arith, a, b)

-- The groups' roles are taken by priority, whatever their order: `admin` if a group maps to it,
-- else `operator` if a group maps to it, else `viewer`, whatever else the map holds.
pub assigned_role-priority :
    (role_map : Dict String String) (groups : List String)
    → assigned_role role_map groups ≡ (
        if gives role_map "admin" groups
        then "admin"
        else if gives role_map "operator" groups
        then "operator"
        else "viewer")
unfolding assigned_role
assigned_role-priority role_map groups = map_groups-viewer role_map groups
