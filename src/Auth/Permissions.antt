-- ===== src/Auth/Permissions.antt =====
-- The permissions of backend/auth.py and the roles that hold them. A set is a list without order.
use fossilsafe_t.Prelude.{
  ℕ, String, Bool, false, ◌||◌, Option, none, some, List, [], ◌∷◌, if◌then◌else◌, ◌==◌, nat_eq,
  string_eq,
}

pub data Permission : Type 0 where
  tape_view : Permission
  tape_scan : Permission
  tape_init : Permission
  tape_erase : Permission
  tape_move : Permission
  tape_duplicate : Permission
  backup_view : Permission
  backup_create : Permission
  backup_cancel : Permission
  backup_delete : Permission
  restore_view : Permission
  restore_execute : Permission
  source_view : Permission
  source_create : Permission
  source_modify : Permission
  source_delete : Permission
  source_test : Permission
  job_view : Permission
  job_create : Permission
  job_modify : Permission
  job_cancel : Permission
  job_delete : Permission
  system_view : Permission
  system_modify : Permission
  system_diagnostics : Permission
  user_view : Permission
  user_create : Permission
  user_modify : Permission
  user_delete : Permission
  catalog_view : Permission
  catalog_search : Permission
  catalog_rebuild : Permission
  catalog_export : Permission
  catalog_import : Permission
  log_view : Permission
  log_download : Permission

-- The text of a permission, as the routes and the messages write it.
unfoldable pub permission_text : Permission → String
permission_text tape_view = "tape:view"
permission_text tape_scan = "tape:scan"
permission_text tape_init = "tape:init"
permission_text tape_erase = "tape:erase"
permission_text tape_move = "tape:move"
permission_text tape_duplicate = "tape:duplicate"
permission_text backup_view = "backup:view"
permission_text backup_create = "backup:create"
permission_text backup_cancel = "backup:cancel"
permission_text backup_delete = "backup:delete"
permission_text restore_view = "restore:view"
permission_text restore_execute = "restore:execute"
permission_text source_view = "source:view"
permission_text source_create = "source:create"
permission_text source_modify = "source:modify"
permission_text source_delete = "source:delete"
permission_text source_test = "source:test"
permission_text job_view = "job:view"
permission_text job_create = "job:create"
permission_text job_modify = "job:modify"
permission_text job_cancel = "job:cancel"
permission_text job_delete = "job:delete"
permission_text system_view = "system:view"
permission_text system_modify = "system:modify"
permission_text system_diagnostics = "system:diagnostics"
permission_text user_view = "user:view"
permission_text user_create = "user:create"
permission_text user_modify = "user:modify"
permission_text user_delete = "user:delete"
permission_text catalog_view = "catalog:view"
permission_text catalog_search = "catalog:search"
permission_text catalog_rebuild = "catalog:rebuild"
permission_text catalog_export = "catalog:export"
permission_text catalog_import = "catalog:import"
permission_text log_view = "log:view"
permission_text log_download = "log:download"

abbrev admin_permissions : List Permission
admin_permissions =
    tape_view ∷ tape_scan ∷ tape_init ∷ tape_erase ∷ tape_move ∷ tape_duplicate ∷ backup_view
    ∷ backup_create ∷ backup_cancel ∷ backup_delete ∷ restore_view ∷ restore_execute ∷ source_view
    ∷ source_create ∷ source_modify ∷ source_delete ∷ source_test ∷ job_view ∷ job_create
    ∷ job_modify ∷ job_cancel ∷ job_delete ∷ system_view ∷ system_modify ∷ system_diagnostics
    ∷ user_view ∷ user_create ∷ user_modify ∷ user_delete ∷ catalog_view ∷ catalog_search
    ∷ catalog_rebuild ∷ catalog_export ∷ catalog_import ∷ log_view ∷ log_download ∷ []

abbrev operator_permissions : List Permission
operator_permissions =
    tape_view ∷ tape_scan ∷ tape_init ∷ tape_move ∷ tape_duplicate ∷ backup_view ∷ backup_create
    ∷ backup_cancel ∷ restore_view ∷ restore_execute ∷ source_view ∷ source_create ∷ source_modify
    ∷ source_test ∷ job_view ∷ job_create ∷ job_modify ∷ job_cancel ∷ system_view
    ∷ system_diagnostics ∷ catalog_view ∷ catalog_search ∷ log_view ∷ log_download ∷ []

abbrev viewer_permissions : List Permission
viewer_permissions =
    tape_view ∷ backup_view ∷ restore_view ∷ source_view ∷ job_view ∷ system_view ∷ catalog_view
    ∷ catalog_search ∷ log_view ∷ []

-- `ROLE_PERMISSIONS.get(role, set())`
unfoldable pub role_permissions : String → List Permission
role_permissions role =
    if role == "admin"
    then admin_permissions
    else if role == "operator"
    then operator_permissions
    else if role == "viewer"
    then viewer_permissions
    else []

-- `hierarchy.get(role)` of `require_role`.
unfoldable pub hierarchy : String → Option ℕ
hierarchy role =
    if role == "admin"
    then some 3
    else if role == "operator"
    then some 2
    else if role == "viewer"
    then some 1
    else if role == "readonly"
    then some 1
    else none

-- `text in (the texts of the permissions)`
unfoldable pub mentions : String → List Permission → Bool
mentions text [] = false
mentions text (p ∷ ps) = permission_text p == text || mentions text ps
