-- ===== src/Domain/Permissions.antt =====
-- Domain/Common/Permissions.h and Application/Security/AuthorizationService.
pub mod Roles
use cppbackend_api.Base.{Bool, true, false, ◌&&◌, List, [], ◌∷◌, String, str_eq, if◌then◌else◌, any}
use cppbackend_api.Domain.Entities.{User, Session}

pub data Permission : Type 0 where
  session_read_self session_revoke_self session_read_all session_revoke_all user_manage : Permission

-- `==` of the enumeration.
abbrev pub same_permission : Permission → Permission → Bool
same_permission session_read_self session_read_self = true
same_permission session_revoke_self session_revoke_self = true
same_permission session_read_all session_read_all = true
same_permission session_revoke_all session_revoke_all = true
same_permission user_manage user_manage = true
same_permission _ _ = false

unfoldable pub permission_to_string : Permission → String
permission_to_string session_read_self = "session:read:self"
permission_to_string session_revoke_self = "session:revoke:self"
permission_to_string session_read_all = "session:read:all"
permission_to_string session_revoke_all = "session:revoke:all"
permission_to_string user_manage = "user:manage"

unfoldable pub get_permissions_for_role : String → List Permission
get_permissions_for_role role =
    if str_eq role "admin"
    then session_read_self ∷ session_revoke_self ∷ session_read_all ∷ session_revoke_all
      ∷ user_manage ∷ []
    else session_read_self ∷ session_revoke_self ∷ []

unfoldable pub role_has_permission : String → Permission → Bool
unfolding get_permissions_for_role
role_has_permission role target =
    any (λ p. same_permission p target) (get_permissions_for_role role)

-- AuthorizationService::hasPermission on a user.
unfoldable pub has_permission : User → Permission → Bool
unfolding role_has_permission
has_permission user perm = role_has_permission user.role perm

unfoldable pub can_access_session : User → Session → Bool
unfolding has_permission
can_access_session user session =
    if has_permission user session_read_all
    then true
    else str_eq user.id session.user_id && has_permission user session_read_self

unfoldable pub can_revoke_session : User → Session → Bool
unfolding has_permission
can_revoke_session user session =
    if has_permission user session_revoke_all
    then true
    else str_eq user.id session.user_id && has_permission user session_revoke_self
